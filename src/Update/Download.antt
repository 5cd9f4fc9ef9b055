-- ===== src/Update/Download.antt =====
-- internal/update/update.go, Download: a download that is interrupted goes on where it stopped.
use fuelmind.Base.{
  ℕ, ◌≡◌, refl, ap, sym, ◌∙◌, true, false, Option, none, some, [], ◌∷◌, ◌++◌, Text, length, drop,
}
use fuelmind.Update.{
  Files, Reply, partial_content, full_content, range_refused, other_status, unreachable,
  DownloadError, range_restart, failed, have, finish, download, retry, download_with_restart,
}

-- `p` begins the text `a`.
abbrev pub IsPrefix : Text → Text → Type 0
IsPrefix p a = (rest : Text) × (p ++ rest ≡ a)

-- A server that has the artifact `a`: what it answers to a request from the offset `n` on.
abbrev pub Serves : Text → ℕ → Reply → Type 0
Serves a n (partial_content body true) = body ≡ drop n a
Serves a n (partial_content body false) = IsPrefix body (drop n a)
Serves a n (full_content body true) = body ≡ a
Serves a n (full_content body false) = IsPrefix body a
Serves a n range_refused = Unit
Serves a n other_status = Unit
Serves a n unreachable = Unit

-- The artifact is there, or what is there of it begins the artifact.
abbrev pub IsProgress : Text → Option DownloadError × Files → Type 0
IsProgress a (none, f) = f.artifact ≡ some a
IsProgress a (some e, f) = IsPrefix (have f) a

drop-length-append : (p r : Text) → drop (length p) (p ++ r) ≡ r
drop-length-append [] r = refl
drop-length-append (c ∷ p) r = drop-length-append p r

append_assoc : (a b c : Text) → (a ++ b) ++ c ≡ a ++ (b ++ c)
append_assoc [] b c = refl
append_assoc (x ∷ a) b c = ap (λ t. x ∷ t) (append_assoc a b c)

append_none : (a : Text) → a ++ [] ≡ a
append_none [] = refl
append_none (x ∷ a) = ap (λ t. x ∷ t) (append_none a)

-- What is there and the rest of the artifact make the artifact.
resumed : (p a : Text) → IsPrefix p a → p ++ drop (length p) a ≡ a
resumed p a (r, e) =
    ap (λ t. p ++ drop (length p) t) (sym e) ∙ (ap (λ t. p ++ t) (drop-length-append p r) ∙ e)

reply-IsProgress :
    (a : Text) (f : Files) (server : ℕ → Reply) (reply : Reply)
    → server (length (have f)) ≡ reply
    → IsPrefix (have f) a
    → Serves a (length (have f)) reply
    → IsProgress a (download server f)
unfolding finish download
reply-IsProgress a f server (partial_content body true) e p s =
    rw (e, download) (ap (λ t. some (have f ++ t)) s ∙ ap (λ t. some t) (resumed (have f) a p))
reply-IsProgress a f server (partial_content body false) e p (rest, s) =
    rw (e, download)
      (rest, append_assoc (have f) body rest ∙ (ap (λ t. have f ++ t) s ∙ resumed (have f) a p))
reply-IsProgress a f server (full_content body true) e p s = rw (e, download) (ap (λ t. some t) s)
reply-IsProgress a f server (full_content body false) e p s = rw (e, download) s
reply-IsProgress a f server range_refused e p s = rw (e, download) (a, refl)
reply-IsProgress a f server other_status e p s = rw (e, download) p
reply-IsProgress a f server unreachable e p s = rw (e, download) p

download-IsProgress :
    (a : Text) (f : Files) (server : ℕ → Reply)
    → IsPrefix (have f) a
    → ((n : ℕ) → Serves a n (server n))
    → IsProgress a (download server f)
download-IsProgress a f server p s = reply-IsProgress a f server _ refl p (s (length (have f)))

retry-IsProgress :
    (a : Text) (again : ℕ → Reply) (r : Option DownloadError × Files)
    → ((n : ℕ) → Serves a n (again n))
    → IsProgress a r
    → IsProgress a (retry again r)
retry-IsProgress a again (none, f) s h = h
retry-IsProgress a again (some range_restart, f) s h = download-IsProgress a f again h s
retry-IsProgress a again (some failed, f) s h = h

-- From a server that has the artifact, however often it breaks off, ignores the range that is asked
-- for or refuses it, a download that succeeds gives the whole artifact, and one that fails keeps a
-- beginning of it to go on from, if the partial file was one.
pub download_with_restart-IsProgress :
    (a : Text) (f : Files) (server again : ℕ → Reply)
    → IsPrefix (have f) a
    → ((n : ℕ) → Serves a n (server n))
    → ((n : ℕ) → Serves a n (again n))
    → IsProgress a (download_with_restart server again f)
unfolding download_with_restart
download_with_restart-IsProgress a f server again p s s' =
    retry-IsProgress a again (download server f) s' (download-IsProgress a f server p s)

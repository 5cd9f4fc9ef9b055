-- ===== src/Launcher/Disk/Prune.antt =====
-- internal/launcher/supervisor.go, PruneVersions.
use fuelmind.Base.{
  ◌⊎◌, inl, inr, is_empty, some, text_eq_refl, ◌≡◌, refl, ap, Bool, true, false, not, ◌&&◌, List,
  [], ◌∷◌, arith, Text, text_eq, text_eq_iff, any, keep_if,
}
use fuelmind.Launcher.Disk.{
  File, read_pointer, is_pointed, Disk, VersionDir, has_binary, is_kept, is_doomed, prune_entries,
  prune_versions,
}

-- What passes a test that no doomed entry passes is found as before.
any-prune_entries :
    (p doomed : VersionDir → Bool) (stuck : Text → Bool)
    → ((e : VersionDir) → p e ≡ true → doomed e ≡ false)
    → (es : List VersionDir) → any p (prune_entries doomed stuck es) ≡ any p es
unfolding prune_entries
any-prune_entries p doomed stuck h [] = refl
any-prune_entries p doomed stuck h (e ∷ es) =
    ground (arith, h e, any-prune_entries p doomed stuck h es)

kept-not_doomed :
    (d : Disk) (v : Text)
    → is_kept d v ≡ true
    → (e : VersionDir) → (text_eq e.name v && e.has_core) ≡ true
    → is_doomed d e ≡ false
kept-not_doomed d v k e h = ground (arith, ap (is_kept d) ((text_eq_iff e.name v).0 (ground arith)))

-- One of the pointers of the data folder names `v`.
abbrev pub IsNamed : Text → Disk → Type 0
IsNamed v d =
    (read_pointer d.current ≡ some v)
    ⊎ ((read_pointer d.previous ≡ some v) ⊎ (read_pointer d.pending ≡ some v))

is_pointed-named :
    (v : Text) (f : File Text)
    → is_empty v ≡ false
    → read_pointer f ≡ some v
    → is_pointed v f ≡ true
unfolding is_pointed
is_pointed-named v f full e = rw (e, is_pointed) (ground (arith, full, text_eq_refl v))

is_kept-named : (v : Text) (d : Disk) → is_empty v ≡ false → IsNamed v d → is_kept d v ≡ true
unfolding is_kept
is_kept-named v d full (inl e) = ground (arith, is_pointed-named v d.current full e)
is_kept-named v d full (inr (inl e)) = ground (arith, is_pointed-named v d.previous full e)
is_kept-named v d full (inr (inr e)) = ground (arith, is_pointed-named v d.pending full e)

-- Pruning never removes the binary of a version that current.json, previous.json or pending.json
-- names, whichever removals fail on the way.
pub has_binary-prune_versions :
    (stuck : Text → Bool) (d : Disk) (v : Text)
    → is_empty v ≡ false
    → IsNamed v d
    → has_binary v (prune_versions stuck d) ≡ has_binary v d
unfolding has_binary prune_versions
has_binary-prune_versions stuck d v full named =
    any-prune_entries (λ e. text_eq e.name v && e.has_core) (is_doomed d) stuck
      (kept-not_doomed d v (is_kept-named v d full named)) d.versions

prune_entries_exact :
    (doomed : VersionDir → Bool) (stuck : Text → Bool)
    → ((v : Text) → stuck v ≡ false)
    → (es : List VersionDir) → prune_entries doomed stuck es ≡ keep_if (λ e. not (doomed e)) es
unfolding prune_entries
prune_entries_exact doomed stuck h [] = refl
prune_entries_exact doomed stuck h (e ∷ es) =
    ground (arith, h e.name, prune_entries_exact doomed stuck h es)

-- Where every removal succeeds, what is left are the files, the folders of the versions that a
-- pointer names and the unfinished ".tmp-" folders, in their order.
pub prune_versions_exact :
    (stuck : Text → Bool) (d : Disk)
    → ((v : Text) → stuck v ≡ false)
    → (prune_versions stuck d).versions ≡ keep_if (λ e. not (is_doomed d e)) d.versions
unfolding prune_versions
prune_versions_exact stuck d h = prune_entries_exact (is_doomed d) stuck h d.versions

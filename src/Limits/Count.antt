-- ===== src/Limits/Count.antt =====
-- internal/cloudctl/ratelimit.go: how many requests of a sender pass in a window.
use fuelmind.Base.{
  sym, ap, ◌∙◌, All, ℕ, suc, ◌+◌, ◌≡◌, refl, Bool, true, false, not, ◌&&◌, inl, inr, Bool-cases,
  Option, none, some, List, [], ◌∷◌, Text, text_eq, text_eq_iff, text_eq_refl, leb, length, keep_if,
  if◌then◌else◌, arith,
}
use mathlib.Core.Path.{subst}
use fuelmind.Limits.{
  Window, RateLimiter, limiter_max_keys, find_window, set_window, is_live, sweep, count_request,
  is_known, allow,
}

find_window-set_window :
    (k : Text) (c : Window) (cs : List Window)
    → text_eq c.key k ≡ true
    → find_window k (set_window k c cs) ≡ some c
unfolding find_window set_window
find_window-set_window k c [] h = ground arith
find_window-set_window k c (d ∷ ds) h = ground (arith, find_window-set_window k c ds h)

differs : (x j k : Text) → text_eq x j ≡ true → text_eq j k ≡ false → text_eq x k ≡ false
differs x j k h ne = ap (λ t. text_eq t k) ((text_eq_iff x j).0 h) ∙ ne

find_window-set_other :
    (k j : Text) (c : Window) (cs : List Window)
    → text_eq c.key j ≡ true
    → text_eq j k ≡ false
    → find_window k (set_window j c cs) ≡ find_window k cs
unfolding find_window set_window
find_window-set_other k j c [] h ne = ground (arith, differs c.key j k h ne)
find_window-set_other k j c (d ∷ ds) h ne = elim (Bool-cases (text_eq d.key j)) [
  | inl e ↦ rw (e, differs c.key j k h ne, differs d.key j k e ne) refl
  | inr e ↦ ground (arith, e, find_window-set_other k j c ds h ne)
]

find_window-keep_if :
    (k : Text) (p : Window → Bool) (c : Window) (cs : List Window)
    → find_window k cs ≡ some c
    → p c ≡ true
    → find_window k (keep_if p cs) ≡ some c
unfolding find_window
find_window-keep_if k p c [] h e = absurd (ground arith)
find_window-keep_if k p c (d ∷ ds) h e = ground (arith, find_window-keep_if k p c ds)

-- A window that is live survives the sweep.
find_window-sweep :
    (now : ℕ) (k : Text) (l : RateLimiter) (c : Window)
    → find_window k l.seen ≡ some c
    → is_live l.window now c ≡ true
    → find_window k (sweep now l) ≡ some c
unfolding sweep
find_window-sweep now k l c h live =
    ground (arith, find_window-keep_if k (is_live l.window now) c l.seen h live)

allow-live :
    (now : ℕ) (k : Text) (l : RateLimiter) (c : Window)
    → find_window k (sweep now l) ≡ some c
    → is_live l.window now c ≡ true
    → allow now k l ≡ (
      leb (c.n + 1) l.burst,
      record l { seen = set_window k (record c { n = c.n + 1 }) (sweep now l) },
    )
unfolding allow count_request
allow-live now k l c h live = rw (h, allow) (ground (arith, live))

find_window-key :
    (k : Text) (c : Window) (cs : List Window) → find_window k cs ≡ some c → text_eq c.key k ≡ true
unfolding find_window
find_window-key k c [] h = absurd (ground arith)
find_window-key k c (d ∷ ds) h = ground (arith, find_window-key k c ds)

count_request-other :
    (now : ℕ) (k j : Text) (l : RateLimiter) (seen : List Window) (o : Option Window)
    → find_window j seen ≡ o
    → text_eq j k ≡ false
    → find_window k (count_request now j l seen o).1.seen ≡ find_window k seen
unfolding count_request
count_request-other now k j l seen none e ne =
    find_window-set_other k j (record { key = j; start = now; n = 1 }) seen (text_eq_refl j) ne
count_request-other now k j l seen (some d) e ne = elim (Bool-cases (is_live l.window now d)) [
  | inl live ↦
      simp live
        (find_window-set_other k j (record d { n = d.n + 1 }) seen (find_window-key j d seen e) ne)
  | inr old ↦
      simp old (
        find_window-set_other k j (record { key = j; start = now; n = 1 }) seen (text_eq_refl j) ne)
]

allow-other :
    (now : ℕ) (k j : Text) (l : RateLimiter)
    → text_eq j k ≡ false
    → find_window k (allow now j l).1.seen ≡ find_window k (sweep now l)
unfolding allow
allow-other now k j l ne =
    elim (Bool-cases (
      leb limiter_max_keys (length (sweep now l))
      && not (is_known (find_window j (sweep now l))))) [
        | inl full ↦ rw (full, allow) refl
        | inr room ↦ rw (room, allow) (count_request-other now k j l (sweep now l) _ refl ne)
      ]

same_limits-count_request :
    (now : ℕ) (j : Text) (l : RateLimiter) (seen : List Window) (o : Option Window)
    → ((count_request now j l seen o).1.burst ≡ l.burst)
      × ((count_request now j l seen o).1.window ≡ l.window)
unfolding count_request
same_limits-count_request now j l seen none = (refl, refl)
same_limits-count_request now j l seen (some d) = ground arith

same_limits-allow :
    (now : ℕ) (j : Text) (l : RateLimiter)
    → ((allow now j l).1.burst ≡ l.burst) × ((allow now j l).1.window ≡ l.window)
unfolding allow
same_limits-allow now j l =
    elim (Bool-cases (
      leb limiter_max_keys (length (sweep now l))
      && not (is_known (find_window j (sweep now l))))) [
        | inl full ↦ rw (full, allow) (refl, refl)
        | inr room ↦ rw (room, allow) (same_limits-count_request now j l (sweep now l) _)
      ]

pub record Request : Type 0 where
  pub time : ℕ
  pub key : Text

unfoldable pub request_all : List Request → RateLimiter → RateLimiter
request_all [] l = l
request_all (r ∷ rs) l = request_all rs (allow r.time r.key l).1

unfoldable pub count_of : Text → List Request → ℕ
count_of k [] = 0
count_of k (r ∷ rs) = if text_eq r.key k then suc (count_of k rs) else count_of k rs

-- Every request comes while the window is open.
abbrev pub InWindow : ℕ → Window → List Request → Type 0
InWindow w c rs = All (λ r. is_live w r.time c ≡ true) rs

allow-same :
    (now : ℕ) (k j : Text) (l : RateLimiter) (c : Window)
    → text_eq j k ≡ true
    → find_window k (sweep now l) ≡ some c
    → is_live l.window now c ≡ true
    → find_window k (allow now j l).1.seen ≡ some (record c { n = c.n + 1 })
allow-same now k j l c e h live =
    subst (λ i. find_window k (allow now i l).1.seen ≡ some (record c { n = c.n + 1 }))
      (sym ((text_eq_iff j k).0 e))
      (ap (λ p. find_window k p.1.seen) (allow-live now k l c h live)
        ∙ find_window-set_window k (record c { n = c.n + 1 }) (sweep now l)
            (find_window-key k c (sweep now l) h))

request_all-counts :
    (k : Text) (c : Window) (rs : List Request) (l : RateLimiter) (w b m : ℕ)
    → l.window ≡ w
    → l.burst ≡ b
    → find_window k l.seen ≡ some c
    → InWindow w c rs
    → c.n + count_of k rs ≡ m
    → ((request_all rs l).window ≡ w)
      × ((request_all rs l).burst ≡ b)
      × (find_window k (request_all rs l).seen ≡ some (record c { n = m }))
unfolding request_all count_of
request_all-counts k c [] l w b m sw sb h live count =
    (sw, sb, h ∙ ap (λ x. some (record c { n = x })) (omega (arith, count)))
request_all-counts k c (r ∷ rs) l w b m sw sb h live count =
    let limits = same_limits-allow r.time r.key l in
    let now_live : is_live l.window r.time c ≡ true = ap (λ x. is_live x r.time c) sw ∙ live.0 in
    let swept = find_window-sweep r.time k l c h now_live in
    elim (Bool-cases (text_eq r.key k)) [
      | inr ne ↦
          request_all-counts k c rs (allow r.time r.key l).1 w b m (limits.1 ∙ sw) (limits.0 ∙ sb)
            (allow-other r.time k r.key l ne ∙ swept) live.1 (ground arith)
      | inl e ↦
          request_all-counts k (record c { n = c.n + 1 }) rs (allow r.time r.key l).1 w b m
            (limits.1 ∙ sw) (limits.0 ∙ sb) (allow-same r.time k r.key l c e swept now_live) live.1
            (ground arith)
    ]

-- While the window of a sender is open, whatever requests come from that sender and from others, the
-- sender's next request passes exactly if the window, with it, has counted at most `burst` requests
-- of this sender.
pub allow_counts :
    (k : Text) (c : Window) (rs : List Request) (l : RateLimiter) (now : ℕ)
    → find_window k l.seen ≡ some c
    → InWindow l.window c rs
    → is_live l.window now c ≡ true
    → (allow now k (request_all rs l)).0 ≡ leb (c.n + count_of k rs + 1) l.burst
allow_counts k c rs l now h live open_now =
    let after = request_all-counts k c rs l l.window l.burst _ refl refl h live refl in
    let now_live =
      ap (λ x. is_live x now (record c { n = c.n + count_of k rs })) after.0 ∙ open_now in
    ap (λ p. p.0)
      (allow-live now k (request_all rs l) (record c { n = c.n + count_of k rs })
        (find_window-sweep now k (request_all rs l) (record c { n = c.n + count_of k rs }) after.2
          now_live)
        now_live)
    ∙ ap (λ x. leb (c.n + count_of k rs + 1) x) after.1

-- ===== src/Limits/Memory.antt =====
-- internal/cloudctl/ratelimit.go: a flood from many senders does not grow the map without limit.
use fuelmind.Base.{
  ℕ, ◌+◌, ◌≤◌, ◌≡◌, refl, false, not, ◌&&◌, inl, inr, Bool-cases, Option, none, some, List, [], ◌∷◌,
  Text, leb, length, length-keep_if-le, arith,
}
use fuelmind.Limits.{
  Window, RateLimiter, limiter_max_keys, find_window, set_window, is_live, sweep, count_request,
  is_known, allow,
}

length-set_window-le :
    (k : Text) (c : Window) (cs : List Window) → length (set_window k c cs) ≤ length cs + 1
unfolding set_window
length-set_window-le k c [] = omega arith
length-set_window-le k c (d ∷ ds) = ground (arith, length-set_window-le k c ds)

-- Replacing the window of a key that is there does not grow the map.
length-set_window-known :
    (k : Text) (c d : Window) (cs : List Window)
    → find_window k cs ≡ some d
    → length (set_window k c cs) ≡ length cs
unfolding set_window find_window
length-set_window-known k c d [] h = absurd (ground arith)
length-set_window-known k c d (x ∷ xs) h = ground (arith, length-set_window-known k c d xs)

sweep-le : (now : ℕ) (l : RateLimiter) → length (sweep now l) ≤ length l.seen
unfolding sweep
sweep-le now l = ground (arith, length-keep_if-le (is_live l.window now) l.seen)

count_request-known :
    (now : ℕ) (k : Text) (l : RateLimiter) (seen : List Window) (d : Window)
    → find_window k seen ≡ some d
    → length seen ≤ limiter_max_keys
    → length (count_request now k l seen (some d)).1.seen ≤ limiter_max_keys
unfolding count_request
count_request-known now k l seen d h le = elim (Bool-cases (is_live l.window now d)) [
  | inl e ↦ simp e (omega (arith, length-set_window-known k (record d { n = d.n + 1 }) d seen h))
  | inr e ↦
      simp e
        (omega (arith, length-set_window-known k (record { key = k; start = now; n = 1 }) d seen h))
]

admitted-le :
    (now : ℕ) (k : Text) (l : RateLimiter) (seen : List Window) (o : Option Window)
    → find_window k seen ≡ o
    → length seen ≤ limiter_max_keys
    → (leb limiter_max_keys (length seen) && not (is_known o)) ≡ false
    → length (count_request now k l seen o).1.seen ≤ limiter_max_keys
unfolding count_request
admitted-le now k l seen none h le room =
    ground (arith, length-set_window-le k (record { key = k; start = now; n = 1 }) seen)
admitted-le now k l seen (some d) h le room = count_request-known now k l seen d h le

-- The limiter never keeps more than 10000 senders.
pub allow-bounded :
    (now : ℕ) (k : Text) (l : RateLimiter)
    → length l.seen ≤ limiter_max_keys
    → length (allow now k l).1.seen ≤ limiter_max_keys
unfolding allow
allow-bounded now k l le =
    elim (Bool-cases (
      leb limiter_max_keys (length (sweep now l))
      && not (is_known (find_window k (sweep now l))))) [
        | inl full ↦ rw (full, allow) kept
        | inr room ↦ rw (room, allow) (admitted-le now k l (sweep now l) _ refl kept room)
      ]
  where
    kept : length (sweep now l) ≤ limiter_max_keys
    kept = omega (arith, sweep-le now l)

-- ===== src/Limits.antt =====
-- internal/cloudctl/ratelimit.go: the limit on the messages that one sender may send in a window. The
-- map of windows is a list with one entry for each key.
pub mod Count
pub mod Memory
mod Tests
use fuelmind.Base.{
  ℕ, ◌+◌, ◌-◌, ◌≡◌, Bool, true, false, not, ◌&&◌, Option, none, some, List, [], ◌∷◌, ◌++◌, Text,
  text_eq, leb, ltb, length, keep_if, if◌then◌else◌,
}

pub record Window : Type 0 where
  pub key : Text
  pub start : ℕ
  pub n : ℕ

pub record RateLimiter : Type 0 where
  pub burst : ℕ
  pub window : ℕ
  pub seen : List Window

abbrev pub webhook_burst : ℕ
webhook_burst = 10

abbrev pub limiter_max_keys : ℕ
limiter_max_keys = 10000

unfoldable pub new_rate_limiter : ℕ → ℕ → RateLimiter
new_rate_limiter burst window = record { burst = burst; window = window; seen = [] }

unfoldable pub find_window : Text → List Window → Option Window
find_window k [] = none
find_window k (c ∷ cs) = if text_eq c.key k then some c else find_window k cs

-- seen[k] = c
unfoldable pub set_window : Text → Window → List Window → List Window
set_window k c [] = c ∷ []
set_window k c (d ∷ ds) =
    let rest = set_window k c ds in if text_eq d.key k then c ∷ ds else d ∷ rest

abbrev pub is_live : ℕ → ℕ → Window → Bool
is_live w now c = ltb (now - c.start) w

-- The map after the sweep, if it is full.
unfoldable pub sweep : ℕ → RateLimiter → List Window
sweep now l =
    if leb limiter_max_keys (length l.seen) then keep_if (is_live l.window now) l.seen else l.seen

-- The count of a request.
unfoldable pub count_request :
    ℕ → Text → RateLimiter → List Window → Option Window → Bool × RateLimiter
count_request now k l seen none =
    (true, record l { seen = set_window k (record { key = k; start = now; n = 1 }) seen })
count_request now k l seen (some c) =
    if is_live l.window now c
    then (leb (c.n + 1) l.burst, record l { seen = set_window k (record c { n = c.n + 1 }) seen })
    else (true, record l { seen = set_window k (record { key = k; start = now; n = 1 }) seen })

abbrev pub is_known : Option Window → Bool
is_known none = false
is_known (some c) = true

-- allow; the clock does not go back, so now - start is a number.
unfoldable pub allow : ℕ → Text → RateLimiter → Bool × RateLimiter
unfolding sweep count_request find_window
allow now k l =
    let seen = sweep now l in
    if leb limiter_max_keys (length seen) && not (is_known (find_window k seen))
    then (false, record l { seen = seen })
    else count_request now k l seen (find_window k seen)

-- ===== src/Limits/Tests.antt =====
-- Two requests in a minute of one sender, with another in between, where two pass.
use fuelmind.Base.{◌+◌, ◌≡◌, refl, some, List, [], ◌∷◌, codes, text_eq, leb}
use fuelmind.Limits.{Window, RateLimiter, find_window, allow}
use fuelmind.Limits.Count.{Request, request_all, count_of, allow_counts}

abbrev first : Window
first = record { key = codes "+92"; start = 5; n = 1 }

abbrev limiter : RateLimiter
limiter = record { burst = 2; window = 60; seen = first ∷ [] }

abbrev requests : List Request
requests = record { time = 6; key = codes "+1" } ∷ record { time = 7; key = codes "+92" } ∷ []

found : find_window (codes "+92") limiter.seen ≡ some first
unfolding find_window text_eq
found = refl

allow_counts_example :
    (allow 8 (codes "+92") (request_all requests limiter)).0
    ≡ leb (1 + count_of (codes "+92") requests + 1) 2
allow_counts_example =
    allow_counts (codes "+92") first requests limiter 8 found (refl, (refl, tt)) refl

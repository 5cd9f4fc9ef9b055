-- ===== src/Ask/Figures.antt =====
-- internal/llm/router.go: the figures in a reply of the model, and those that it was given.
mod Front
pub mod Shares
pub mod Spoken
use fuelmind.Base.{
  ℕ, zero, suc, ◌+◌, ◌-◌, Bool, true, false, not, ◌&&◌, ◌||◌, Option, none, some, List, [], ◌∷◌,
  ◌++◌, map, Text, codes, text_eq, contains, has_prefix, is_digit, ltb, ◌==◌, length, take, drop,
  any, keep_if, if◌then◌else◌,
}
use mathlib.Core.List.{reverse}
use fuelmind.Ask.{Float, MartContext, ProductRow}

-- The longest run of digits and commas in front.
unfoldable pub digit_run : Text → Text
digit_run [] = []
digit_run (c ∷ s) = let rest = digit_run s in if is_digit c || c == b',' then c ∷ rest else []

unfoldable pub digits_only : Text → Text
digits_only [] = []
digits_only (c ∷ s) = let rest = digits_only s in if is_digit c then c ∷ rest else []

-- (?:\.\d+)?
unfoldable pub fraction : Text → Text
unfolding digits_only
fraction [] = []
fraction (c ∷ s) =
    if c == b'.' then (elim (digits_only s) [ [] ↦ [] | d ∷ ds ↦ c ∷ (d ∷ ds) ]) else []

-- The match of \d[\d,]*(?:\.\d+)? at a text that starts with a digit.
unfoldable pub number_at : Text → Text
unfolding digit_run fraction
number_at s = let run = digit_run s in run ++ fraction (drop (length run) s)

-- reNumber.FindAllString, `k` characters on
unfoldable pub numbers : ℕ → Text → List Text
unfolding number_at
numbers k [] = []
numbers (suc k) (c ∷ s) = numbers k s
numbers zero (c ∷ s) =
    let n = number_at (c ∷ s) in
    let rest = numbers (if is_digit c then length n - 1 else 0) s in
    if is_digit c then n ∷ rest else rest

-- \s
abbrev pub is_blank : ℕ → Bool
is_blank c = c == 32 || c == 9 || c == 10 || c == 12 || c == 13

unfoldable pub blanks : Text → ℕ
blanks [] = 0
blanks (c ∷ s) = let rest = blanks s in if is_blank c then suc rest else 0

abbrev pub starts_with : ℕ → Text → Bool
starts_with x [] = false
starts_with x (c ∷ s) = c == x

-- The length of a match of rePercent at the front, 0 where there is none.
unfoldable pub percent_length : Text → ℕ
unfolding number_at blanks
percent_length [] = 0
percent_length (c ∷ s) =
    let n = number_at (c ∷ s) in
    let behind = drop (length n) (c ∷ s) in
    if is_digit c && starts_with b'%' (drop (blanks behind) behind)
    then length n + blanks behind + 1
    else 0

-- The numbers of rePercent.FindAllStringSubmatch, `k` characters on
unfoldable pub percents : ℕ → Text → List Text
unfolding percent_length number_at
percents k [] = []
percents (suc k) (c ∷ s) = percents k s
percents zero (c ∷ s) =
    let l = percent_length (c ∷ s) in
    let rest = percents (l - 1) s in if ltb 0 l then number_at (c ∷ s) ∷ rest else rest

-- rePercent.ReplaceAllString(s, " "), `k` characters on
unfoldable pub blank_percents : ℕ → Text → Text
unfolding percent_length
blank_percents k [] = []
blank_percents (suc k) (c ∷ s) = blank_percents k s
blank_percents zero (c ∷ s) =
    let l = percent_length (c ∷ s) in
    let rest = blank_percents (l - 1) s in if ltb 0 l then 32 ∷ rest else c ∷ rest

-- \d{4}-\d{2}-\d{2} at the front
abbrev date_shape : Text → Text → Bool
date_shape [] s = true
date_shape (p ∷ ps) [] = false
date_shape (p ∷ ps) (c ∷ s) = (if p == b'd' then is_digit c else c == p) && date_shape ps s

-- reDate.FindAllString, `k` characters on
unfoldable pub dates : ℕ → Text → List Text
dates k [] = []
dates (suc k) (c ∷ s) = dates k s
dates zero (c ∷ s) =
    let found = date_shape (codes "dddd-dd-dd") (c ∷ s) in
    let rest = dates (if found then 9 else 0) s in if found then take 10 (c ∷ s) ∷ rest else rest

-- strings.ReplaceAll(s, d, " ") for a date d, `k` characters on
unfoldable pub blank_date : Text → ℕ → Text → Text
unfolding has_prefix
blank_date d k [] = []
blank_date d (suc k) (c ∷ s) = blank_date d k s
blank_date d zero (c ∷ s) =
    let found = has_prefix (c ∷ s) d in
    let rest = blank_date d (if found then length d - 1 else 0) s in
    if found then 32 ∷ rest else c ∷ rest

-- The loop over the dates of a reply.
unfoldable pub blank_dates : List Text → Text → Text → Text → Text
unfolding blank_date text_eq
blank_dates [] date score_date rest = rest
blank_dates (d ∷ ds) date score_date rest =
    blank_dates ds date score_date
      (if text_eq d date || text_eq d score_date then blank_date d 0 rest else rest)

-- strings.TrimRight(s, c) for one character
unfoldable pub trim_front : ℕ → Text → Text
trim_front x [] = []
trim_front x (c ∷ s) = let rest = trim_front x s in if c == x then rest else c ∷ s

unfoldable pub trim_right : ℕ → Text → Text
unfolding trim_front
trim_right x s = reverse (trim_front x (reverse s))

abbrev pub without_commas : Text → Text
without_commas = keep_if (λ c. not (c == b','))

unfoldable pub canonical : Text → Text
unfolding trim_right
canonical n =
    let m = without_commas n in
    if any (λ c. c == b'.') m then trim_right b'.' (trim_right b'0' m) else m

abbrev pub among : List Text → Text → Bool
among xs t = any (λ x. text_eq x t) xs

-- windowConstants
abbrev pub window_constants : List Text
window_constants = codes "7" ∷ codes "30" ∷ codes "24" ∷ codes "100" ∷ []

module _ (f : Float) where
  open f use {Amount, parse_float, format_float, round, of_int}

  unfoldable pub number_forms : Text → List Text
  unfolding canonical
  number_forms n = elim (parse_float (without_commas n)) [
    | none ↦ canonical n ∷ []
    | some v ↦
        canonical n
        ∷ (canonical (format_float (round v) (some 0))
            ∷ (canonical (format_float v (some 1)) ∷ (canonical (format_float v (some 2)) ∷ [])))
  ]

  -- The forms of all the texts.
  unfoldable pub all_forms : List Text → List Text
  unfolding number_forms
  all_forms [] = []
  all_forms (n ∷ ns) = number_forms n ++ all_forms ns

  unfoldable pub product_values : List (ProductRow Amount) → List Amount
  product_values [] = []
  product_values (p ∷ ps) = p.volume ∷ (p.money ∷ product_values ps)

  unfoldable pub issue_numbers : List Text → List Text
  unfolding numbers
  issue_numbers [] = []
  issue_numbers (i ∷ is) = numbers 0 i ++ issue_numbers is

  unfoldable pub mart_values : MartContext Amount → List Amount
  unfolding product_values
  mart_values c =
      c.revenue_today
      ∷ (c.revenue_yesterday
          ∷ (c.volume_today_liters
              ∷ (c.volume_7d
                  ∷ (c.revenue_7d
                      ∷ (c.credit_outstanding
                          ∷ (of_int c.credit_customers
                              ∷ (of_int c.transactions_today
                                  ∷ (of_int c.overall_score
                                      ∷ (of_int (length c.open_issues)
                                          ∷ (c.margin_today
                                              ∷ (c.margin_pct_today
                                                  ∷ (c.cost_today
                                                      ∷ (c.margin_7d
                                                          ∷ (c.cost_7d
                                                            ∷ (c.revenue_7d_costed
                                                            ∷ (of_int c.costed_days_7d
                                                            ∷ (c.latest_cost_per_liter
                                                            ∷ product_values
                                                            c.top_products)))))))))))))))))

  -- allowedNumbers
  unfoldable pub allowed_numbers : MartContext Amount → List Text
  unfolding all_forms mart_values issue_numbers
  allowed_numbers c =
      all_forms (map (λ v. format_float v none) (mart_values c))
      ++ all_forms (issue_numbers c.open_issues)

  -- The reply without its percentages and the dates of the context.
  unfoldable pub plain_reply : Text → MartContext Amount → Text
  unfolding blank_percents dates blank_dates
  plain_reply reply c =
      let rest = blank_percents 0 reply in blank_dates (dates 0 rest) c.date c.score_date rest

  abbrev pub is_allowed : List Text → Text → Bool
  is_allowed allowed n = among allowed (canonical n)

  abbrev pub is_plain_allowed : List Text → Text → Bool
  is_plain_allowed allowed n = among allowed (canonical n) || among window_constants (canonical n)

  -- ungroundedNumbers
  unfoldable pub ungrounded_numbers : Text → MartContext Amount → List Text
  unfolding allowed_numbers percents plain_reply numbers canonical
  ungrounded_numbers reply c =
      let allowed = allowed_numbers c in
      keep_if (λ n. not (is_allowed allowed n)) (percents 0 reply)
      ++ keep_if (λ n. not (is_plain_allowed allowed n)) (numbers 0 (plain_reply reply c))

-- ===== src/Ask.antt =====
-- internal/llm/router.go: what is known of the station, and how its figures are printed. The regular
-- expressions of the questions, float64 and its printing are arguments.
pub mod Figures
pub mod Prompt
pub mod Route
mod Tests
use fuelmind.Base.{
  ℕ, zero, suc, ◌+◌, ◌-◌, ◌%◌, ◌/◌, Bool, true, false, not, ◌&&◌, ◌||◌, Option, none, some, List,
  [], ◌∷◌, ◌++◌, Text, codes, text_eq, to_lower, contains, ltb, ◌==◌, length, if◌then◌else◌,
}

-- float64 with its parsing and printing; a precision of none is the shortest that reads back.
pub record Float : Type 1 where
  pub Amount : Type 0
  pub parse_float : Text → Option Amount
  pub format_float : Amount → Option ℕ → Text
  pub round : Amount → Amount
  pub abs : Amount → Amount
  pub is_negative : Amount → Bool
  pub of_int : ℕ → Amount

pub record ProductRow (A : Type 0) : Type 0 where
  pub code : Text
  pub volume : A
  pub money : A

pub record MartContext (A : Type 0) : Type 0 where
  pub date : Text
  pub revenue_today : A
  pub revenue_yesterday : A
  pub volume_today_liters : A
  pub transactions_today : ℕ
  pub volume_7d : A
  pub revenue_7d : A
  pub top_products : List (ProductRow A)
  pub credit_outstanding : A
  pub credit_customers : ℕ
  pub overall_score : ℕ
  pub score_date : Text
  pub open_issues : List Text
  pub margin_today : A
  pub margin_pct_today : A
  pub cost_today : A
  pub have_cost_today : Bool
  pub margin_7d : A
  pub cost_7d : A
  pub revenue_7d_costed : A
  pub costed_days_7d : ℕ
  pub have_cost_7d : Bool
  pub latest_cost_per_liter : A
  pub latest_cost_product : Text
  pub latest_cost_from : Text

-- s[:i] and s[i:] at the first dot; without one, all of s and nothing
unfoldable pub before_dot : Text → Text
before_dot [] = []
before_dot (c ∷ s) = let rest = before_dot s in if c == b'.' then [] else c ∷ rest

unfoldable pub from_dot : Text → Text
from_dot [] = []
from_dot (c ∷ s) = let rest = from_dot s in if c == b'.' then c ∷ s else rest

-- The loop of commas behind its first digit: a comma stands where a multiple of three digits is left.
unfoldable pub group_rest : Text → Text
group_rest [] = []
group_rest (c ∷ s) =
    let rest = group_rest s in if length (c ∷ s) % 3 == 0 then b',' ∷ (c ∷ rest) else c ∷ rest

unfoldable pub group_digits : Text → Text
unfolding group_rest
group_digits [] = []
group_digits (c ∷ s) = c ∷ group_rest s

module _ (f : Float) where
  open f use {Amount, format_float, abs, is_negative}

  unfoldable pub commas : Amount → ℕ → Text
  unfolding before_dot from_dot group_digits
  commas v dec =
      let s = format_float (abs v) (some dec) in
      let digits = group_digits (before_dot s) ++ from_dot s in
      if is_negative v then b'-' ∷ digits else digits

  unfoldable pub pkr : Amount → Text
  unfolding commas
  pkr v = codes "PKR " ++ commas v 2

  unfoldable pub liters : Amount → Text
  unfolding commas
  liters v = commas v 2 ++ codes " L"

-- productCode
unfoldable pub product_code : Text → Text
unfolding contains to_lower
product_code match =
    let m = to_lower match in
    if contains m (codes "95") || contains m (codes "super") || contains m (codes "octane")
    then codes "PETROL_95"
    else if contains m (codes "92") || contains m (codes "pmg")
    then codes "PETROL_92"
    else codes "DIESEL"

unfoldable pub display_product : Text → Text
unfolding text_eq
display_product code =
    if text_eq code (codes "PETROL_92")
    then codes "Petrol 92"
    else if text_eq code (codes "PETROL_95")
    then codes "Petrol 95"
    else codes "Diesel"

-- %d, where the fuel is more than the number.
unfoldable pub decimal_digits : ℕ → ℕ → Text
decimal_digits zero n = []
decimal_digits (suc fuel) n =
    let front = decimal_digits fuel (n / 10) in
    if ltb n 10 then (b'0' + n) ∷ [] else front ++ (b'0' + n % 10) ∷ []

unfoldable pub decimal : ℕ → Text
unfolding decimal_digits
decimal n = decimal_digits (n + 1) n

-- ===== src/Score.antt =====
-- internal/mart/score.go: the score of a day. The counts that the queries return are arguments, and of
-- an issue its category, severity and code are kept.
pub mod Bounds
mod Tests
use fuelmind.Base.{
  ℕ, ◌+◌, ◌*◌, ◌/◌, Bool, true, false, List, [], ◌∷◌, ◌++◌, Text, codes, ltb, ◌==◌, if◌then◌else◌,
}

pub data Severity : Type 0 where
  info : Severity
  warn : Severity
  alert : Severity

pub record Issue : Type 0 where
  pub category : Text
  pub severity : Severity
  pub code : Text

-- What the queries of a day return; `low_revenue` is the test revenue < 1000 of a float64.
pub record Day : Type 0 where
  pub tx_count : ℕ
  pub low_revenue : Bool
  pub high_credit : ℕ
  pub unresolved : ℕ
  pub mismatched : ℕ
  pub negative : ℕ

pub record Score : Type 0 where
  pub sales : ℕ
  pub inventory : ℕ
  pub cash : ℕ
  pub credit : ℕ
  pub data_quality : ℕ
  pub operations : ℕ
  pub overall : ℕ
  pub issues : List Issue

abbrev issue : Text → Severity → Text → Issue
issue category severity code = record { category = category; severity = severity; code = code }

abbrev pub w_sales : ℕ
w_sales = 25

abbrev pub w_credit : ℕ
w_credit = 15

abbrev pub w_data_quality : ℕ
w_data_quality = 15

abbrev pub w_operations : ℕ
w_operations = 15

abbrev pub w_measured : ℕ
w_measured = w_sales + w_credit + w_data_quality + w_operations

unfoldable pub sales_score : Day → ℕ
sales_score d =
    if d.tx_count == 0
    then 50
    else if ltb d.tx_count 10
    then 80
    else if d.low_revenue
    then 70
    else 100

unfoldable pub sales_issues : Day → List Issue
sales_issues d =
    if d.tx_count == 0
    then issue (codes "sales") warn (codes "no_transactions") ∷ []
    else if ltb d.tx_count 10
    then issue (codes "sales") info (codes "low_transaction_count") ∷ []
    else if d.low_revenue
    then issue (codes "sales") info (codes "low_revenue") ∷ []
    else []

unfoldable pub credit_score : Day → ℕ
credit_score d = if ltb 0 d.high_credit then 60 else 100

unfoldable pub credit_issues : Day → List Issue
credit_issues d =
    if ltb 0 d.high_credit
    then issue (codes "credit") alert (codes "high_credit_outstanding") ∷ []
    else []

-- The quality behind the rows that could not be read.
abbrev readable : Day → ℕ
readable d = if ltb 0 d.unresolved then 70 else 100

unfoldable pub data_quality_score : Day → ℕ
data_quality_score d =
    if ltb 0 d.mismatched then (if ltb 80 (readable d) then 80 else readable d) else readable d

unfoldable pub data_issues : Day → List Issue
data_issues d =
    (if ltb 0 d.unresolved then issue (codes "data") warn (codes "unnormalized_rows") ∷ [] else [])
    ++ (if ltb 0 d.mismatched then issue (codes "data") warn (codes "total_mismatch") ∷ [] else [])
    ++ (if ltb 0 d.negative then issue (codes "data") info (codes "negative_quantity") ∷ [] else [])

unfoldable pub operations_score : Day → ℕ
operations_score d = if ltb (data_quality_score d) 100 then 90 else 100

-- computeScore
unfoldable pub compute_score : Day → Score
unfolding sales_score sales_issues credit_score credit_issues data_quality_score data_issues
    operations_score
compute_score d = record {
  sales = sales_score d;
  inventory = 100;
  cash = 100;
  credit = credit_score d;
  data_quality = data_quality_score d;
  operations = operations_score d;
  overall =
      (sales_score d * w_sales
        + credit_score d * w_credit
        + data_quality_score d * w_data_quality
        + operations_score d * w_operations)
      / w_measured;
  issues = sales_issues d ++ (credit_issues d ++ data_issues d);
}

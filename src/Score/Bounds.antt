-- ===== src/Score/Bounds.antt =====
-- internal/mart/score.go, computeScore: the range of the score, and what lowers it.
use fuelmind.Base.{ℕ, ◌+◌, ◌*◌, ◌/◌, ◌≤◌, ◌≡◌, ◌↔◌, false, arith}
use fuelmind.Score.{
  Day, compute_score, sales_score, credit_score, data_quality_score, operations_score,
}

-- A day with at least ten sales and 1000 of revenue, no high credit, and rows that are read and agree.
pub record IsFlawless (d : Day) : Type 0 where
  pub busy : 10 ≤ d.tx_count
  pub earned : d.low_revenue ≡ false
  pub paid : d.high_credit ≡ 0
  pub read : d.unresolved ≡ 0
  pub agreed : d.mismatched ≡ 0

sales_bounds : (d : Day) → (50 ≤ sales_score d) × (sales_score d ≤ 100)
unfolding sales_score
sales_bounds d = ground arith

sales_full : (d : Day) → (sales_score d ≡ 100) ↔ ((10 ≤ d.tx_count) × (d.low_revenue ≡ false))
unfolding sales_score
sales_full d = (λ h. ground arith, λ h. ground arith)

credit_values : (d : Day) → (60 ≤ credit_score d) × (credit_score d ≤ 100)
unfolding credit_score
credit_values d = ground arith

credit_full : (d : Day) → (credit_score d ≡ 100) ↔ (d.high_credit ≡ 0)
unfolding credit_score
credit_full d = (λ h. ground arith, λ h. ground arith)

quality_values : (d : Day) → (70 ≤ data_quality_score d) × (data_quality_score d ≤ 100)
unfolding data_quality_score
quality_values d = ground arith

quality_full : (d : Day) → (data_quality_score d ≡ 100) ↔ ((d.unresolved ≡ 0) × (d.mismatched ≡ 0))
unfolding data_quality_score
quality_full d = (λ h. ground arith, λ h. ground arith)

operations_values : (d : Day) → (90 ≤ operations_score d) × (operations_score d ≤ 100)
unfolding operations_score
operations_values d = ground arith

operations_full : (d : Day) → data_quality_score d ≡ 100 → operations_score d ≡ 100
unfolding operations_score
operations_full d h = ground arith

weighted_full :
    (s c q o : ℕ)
    → s ≤ 100
    → c ≤ 100
    → q ≤ 100
    → o ≤ 100
    → (s * 25 + c * 15 + q * 15 + o * 15) / 70 ≡ 100
    → (s ≡ 100) × (c ≡ 100) × (q ≡ 100)
weighted_full s c q o hs hc hq ho e = (omega arith, omega arith, omega arith)

-- The overall score lies between 65 and 100, and it is 100 exactly on a day without a flaw.
pub compute_score_full :
    (d : Day)
    → (65 ≤ (compute_score d).overall)
      × ((compute_score d).overall ≤ 100)
      × (((compute_score d).overall ≡ 100) ↔ IsFlawless d)
unfolding compute_score
compute_score_full d =
    let s = sales_bounds d in
    let c = credit_values d in
    let q = quality_values d in
    let o = operations_values d in
    (
      omega arith,
      omega arith,
      (
        λ h.
            let (a, b, e) =
              weighted_full (sales_score d) (credit_score d) (data_quality_score d)
                (operations_score d) s.1 c.1 q.1 o.1 h in
            let sales = (sales_full d).0 a in
            let quality = (quality_full d).0 e in
            record {
              busy = sales.0;
              earned = sales.1;
              paid = (credit_full d).0 b;
              read = quality.0;
              agreed = quality.1;
            },
        λ h.
            let a = (sales_full d).1 (h.busy, h.earned) in
            let b = (credit_full d).1 h.paid in
            let e = (quality_full d).1 (h.read, h.agreed) in
            let f = operations_full d e in omega arith,
      ),
    )

same_sales :
    (d e : Day)
    → e.tx_count ≡ d.tx_count
    → e.low_revenue ≡ d.low_revenue
    → sales_score e ≡ sales_score d
unfolding sales_score
same_sales d e t r = ground arith

credit_falls : (d e : Day) → d.high_credit ≤ e.high_credit → credit_score e ≤ credit_score d
unfolding credit_score
credit_falls d e c = ground arith

quality_falls :
    (d e : Day)
    → d.unresolved ≤ e.unresolved
    → d.mismatched ≤ e.mismatched
    → data_quality_score e ≤ data_quality_score d
unfolding data_quality_score
quality_falls d e u m = ground arith

operations_fall :
    (d e : Day)
    → data_quality_score e ≤ data_quality_score d
    → operations_score e ≤ operations_score d
unfolding operations_score
operations_fall d e q = ground arith

-- A problem of the data or of credit more never raises the score.
pub compute_score_falls :
    (d e : Day)
    → e.tx_count ≡ d.tx_count
    → e.low_revenue ≡ d.low_revenue
    → d.high_credit ≤ e.high_credit
    → d.unresolved ≤ e.unresolved
    → d.mismatched ≤ e.mismatched
    → (compute_score e).overall ≤ (compute_score d).overall
unfolding compute_score
compute_score_falls d e t r c u m =
    let sales : sales_score e ≡ sales_score d = same_sales d e t r in
    let credit = credit_falls d e c in
    let quality = quality_falls d e u m in
    let operations = operations_fall d e quality in omega arith

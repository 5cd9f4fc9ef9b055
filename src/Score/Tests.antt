-- ===== src/Score/Tests.antt =====
-- A quiet day and one with an unreadable row.
use fuelmind.Base.{◌≤◌, false, ◌≡◌, ◌↔◌}
use fuelmind.Score.{Day, compute_score}
use fuelmind.Score.Bounds.{IsFlawless, compute_score_full}

abbrev good : Day
good = record {
  tx_count = 40;
  low_revenue = false;
  high_credit = 0;
  unresolved = 0;
  mismatched = 0;
  negative = 1;
}

abbrev bad : Day
bad = record good { unresolved = 2; high_credit = 1 }

compute_score_full_example :
    (65 ≤ (compute_score bad).overall)
    × ((compute_score bad).overall ≤ 100)
    × (((compute_score bad).overall ≡ 100) ↔ IsFlawless bad)
compute_score_full_example = compute_score_full bad

-- ===== src/Version/Rollout.antt =====
-- internal/version/version.go, RolloutBucket and InRollout.
use fuelmind.Base.{ℕ, ◌≤◌, ◌<◌, ◌≡◌, ◌↔◌, true, List, arith, Text}
use fuelmind.Version.{rollout_bucket, in_rollout}

module _ (sha256 : Text → List ℕ) where
  -- A station is in a rollout exactly when its bucket, a number below 100, is below the percentage.
  pub in_rollout_iff :
      (station : Text) (pct : ℕ)
      → (rollout_bucket sha256 station < 100)
        × ((in_rollout sha256 station pct ≡ true) ↔ (rollout_bucket sha256 station < pct))
  unfolding in_rollout
  in_rollout_iff station pct = (ground arith, (ground arith, ground arith))

  -- Raising the percentage never takes a station out of a rollout.
  pub in_rollout_mono :
      (station : Text) (pct pct' : ℕ)
      → pct ≤ pct'
      → in_rollout sha256 station pct ≡ true
      → in_rollout sha256 station pct' ≡ true
  unfolding in_rollout
  in_rollout_mono station pct pct' le h = ground arith

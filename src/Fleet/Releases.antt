-- ===== src/Fleet/Releases.antt =====
-- internal/cloudctl/cloudctl.go, bestRelease: which release a station is offered.
pub mod Best
use fuelmind.Base.{
  ℕ, Bool, true, false, not, ◌||◌, Option, none, some, List, [], ◌∷◌, Text, codes, text_eq,
  is_empty, to_lower, leb, if◌then◌else◌,
}
use fuelmind.Version.{compare_versions, in_rollout}
use fuelmind.Update.{is_newer}
use fuelmind.Fleet.{
  Server, UpdateRelease, Reply, refused, no_content, release, Auth, granted, denied, station_for,
}

-- tierOrder; a tier that is not in the map has the value 0.
unfoldable pub tier_order : Text → ℕ
unfolding text_eq
tier_order t =
    if text_eq t (codes "basic")
    then 1
    else if text_eq t (codes "standard")
    then 2
    else if text_eq t (codes "enhanced")
    then 3
    else if text_eq t (codes "pro")
    then 4
    else 0

unfoldable pub hardware_at_least : Text → Text → Bool
unfolding tier_order to_lower
hardware_at_least have need = leb (tier_order (to_lower need)) (tier_order (to_lower have))

-- The release that is kept when `r` is a candidate.
unfoldable pub better : UpdateRelease → Option UpdateRelease → UpdateRelease
unfolding compare_versions
better r none = r
better r (some best) = if is_newer (compare_versions r.version best.version) then r else best

-- `sha256` is the digest of the standard library, and the others are the station and what it runs.
module _ (sha256 : Text → List ℕ) (station_id current hardware_tier : Text) where
  -- What the loop of bestRelease does not skip.
  unfoldable pub is_candidate : UpdateRelease → Bool
  unfolding hardware_at_least in_rollout compare_versions
  is_candidate r = not (
      not (is_newer (compare_versions r.version current))
      || not (hardware_at_least hardware_tier r.min_hardware_tier)
      || not (in_rollout sha256 station_id r.rollout_pct))

  -- The loop, with the best so far.
  unfoldable pub best_of : List UpdateRelease → Option UpdateRelease → Option UpdateRelease
  unfolding is_candidate better
  best_of [] best = best
  best_of (r ∷ rs) best = best_of rs (if not (is_candidate r) then best else some (better r best))

  -- bestRelease
  unfoldable pub best_release : Server → Option UpdateRelease
  unfolding best_of
  best_release s = best_of s.releases none

-- handleUpdatesCheck behind the test of the method
unfoldable pub handle_updates_check : (Text → List ℕ) → Text → Text → Text → Text → Server → Reply
unfolding station_for best_release
handle_updates_check sha256 authorization station_id current hardware_tier s =
    if is_empty station_id || is_empty current
    then refused 400
    else elim (station_for authorization station_id s) [
      | denied code ↦ refused code
      | granted st ↦ elim (best_release sha256 station_id current hardware_tier s) [
        | none ↦ no_content
        | some r ↦ release r
      ]
    ]

-- ===== src/Fleet/Releases/Best.antt =====
-- internal/cloudctl/cloudctl.go, bestRelease: the offered release against all the others, and against
-- what the agent of internal/update takes up.
use fuelmind.Base.{
  ℕ, ◌<◌, ◌≤◌, ◌≡◌, ◌≢◌, refl, Bool, true, false, not, ◌||◌, Option, none, some, List, [], ◌∷◌, ◌⊎◌,
  inl, inr, arith, Text, All, Contains, Bool-cases, Ordering, to_lower, byte_len,
}
use mathlib.Core.Path.{subst, sym}
use fuelmind.Version.{compare_versions, rollout_bucket, valid}
use fuelmind.Version.Order.{flip-compare_versions, compare_versions_self}
use fuelmind.Version.Rollout.{in_rollout_iff}
use fuelmind.Version.Numeric.{IsRelease, compare_versions_trans}
use fuelmind.Launcher.Disk.{Disk, is_quarantined}
use fuelmind.Update.{Release, Sha256, Config, is_newer, check, manifest, offered, screen}
use fuelmind.Fleet.{Server, UpdateRelease}
use fuelmind.Fleet.Releases.{
  is_candidate, better, best_of, best_release, tier_order, hardware_at_least,
}

-- No newer than what is chosen.
abbrev NotAbove : UpdateRelease → Option UpdateRelease → Type 0
NotAbove r none = ⊥
NotAbove r (some b) = (compare_versions r.version b.version ≢ Ordering.gt) × IsRelease b.version

abbrev IsKnown : Option UpdateRelease → Type 0
IsKnown none = Unit {0}
IsKnown (some c) = IsRelease c.version

abbrev pub AreReleases : List UpdateRelease → Type 0
AreReleases = All (λ r. IsRelease r.version)

not_skipped :
    (a b c : Bool) → not (not a || not b || not c) ≡ true → (a ≡ true) × (b ≡ true) × (c ≡ true)
not_skipped true true true h = (refl, refl, refl)
not_skipped true true false h = absurd (ground arith)
not_skipped true false c h = absurd (ground arith)
not_skipped false b c h = absurd (ground arith)

newer_gt : (o : Ordering) → is_newer o ≡ true → o ≡ Ordering.gt
newer_gt o h = ground arith

hardware_le :
    (have need : Text)
    → hardware_at_least have need ≡ true
    → tier_order (to_lower need) ≤ tier_order (to_lower have)
unfolding hardware_at_least
hardware_le have need h = ground arith

le_hardware :
    (have need : Text)
    → tier_order (to_lower need) ≤ tier_order (to_lower have)
    → hardware_at_least have need ≡ true
unfolding hardware_at_least
le_hardware have need h = ground arith

not_newer :
    (a b : Text) → is_newer (compare_versions a b) ≡ false → compare_versions a b ≢ Ordering.gt
not_newer a b e = ground arith

newer_above :
    (a b : Text) → is_newer (compare_versions a b) ≡ true → compare_versions b a ≢ Ordering.gt
newer_above a b e = ground (arith, flip-compare_versions a b)

below_self : (a : Text) → compare_versions a a ≢ Ordering.gt
below_self a = ground (arith, compare_versions_self a)

NotAbove-trans :
    (a b : UpdateRelease) (o : Option UpdateRelease)
    → IsRelease a.version
    → IsRelease b.version
    → compare_versions a.version b.version ≢ Ordering.gt
    → NotAbove b o
    → NotAbove a o
NotAbove-trans a b none ra rb le h = h
NotAbove-trans a b (some c) ra rb le h =
    (compare_versions_trans a.version b.version c.version ra rb h.1 le h.0, h.1)

better-IsRelease :
    (r : UpdateRelease) (best : Option UpdateRelease)
    → IsRelease r.version
    → IsKnown best
    → IsRelease (better r best).version
unfolding better
better-IsRelease r none rr k = rr
better-IsRelease r (some c) rr k =
    elim (Bool-cases (is_newer (compare_versions r.version c.version))) [
      | inl e ↦ rw e rr
      | inr e ↦ rw e k
    ]

better-above :
    (r : UpdateRelease) (best : Option UpdateRelease)
    → compare_versions r.version (better r best).version ≢ Ordering.gt
unfolding better
better-above r none = below_self r.version
better-above r (some c) = elim (Bool-cases (is_newer (compare_versions r.version c.version))) [
  | inl e ↦ rw e (below_self r.version)
  | inr e ↦ rw e (not_newer r.version c.version e)
]

better-above_best :
    (r c : UpdateRelease) → compare_versions c.version (better r (some c)).version ≢ Ordering.gt
unfolding better
better-above_best r c = elim (Bool-cases (is_newer (compare_versions r.version c.version))) [
  | inl e ↦ rw e (newer_above r.version c.version e)
  | inr e ↦ rw e (below_self c.version)
]

module _ (sha256 : Text → List ℕ) (station_id current hardware_tier : Text) where
  -- What a station may be offered: newer than what it runs, for its hardware, and rolled out to it.
  pub record IsOffered (r : UpdateRelease) : Type 0 where
    pub newer : compare_versions r.version current ≡ Ordering.gt
    pub hardware : tier_order (to_lower r.min_hardware_tier) ≤ tier_order (to_lower hardware_tier)
    pub rolled_out : rollout_bucket sha256 station_id < r.rollout_pct

  abbrev candidate : UpdateRelease → Bool
  candidate = is_candidate sha256 station_id current hardware_tier

  abbrev loop : List UpdateRelease → Option UpdateRelease → Option UpdateRelease
  loop = best_of sha256 station_id current hardware_tier

  candidate-IsOffered : (r : UpdateRelease) → candidate r ≡ true → IsOffered r
  unfolding is_candidate
  candidate-IsOffered r e =
      let (n, h, o) = not_skipped _ _ _ e in
      record {
        newer = newer_gt _ n;
        hardware = hardware_le hardware_tier r.min_hardware_tier h;
        rolled_out = ((in_rollout_iff sha256 station_id r.rollout_pct).1).0 o;
      }

  IsOffered-candidate : (r : UpdateRelease) → IsOffered r → candidate r ≡ true
  unfolding is_candidate
  IsOffered-candidate r h =
      rw
        (
          h.newer,
          le_hardware hardware_tier r.min_hardware_tier h.hardware,
          ((in_rollout_iff sha256 station_id r.rollout_pct).1).1 h.rolled_out,
        )
        refl

  best_kept :
      (rs : List UpdateRelease) (c : UpdateRelease)
      → IsRelease c.version
      → AreReleases rs
      → NotAbove c (loop rs (some c))
  unfolding best_of
  best_kept [] c rc h = (below_self c.version, rc)
  best_kept (r ∷ rs) c rc h = elim (Bool-cases (candidate r)) [
    | inr e ↦ rw e (best_kept rs c rc h.1)
    | inl e ↦ rw e (
        NotAbove-trans c (better r (some c)) _ rc (better-IsRelease r (some c) h.0 rc)
          (better-above_best r c)
          (best_kept rs (better r (some c)) (better-IsRelease r (some c) h.0 rc) h.1))
  ]

  all_below_best :
      (rs : List UpdateRelease) (best : Option UpdateRelease)
      → IsKnown best
      → AreReleases rs
      → (x : UpdateRelease) → Contains x rs
      → candidate x ≡ true
      → NotAbove x (loop rs best)
  unfolding best_of
  all_below_best [] best k h x m f = absurd m
  all_below_best (r ∷ rs) best k h x (inl q) f =
      let k' = better-IsRelease r best h.0 k in
      let e : candidate r ≡ true = subst (λ y. candidate y ≡ true) q f in
      subst (λ y. NotAbove y (loop (r ∷ rs) best)) (sym q)
        (rw e (
          NotAbove-trans r (better r best) _ h.0 k' (better-above r best)
            (best_kept rs (better r best) k' h.1)))
  all_below_best (r ∷ rs) best k h x (inr m) f = elim (Bool-cases (candidate r)) [
    | inr e ↦ rw e (all_below_best rs best k h.1 x m f)
    | inl e ↦
        rw e (all_below_best rs (some (better r best)) (better-IsRelease r best h.0 k) h.1 x m f)
  ]

  -- Where the result comes from.
  abbrev Comes : List UpdateRelease → Option UpdateRelease → Option UpdateRelease → Type 0
  Comes rs best none = best ≡ none
  Comes rs best (some b) = (Contains b rs × (candidate b ≡ true)) ⊎ (best ≡ some b)

  Comes-skip :
      (r : UpdateRelease) (rs : List UpdateRelease) (best o : Option UpdateRelease)
      → Comes rs best o
      → Comes (r ∷ rs) best o
  Comes-skip r rs best none h = h
  Comes-skip r rs best (some b) (inl (m, e)) = inl (inr m, e)
  Comes-skip r rs best (some b) (inr e) = inr e

  Comes-take :
      (r : UpdateRelease) (rs : List UpdateRelease) (best o : Option UpdateRelease)
      → candidate r ≡ true
      → Comes rs (some (better r best)) o
      → Comes (r ∷ rs) best o
  unfolding better
  Comes-take r rs best none e h = absurd (ground arith)
  Comes-take r rs best (some b) e (inl (m, f)) = inl (inr m, f)
  Comes-take r rs none (some b) e (inr f) = inl (inl (ground arith), ground arith)
  Comes-take r rs (some c) (some b) e (inr f) =
      elim (Bool-cases (is_newer (compare_versions r.version c.version))) [
        | inl n ↦ inl (inl (ground (arith)), ground arith)
        | inr n ↦ inr (ground arith)
      ]

  loop-Comes :
      (rs : List UpdateRelease) (best : Option UpdateRelease) → Comes rs best (loop rs best)
  unfolding best_of
  loop-Comes [] none = refl
  loop-Comes [] (some b) = inr refl
  loop-Comes (r ∷ rs) best = elim (Bool-cases (candidate r)) [
    | inr e ↦ rw e (Comes-skip r rs best _ (loop-Comes rs best))
    | inl e ↦ rw e (Comes-take r rs best _ e (loop-Comes rs (some (better r best))))
  ]

  -- What the answer says of all the releases.
  abbrev pub IsChosen : List UpdateRelease → Option UpdateRelease → Type 0
  IsChosen rs none = (r : UpdateRelease) → Contains r rs → ¬ IsOffered r
  IsChosen rs (some b) =
      Contains b rs
      × IsOffered b
      × ((r : UpdateRelease)
          → Contains r rs
          → IsOffered r
          → compare_versions r.version b.version ≢ Ordering.gt)

  choose :
      (rs : List UpdateRelease) (o : Option UpdateRelease)
      → ((x : UpdateRelease) → Contains x rs → candidate x ≡ true → NotAbove x o)
      → Comes rs none o
      → IsChosen rs o
  choose rs none h k = λ r m f. h r m (IsOffered-candidate r f)
  choose rs (some b) h (inl (m, e)) =
      (m, candidate-IsOffered b e, λ r n f. (h r n (IsOffered-candidate r f)).0)
  choose rs (some b) h (inr e) = absurd (ground arith)

  -- A station is offered a release that is newer than what it runs, made for its hardware and rolled
  -- out to it, such that no other release of that kind is newer; where it is offered none, there is no
  -- release of that kind. The published versions are dotted numbers with no pre-release.
  pub best_release-IsChosen :
      (s : Server)
      → AreReleases s.releases
      → IsChosen s.releases (best_release sha256 station_id current hardware_tier s)
  unfolding best_release
  best_release-IsChosen s h =
      choose s.releases (loop s.releases none) (all_below_best s.releases none tt h)
        (loop-Comes s.releases none)

-- The manifest as the agent reads it.
abbrev pub as_manifest : UpdateRelease → Release
as_manifest r = record {
  version = r.version;
  artifact_url = r.artifact_url;
  checksum_sha256 = r.checksum_sha256;
  rollout_pct = r.rollout_pct;
}

-- What the control plane offers to a station, its agent takes up: where all versions that are published
-- are numbers with dots and without a pre-release, and the one that is offered is valid and not
-- quarantined and its checksum has 64 bytes, none of the agent's own tests turns the release down.
pub best_release-check :
    (h : Sha256) (c : Config) (d : Disk) (hardware_tier : Text) (s : Server) (r : UpdateRelease)
    → AreReleases s.releases
    → best_release h.bytes c.station_id c.version hardware_tier s ≡ some r
    → valid r.version ≡ true
    → is_quarantined r.version d.failed ≡ false
    → byte_len r.checksum_sha256 ≡ 64
    → check h c d (manifest (as_manifest r)) ≡ offered (as_manifest r)
unfolding check screen
best_release-check h c d hardware_tier s r rel e v q l =
    let (m, o, best) =
      subst (IsChosen h.bytes c.station_id c.version hardware_tier s.releases) e
        (best_release-IsChosen h.bytes c.station_id c.version hardware_tier s rel) in
    simp (v, o.newer, q, ((in_rollout_iff h.bytes c.station_id r.rollout_pct).1).1 o.rolled_out, l)
      refl

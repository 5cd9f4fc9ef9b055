-- ===== src/Version/Tests.antt =====
-- The examples of version.go's comments and tests, and the theorems at concrete versions.
use fuelmind.Base.{ℕ, ◌≡◌, ◌≢◌, refl, true, false, List, [], ◌∷◌, Text, codes, Ordering}
use fuelmind.Version.{valid, compare_versions, pos, split, before, stripped, after, atoi, or_zero}
use fuelmind.Version.Numeric.{IsRelease, lt-ne-gt, compare_versions_trans}

valid_one : valid (codes "1.0.0-pilot") ≡ true
unfolding valid
valid_one = refl

valid_dots : valid (codes "1..0") ≡ false
unfolding valid
valid_dots = refl

valid_path : valid (codes "../x") ≡ false
unfolding valid
valid_path = refl

compare_minor : compare_versions (codes "1.10.0") (codes "v1.9") ≡ Ordering.gt
unfolding compare_versions
compare_minor = refl

-- Numeric parts are compared with others as text, which closes a cycle: 9 < 10 < 1a < 9.
cycle_low : compare_versions (codes "9") (codes "10") ≡ Ordering.lt
unfolding compare_versions
cycle_low = refl

cycle_mid : compare_versions (codes "10") (codes "1a") ≡ Ordering.lt
unfolding compare_versions
cycle_mid = refl

cycle_high : compare_versions (codes "1a") (codes "9") ≡ Ordering.lt
unfolding compare_versions
cycle_high = refl

-- A dotted pre-release is compared as one text: rc.10 before rc.9.
prerelease_text : compare_versions (codes "1.0-rc.10") (codes "1.0-rc.9") ≡ Ordering.lt
unfolding compare_versions
prerelease_text = refl

IsRelease-one : IsRelease (codes "1.2")
unfolding split before stripped after atoi or_zero
IsRelease-one = record { parts = ((pos 1, refl), ((pos 2, refl), tt)); no_pre = refl }

IsRelease-two : IsRelease (codes "1.10")
unfolding split before stripped after atoi or_zero
IsRelease-two = record { parts = ((pos 1, refl), ((pos 10, refl), tt)); no_pre = refl }

IsRelease-mid : IsRelease (codes "1.3")
unfolding split before stripped after atoi or_zero
IsRelease-mid = record { parts = ((pos 1, refl), ((pos 3, refl), tt)); no_pre = refl }

older : compare_versions (codes "1.2") (codes "1.3") ≡ Ordering.lt
unfolding compare_versions
older = refl

newer : compare_versions (codes "1.3") (codes "1.10") ≡ Ordering.lt
unfolding compare_versions
newer = refl

compare_versions_trans_example : compare_versions (codes "1.2") (codes "1.10") ≢ Ordering.gt
compare_versions_trans_example =
    compare_versions_trans (codes "1.2") (codes "1.3") (codes "1.10") IsRelease-one IsRelease-mid
      IsRelease-two (lt-ne-gt older) (lt-ne-gt newer)

-- A digest whose first bytes are 0, 0, 0, 42.
abbrev digest : Text → List ℕ
digest s = 0 ∷ 0 ∷ 0 ∷ 42 ∷ []

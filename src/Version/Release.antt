-- ===== src/Version/Release.antt =====
-- internal/version/version.go, Compare: a release against its own pre-releases.
use fuelmind.Base.{
  ℕ, ◌≡◌, ◌≢◌, refl, ◌∙◌, ap, List, [], ◌∷◌, ◌++◌, arith, Text, text_eq, All, Ordering,
}
use fuelmind.Version.{
  compare_versions, compare_parts, compare_pre, split, before, after, stripped, trim_v,
}
use fuelmind.Version.Order.{flip-compare_parts, flip_fixed}

abbrev pub Lacks : ℕ → Text → Type 0
Lacks c = All (λ x. x ≢ c)

pub before-Lacks : (c : ℕ) (s : Text) → Lacks c s → before c s ≡ s
unfolding before
before-Lacks c [] h = refl
before-Lacks c (x ∷ s) h = ground (arith, before-Lacks c s h.1)

pub after-Lacks : (c : ℕ) (s : Text) → Lacks c s → after c s ≡ []
unfolding after
after-Lacks c [] h = refl
after-Lacks c (x ∷ s) h = ground (arith, after-Lacks c s h.1)

before-append : (c : ℕ) (s t : Text) → Lacks c s → before c (s ++ t) ≡ s ++ before c t
unfolding before
before-append c [] t h = refl
before-append c (x ∷ s) t h = ground (arith, before-append c s t h.1)

after-append : (c : ℕ) (s t : Text) → Lacks c s → after c (s ++ c ∷ t) ≡ t
unfolding after
after-append c [] t h = ground arith
after-append c (x ∷ s) t h = ground (arith, after-append c s t h.1)

before-append_self : (c : ℕ) (s t : Text) → Lacks c s → before c (s ++ c ∷ t) ≡ s
unfolding before
before-append_self c [] t h = ground arith
before-append_self c (x ∷ s) t h = ground (arith, before-append_self c s t h.1)

trim_v-Lacks : (c : ℕ) (s : Text) → Lacks c s → Lacks c (trim_v s)
unfolding trim_v
trim_v-Lacks c [] h = h
trim_v-Lacks c (x ∷ s) h = ground arith

trim_v-append : (s t : Text) → trim_v (s ++ b'-' ∷ t) ≡ trim_v s ++ b'-' ∷ t
unfolding trim_v
trim_v-append [] t = refl
trim_v-append (x ∷ s) t = ground arith

stripped_release : (core : Text) → Lacks b'+' core → stripped core ≡ trim_v core
unfolding stripped
stripped_release core h = before-Lacks b'+' (trim_v core) (trim_v-Lacks b'+' core h)

before_dash : (t : Text) → before b'+' (b'-' ∷ t) ≡ b'-' ∷ before b'+' t
unfolding before
before_dash t = refl

stripped_prerelease :
    (core pre : Text)
    → Lacks b'+' core
    → stripped (core ++ b'-' ∷ pre) ≡ trim_v core ++ b'-' ∷ before b'+' pre
unfolding stripped
stripped_prerelease core pre h =
    ap (before b'+') (trim_v-append core pre)
    ∙ (before-append b'+' (trim_v core) (b'-' ∷ pre) (trim_v-Lacks b'+' core h)
        ∙ ap (λ t. trim_v core ++ t) (before_dash pre))

pub compare_parts_self : (xs : List Text) → compare_parts xs xs ≡ Ordering.eq
compare_parts_self xs = flip_fixed _ (flip-compare_parts xs xs)

before_other : (c : ℕ) (pre : Text) → c ≢ b'+' → before b'+' (c ∷ pre) ≡ c ∷ before b'+' pre
unfolding before
before_other c pre h = ground arith

compare_pre_cons : (c : ℕ) (pre : Text) → compare_pre (c ∷ pre) [] ≡ Ordering.lt
unfolding compare_pre text_eq
compare_pre_cons c pre = refl

compare_pre_nonempty :
    (c : ℕ) (pre : Text) → c ≢ b'+' → compare_pre (before b'+' (c ∷ pre)) [] ≡ Ordering.lt
compare_pre_nonempty c pre h = rw (before_other c pre h) (compare_pre_cons c _)

-- "1.0.0-pilot" sorts before "1.0.0": a version with a pre-release, of at least one character
-- before any build metadata, is older than the release with the same core.
pub prerelease_older :
    (core : Text) (c : ℕ) (pre : Text)
    → Lacks b'-' core
    → Lacks b'+' core
    → c ≢ b'+'
    → compare_versions (core ++ b'-' ∷ c ∷ pre) core ≡ Ordering.lt
unfolding compare_versions
prerelease_older core c pre dash plus h = rw (
  stripped_prerelease core (c ∷ pre) plus,
  stripped_release core plus,
  before-append_self b'-' (trim_v core) (before b'+' (c ∷ pre)) lacks,
  after-append b'-' (trim_v core) (before b'+' (c ∷ pre)) lacks,
  before-Lacks b'-' (trim_v core) lacks,
  after-Lacks b'-' (trim_v core) lacks,
  compare_parts_self (split b'.' (trim_v core)),
  compare_pre_nonempty c pre h,
)
  where
    lacks : Lacks b'-' (trim_v core)
    lacks = trim_v-Lacks b'-' core dash

-- ===== src/Version/Order.antt =====
-- internal/version/version.go, Compare: reflexivity and antisymmetry, on every pair of texts.
use fuelmind.Base.{
  ℕ, ◌≡◌, refl, ap, ◌∙◌, Bool, List, [], ◌∷◌, arith, Text, text_eq, text_compare, compare, Ordering,
  Option, none, some, if◌then◌else◌,
}
use fuelmind.Version.{
  ℤ, pos, negsuc, compare_ℤ, compare_parsed, compare_part, compare_parts, compare_pre,
  compare_versions, or_else, atoi, or_zero, split, before, after, stripped,
}

abbrev pub flip : Ordering → Ordering
flip Ordering.lt = Ordering.gt
flip Ordering.eq = Ordering.eq
flip Ordering.gt = Ordering.lt

flip-compare : (a b : ℕ) → flip (compare a b) ≡ compare b a
flip-compare a b = ground arith

flip-or_else : (a b : Ordering) → flip (or_else a b) ≡ or_else (flip a) (flip b)
flip-or_else Ordering.lt b = refl
flip-or_else Ordering.eq b = refl
flip-or_else Ordering.gt b = refl

flip-compare_ℤ : (x y : ℤ) → flip (compare_ℤ x y) ≡ compare_ℤ y x
flip-compare_ℤ (pos a) (pos b) = flip-compare a b
flip-compare_ℤ (pos a) (negsuc b) = refl
flip-compare_ℤ (negsuc a) (pos b) = refl
flip-compare_ℤ (negsuc a) (negsuc b) = flip-compare b a

flip-text_compare : (a b : Text) → flip (text_compare a b) ≡ text_compare b a
unfolding text_compare
flip-text_compare [] [] = refl
flip-text_compare [] (y ∷ ys) = refl
flip-text_compare (x ∷ xs) [] = refl
flip-text_compare (x ∷ xs) (y ∷ ys) = ground (arith, flip-text_compare xs ys)

flip-compare_parsed :
    (x y : Option ℤ) (o : Ordering) → flip (compare_parsed x y o) ≡ compare_parsed y x (flip o)
unfolding compare_parsed
flip-compare_parsed (some x) (some y) o = flip-compare_ℤ x y
flip-compare_parsed (some x) none o = refl
flip-compare_parsed none (some y) o = refl
flip-compare_parsed none none o = refl

pub flip-compare_part : (x y : Text) → flip (compare_part x y) ≡ compare_part y x
unfolding compare_part
flip-compare_part x y =
    flip-compare_parsed (atoi (or_zero x)) (atoi (or_zero y)) (text_compare x y)
    ∙ ap (compare_parsed (atoi (or_zero y)) (atoi (or_zero x))) (flip-text_compare x y)

flip-step : (p q r s : Ordering) → flip p ≡ q → flip r ≡ s → flip (or_else p r) ≡ or_else q s
flip-step p q r s e f = ground (arith, flip-or_else p r)

pub flip-compare_parts : (xs ys : List Text) → flip (compare_parts xs ys) ≡ compare_parts ys xs
unfolding compare_parts
flip-compare_parts [] [] = refl
flip-compare_parts [] (y ∷ ys) =
    flip-step _ _ _ _ (flip-compare_part [] y) (flip-compare_parts [] ys)
flip-compare_parts (x ∷ xs) [] =
    flip-step _ _ _ _ (flip-compare_part x []) (flip-compare_parts xs [])
flip-compare_parts (x ∷ xs) (y ∷ ys) =
    flip-step _ _ _ _ (flip-compare_part x y) (flip-compare_parts xs ys)

text_eq_comm : (a b : Text) → text_eq a b ≡ text_eq b a
unfolding text_eq
text_eq_comm [] [] = refl
text_eq_comm [] (y ∷ ys) = refl
text_eq_comm (x ∷ xs) [] = refl
text_eq_comm (x ∷ xs) (y ∷ ys) = ground (arith, text_eq_comm xs ys)

flip-if :
    (b c : Bool) (p q : Ordering)
    → b ≡ c
    → flip p ≡ q
    → flip (if b then Ordering.eq else p) ≡ (if c then Ordering.eq else q)
flip-if b c p q e f = ground arith

flip-compare_pre : (a b : Text) → flip (compare_pre a b) ≡ compare_pre b a
unfolding compare_pre text_eq
flip-compare_pre [] [] = refl
flip-compare_pre [] (y ∷ ys) = refl
flip-compare_pre (x ∷ xs) [] = refl
flip-compare_pre (x ∷ xs) (y ∷ ys) =
    flip-if _ _ _ _ (text_eq_comm (x ∷ xs) (y ∷ ys)) (flip-compare_part (x ∷ xs) (y ∷ ys))

-- Compare is antisymmetric: comparing the other way round gives the opposite sign.
pub flip-compare_versions : (a b : Text) → flip (compare_versions a b) ≡ compare_versions b a
unfolding compare_versions
flip-compare_versions a b =
    flip-step _ _ _ _
      (flip-compare_parts (split b'.' (before b'-' (stripped a)))
        (split b'.' (before b'-' (stripped b))))
      (flip-compare_pre (after b'-' (stripped a)) (after b'-' (stripped b)))

pub flip_fixed : (o : Ordering) → flip o ≡ o → o ≡ Ordering.eq
flip_fixed o h = ground arith

-- Every version equals itself, and no version is newer than itself.
pub compare_versions_self : (a : Text) → compare_versions a a ≡ Ordering.eq
compare_versions_self a = flip_fixed _ (flip-compare_versions a a)

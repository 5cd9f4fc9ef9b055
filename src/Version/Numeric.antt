-- ===== src/Version/Numeric.antt =====
-- internal/version/version.go, Compare: on releases with numeric parts it is a total preorder.
use fuelmind.Base.{◌≡◌, ◌≢◌, refl, List, [], ◌∷◌, arith, Text, text_eq, All, Ordering, some}
use fuelmind.Version.{
  ℤ, pos, negsuc, compare_ℤ, compare_parsed, compare_part, compare_parts, compare_pre,
  compare_versions, or_else, atoi, or_zero, split, before, after, stripped,
}

-- strconv.Atoi reads the part, or it is empty.
abbrev pub IsNumeric : Text → Type 0
IsNumeric w = (z : ℤ) × (atoi (or_zero w) ≡ some z)

compare_part_numeric :
    (x y : Text) (m n : ℤ)
    → atoi (or_zero x) ≡ some m
    → atoi (or_zero y) ≡ some n
    → compare_part x y ≡ compare_ℤ m n
unfolding compare_part compare_parsed
compare_part_numeric x y m n e f = rw (e, f, compare_parsed)

-- The middle step of a lexicographic comparison, for heads that are integers.
ℤ_step :
    (x y z : ℤ) (p q r : Ordering)
    → (p ≢ Ordering.gt → q ≢ Ordering.gt → r ≢ Ordering.gt)
    → or_else (compare_ℤ x y) p ≢ Ordering.gt
    → or_else (compare_ℤ y z) q ≢ Ordering.gt
    → or_else (compare_ℤ x z) r ≢ Ordering.gt
ℤ_step (pos x) (pos y) (pos z) p q r h e f = ground arith
ℤ_step (pos x) (pos y) (negsuc z) p q r h e f = ground arith
ℤ_step (pos x) (negsuc y) (pos z) p q r h e f = ground arith
ℤ_step (pos x) (negsuc y) (negsuc z) p q r h e f = ground arith
ℤ_step (negsuc x) (pos y) (pos z) p q r h e f = ground arith
ℤ_step (negsuc x) (pos y) (negsuc z) p q r h e f = ground arith
ℤ_step (negsuc x) (negsuc y) (pos z) p q r h e f = ground arith
ℤ_step (negsuc x) (negsuc y) (negsuc z) p q r h e f = ground arith

part_step :
    (x y z : Text) (p q r : Ordering)
    → IsNumeric x
    → IsNumeric y
    → IsNumeric z
    → (p ≢ Ordering.gt → q ≢ Ordering.gt → r ≢ Ordering.gt)
    → or_else (compare_part x y) p ≢ Ordering.gt
    → or_else (compare_part y z) q ≢ Ordering.gt
    → or_else (compare_part x z) r ≢ Ordering.gt
part_step x y z p q r (l, a) (m, b) (n, c) h =
    rw
      (
        compare_part_numeric x y l m a b,
        compare_part_numeric y z m n b c,
        compare_part_numeric x z l n a c,
      )
      (ℤ_step l m n p q r h)

missing : IsNumeric []
unfolding atoi or_zero
missing = (pos 0, refl)

compare_parts_trans :
    (xs ys zs : List Text)
    → All IsNumeric xs
    → All IsNumeric ys
    → All IsNumeric zs
    → compare_parts xs ys ≢ Ordering.gt
    → compare_parts ys zs ≢ Ordering.gt
    → compare_parts xs zs ≢ Ordering.gt
unfolding compare_parts
compare_parts_trans [] [] zs a b c e f = f
compare_parts_trans [] (y ∷ ys) [] a b c e f = λ h. cc
compare_parts_trans [] (y ∷ ys) (z ∷ zs) a b c e f =
    part_step [] y z _ _ _ missing b.0 c.0 (compare_parts_trans [] ys zs a b.1 c.1) e f
compare_parts_trans (x ∷ xs) [] [] a b c e f = e
compare_parts_trans (x ∷ xs) [] (z ∷ zs) a b c e f =
    part_step x [] z _ _ _ a.0 missing c.0 (compare_parts_trans xs [] zs a.1 b c.1) e f
compare_parts_trans (x ∷ xs) (y ∷ ys) [] a b c e f =
    part_step x y [] _ _ _ a.0 b.0 missing (compare_parts_trans xs ys [] a.1 b.1 c) e f
compare_parts_trans (x ∷ xs) (y ∷ ys) (z ∷ zs) a b c e f =
    part_step x y z _ _ _ a.0 b.0 c.0 (compare_parts_trans xs ys zs a.1 b.1 c.1) e f

-- A version with no pre-release, all of whose dot-separated parts are integers.
pub record IsRelease (v : Text) : Type 0 where
  pub parts : All IsNumeric (split b'.' (before b'-' (stripped v)))
  pub no_pre : after b'-' (stripped v) ≡ []

compare_release :
    (a b : Text)
    → IsRelease a
    → IsRelease b
    → compare_versions a b
      ≡ compare_parts
          (split b'.' (before b'-' (stripped a)))
          (split b'.' (before b'-' (stripped b)))
unfolding compare_versions compare_pre text_eq
compare_release a b ra rb = rw (ra.no_pre, rb.no_pre) (or_else_eq _)
  where
    or_else_eq : (o : Ordering) → or_else o Ordering.eq ≡ o
    or_else_eq Ordering.lt = refl
    or_else_eq Ordering.eq = refl
    or_else_eq Ordering.gt = refl

pub lt-ne-gt : {o : Ordering} → o ≡ Ordering.lt → o ≢ Ordering.gt
lt-ne-gt e = λ h. cc

-- Among releases with numeric parts, "not newer than" is transitive.
pub compare_versions_trans :
    (a b c : Text)
    → IsRelease a
    → IsRelease b
    → IsRelease c
    → compare_versions a b ≢ Ordering.gt
    → compare_versions b c ≢ Ordering.gt
    → compare_versions a c ≢ Ordering.gt
compare_versions_trans a b c ra rb rc =
    rw (compare_release a b ra rb, compare_release b c rb rc, compare_release a c ra rc)
      (compare_parts_trans _ _ _ ra.parts rb.parts rc.parts)

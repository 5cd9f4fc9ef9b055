-- ===== src/Version.antt =====
-- internal/version/version.go: versions as directory names, their order, and the rollout buckets.
-- -1, 0 and 1 are the values lt, eq and gt of Ordering.
pub mod Names
pub mod Order
pub mod Release
pub mod Numeric
pub mod Rollout
mod Tests
use fuelmind.Base.{
  ℕ, zero, suc, ◌+◌, ◌-◌, ◌*◌, ◌%◌, ◌^◌, compare, Ordering, ◌≡◌, Bool, true, false, not, ◌&&◌, ◌||◌,
  Option, none, some, List, [], ◌∷◌, Text, codes, text_eq, text_compare, contains, is_digit,
  is_upper, is_lower, ltb, leb, ◌==◌, if◌then◌else◌, length,
}

abbrev pub is_alnum : ℕ → Bool
is_alnum c = is_digit c || is_upper c || is_lower c

-- [0-9A-Za-z.+\-]
abbrev pub is_version_char : ℕ → Bool
is_version_char c = is_alnum c || c == b'.' || c == b'+' || c == b'-'

pub all_version_chars : Text → Bool
all_version_chars [] = true
all_version_chars (c ∷ s) = is_version_char c && all_version_chars s

-- validRe.MatchString
unfoldable pub valid_re : Text → Bool
unfolding all_version_chars
valid_re [] = false
valid_re (c ∷ s) = is_alnum c && leb (length s) 63 && all_version_chars s

unfoldable pub valid : Text → Bool
unfolding valid_re contains
valid v = valid_re v && not (contains v (codes ".."))

pub data ℤ : Type 0 where
  pos : ℕ → ℤ
  negsuc : ℕ → ℤ

abbrev pub compare_ℤ : ℤ → ℤ → Ordering
compare_ℤ (pos a) (pos b) = compare a b
compare_ℤ (pos a) (negsuc b) = Ordering.gt
compare_ℤ (negsuc a) (pos b) = Ordering.lt
compare_ℤ (negsuc a) (negsuc b) = compare b a

-- The value of a run of digits behind those that `acc` holds.
pub digits_value : ℕ → Text → Option ℕ
digits_value acc [] = some acc
digits_value acc (c ∷ s) =
    let rest = digits_value (acc * 10 + (c - b'0')) s in if is_digit c then rest else none

magnitude : Text → Option ℕ
unfolding digits_value
magnitude [] = none
magnitude (c ∷ s) = digits_value 0 (c ∷ s)

signed : Bool → Option ℕ → Option ℤ
signed b none = none
signed false (some n) = if ltb n (2 ^ 63) then some (pos n) else none
signed true (some zero) = some (pos 0)
signed true (some (suc n)) = if leb (suc n) (2 ^ 63) then some (negsuc n) else none

-- strconv.Atoi at 64 bits; `none` is its error.
unfoldable pub atoi : Text → Option ℤ
unfolding magnitude signed
atoi [] = none
atoi (c ∷ s) =
    if c == b'-'
    then signed true (magnitude s)
    else if c == b'+'
    then signed false (magnitude s)
    else signed false (magnitude (c ∷ s))

unfoldable pub or_zero : Text → Text
or_zero [] = codes "0"
or_zero (c ∷ s) = c ∷ s

pub compare_parsed : Option ℤ → Option ℤ → Ordering → Ordering
compare_parsed (some x) (some y) o = compare_ℤ x y
compare_parsed (some x) none o = o
compare_parsed none y o = o

unfoldable pub compare_part : Text → Text → Ordering
unfolding compare_parsed atoi or_zero text_compare
compare_part x y = compare_parsed (atoi (or_zero x)) (atoi (or_zero y)) (text_compare x y)

-- strings.TrimPrefix(s, "v")
unfoldable pub trim_v : Text → Text
trim_v [] = []
trim_v (c ∷ s) = if c == b'v' then s else c ∷ s

-- strings.Cut(s, sep) for a separator of one byte: what stands before it, and after it.
unfoldable pub before : ℕ → Text → Text
before sep [] = []
before sep (c ∷ s) = let rest = before sep s in if c == sep then [] else c ∷ rest

unfoldable pub after : ℕ → Text → Text
after sep [] = []
after sep (c ∷ s) = let rest = after sep s in if c == sep then s else rest

abbrev prepend : ℕ → List Text → List Text
prepend c [] = (c ∷ []) ∷ []
prepend c (w ∷ ws) = (c ∷ w) ∷ ws

-- strings.Split(s, sep) for a separator of one byte
unfoldable pub split : ℕ → Text → List Text
split sep [] = [] ∷ []
split sep (c ∷ s) = let rest = split sep s in if c == sep then [] ∷ rest else prepend c rest

-- `a` unless it is eq, and then `b`
abbrev pub or_else : Ordering → Ordering → Ordering
or_else Ordering.eq b = b
or_else a b = a

-- The loop over the dot-separated parts; a missing part is "".
unfoldable pub compare_parts : List Text → List Text → Ordering
unfolding compare_part
compare_parts [] [] = Ordering.eq
compare_parts [] (y ∷ ys) = or_else (compare_part [] y) (compare_parts [] ys)
compare_parts (x ∷ xs) [] = or_else (compare_part x []) (compare_parts xs [])
compare_parts (x ∷ xs) (y ∷ ys) = or_else (compare_part x y) (compare_parts xs ys)

abbrev is_nil : Text → Bool
is_nil [] = true
is_nil (c ∷ s) = false

-- The `switch` on the two pre-release strings.
unfoldable pub compare_pre : Text → Text → Ordering
unfolding compare_part text_eq
compare_pre a b =
    if text_eq a b
    then Ordering.eq
    else if is_nil a
    then Ordering.gt
    else if is_nil b
    then Ordering.lt
    else compare_part a b

-- What Compare keeps of a version: no leading v, no build metadata.
unfoldable pub stripped : Text → Text
unfolding trim_v before
stripped a = before b'+' (trim_v a)

unfoldable pub compare_versions : Text → Text → Ordering
unfolding stripped compare_parts compare_pre after split before
compare_versions a b =
    let a' = stripped a in
    let b' = stripped b in
    or_else (compare_parts (split b'.' (before b'-' a')) (split b'.' (before b'-' b')))
      (compare_pre (after b'-' a') (after b'-' b'))

-- The first four bytes of the digest as a big-endian number.
abbrev pub be_uint32 : List ℕ → ℕ
be_uint32 (a ∷ b ∷ c ∷ d ∷ rest) = ((a * 256 + b) * 256 + c) * 256 + d
be_uint32 short = 0

-- `sha256` is the digest of the standard library.
module _ (sha256 : Text → List ℕ) where
  unfoldable pub rollout_bucket : Text → ℕ
  rollout_bucket station_id = be_uint32 (sha256 station_id) % 100

  -- `pct` is not negative here: a negative percentage is in no rollout, as 0 is.
  unfoldable pub in_rollout : Text → ℕ → Bool
  unfolding rollout_bucket
  in_rollout station_id pct = if leb 100 pct then true else ltb (rollout_bucket station_id) pct

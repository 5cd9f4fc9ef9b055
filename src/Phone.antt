-- ===== src/Phone.antt =====
-- internal/phone/phone.go: one canonical form for the phone numbers of customers.
pub mod Spellings
use fuelmind.Base.{
  ℕ, ◌≡◌, Bool, true, false, ◌||◌, List, [], ◌∷◌, ◌++◌, Text, codes, is_empty, is_digit, is_lower,
  is_upper, trim_space, has_prefix, drop, length, keep_if, any, ltb, if◌then◌else◌,
}

abbrev pub default_country_code : Text
default_country_code = codes "92"

abbrev pub is_letter : ℕ → Bool
is_letter c = is_lower c || is_upper c

-- What is dialled for the digits `d`.
unfoldable pub dial : Text → Text → Text
unfolding has_prefix
dial d cc =
    if has_prefix d (codes "00")
    then b'+' ∷ drop 2 d
    else if has_prefix d (codes "0")
    then (if is_empty cc then b'+' ∷ d else b'+' ∷ cc ++ drop 1 d)
    else b'+' ∷ d

-- NormalizeCC
unfoldable pub normalize_cc : Text → Text → Text
unfolding dial
normalize_cc raw cc =
    let trimmed = trim_space raw in
    let d = keep_if is_digit trimmed in
    if is_empty trimmed
    then []
    else if any is_letter trimmed || ltb (length d) 7
    then trimmed
    else dial d cc

unfoldable pub normalize : Text → Text
normalize raw = normalize_cc raw default_country_code

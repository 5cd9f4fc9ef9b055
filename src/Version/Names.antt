-- ===== src/Version/Names.antt =====
-- internal/version/version.go, Valid: what a version may look like as the name of a directory.
use fuelmind.Base.{
  ℕ, ◌≤◌, ◌≡◌, ◌≢◌, Bool, true, false, [], ◌∷◌, arith, Text, codes, contains, All, length,
}
use fuelmind.Version.{valid, valid_re, all_version_chars, is_version_char, is_alnum}

-- Not a separator of paths, nor of drives, nor a wildcard, nor a control character.
pub record IsSafeChar (c : ℕ) : Type 0 where
  pub printable : 33 ≤ c
  pub ascii : c ≤ 122
  pub not_slash : c ≢ b'/'
  pub not_backslash : c ≢ 92
  pub not_colon : c ≢ b':'
  pub not_star : c ≢ b'*'
  pub not_question : c ≢ b'?'

char-IsSafeChar : (c : ℕ) → is_version_char c ≡ true → IsSafeChar c
char-IsSafeChar c h = ground arith

chars-IsSafeChar : (s : Text) → all_version_chars s ≡ true → All IsSafeChar s
unfolding all_version_chars
chars-IsSafeChar [] h = tt
chars-IsSafeChar (c ∷ s) h = (char-IsSafeChar c (ground arith), chars-IsSafeChar s (ground arith))

abbrev pub starts_alnum : Text → Bool
starts_alnum [] = false
starts_alnum (c ∷ s) = is_alnum c

re_parts :
    (v : Text) → valid_re v ≡ true → (starts_alnum v ≡ true) × (length v ≤ 64) × All IsSafeChar v
unfolding valid_re
re_parts [] h = cc
re_parts (c ∷ s) h = (
  ground arith,
  ground arith,
  (char-IsSafeChar c (ground arith), chars-IsSafeChar s (ground arith)),
)

-- A valid version begins with a letter or a digit, has at most 64 characters, none of them a
-- separator of paths or drives, a wildcard or a space, and does not contain "..".
pub valid_safe :
    (v : Text)
    → valid v ≡ true
    → (starts_alnum v ≡ true)
      × (length v ≤ 64)
      × All IsSafeChar v
      × (contains v (codes "..") ≡ false)
unfolding valid
valid_safe v h = let parts = re_parts v (ground arith) in (parts.0, parts.1, parts.2, ground arith)

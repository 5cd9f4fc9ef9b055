-- ===== src/Phone/Spellings.antt =====
-- internal/phone/phone.go: however a number is written down, it is one number.
mod Tests
use fuelmind.Base.{
  ℕ, suc, ◌+◌, ◌≤◌, ◌≡◌, ◌≢◌, refl, sym, ap, ◌∙◌, Bool, true, false, ◌||◌, inl, inr, Bool-cases,
  List, [], ◌∷◌, ◌++◌, Text, codes, is_empty, is_digit, trim_space, has_prefix, drop, length,
  length-append, keep_if, any, ltb, if◌then◌else◌, arith,
}
use fuelmind.Phone.{is_letter, dial, normalize_cc}

-- `raw` is written with the digits `d`, and any spaces, dashes and brackets.
pub record IsWritten (raw d : Text) : Type 0 where
  pub digits : keep_if is_digit (trim_space raw) ≡ d
  pub no_letters : any is_letter (trim_space raw) ≡ false

full_text : (t : Text) → 7 ≤ length (keep_if is_digit t) → is_empty t ≡ false
full_text [] h = absurd (omega (arith, h))
full_text (c ∷ t) h = refl

normalize_cc-dial :
    (raw d code : Text) → IsWritten raw d → 7 ≤ length d → normalize_cc raw code ≡ dial d code
unfolding normalize_cc
normalize_cc-dial raw d code w long =
    rw (w.digits, w.no_letters, full_text (trim_space raw) (rw w.digits long))
      (ground (arith, long))

-- A number that does not begin with 0.
abbrev pub StartsAbroad : Text → Type 0
StartsAbroad [] = ⊥
StartsAbroad (c ∷ d) = c ≢ b'0'

dial_national :
    (d code : Text) → StartsAbroad d → StartsAbroad code → dial (b'0' ∷ d) code ≡ b'+' ∷ code ++ d
unfolding dial has_prefix
dial_national [] code h k = absurd h
dial_national (c ∷ d) [] h k = absurd k
dial_national (c ∷ d) (y ∷ code) h k = ground (arith, h)

dial_old : (d code : Text) → dial (b'0' ∷ b'0' ∷ d) code ≡ b'+' ∷ d
unfolding dial has_prefix
dial_old d code = refl

dial_abroad : (d code : Text) → StartsAbroad d → dial d code ≡ b'+' ∷ d
unfolding dial has_prefix
dial_abroad [] code h = absurd h
dial_abroad (c ∷ d) code h = ground (arith, h)

-- The national, the old and the new international spelling of a number are one number, whatever
-- spaces, dashes, brackets and plus signs they are written with.
pub normalize_cc_spellings :
    (national old new d code : Text)
    → IsWritten national (b'0' ∷ d)
    → IsWritten old (b'0' ∷ b'0' ∷ code ++ d)
    → IsWritten new (code ++ d)
    → 6 ≤ length d
    → StartsAbroad d
    → StartsAbroad code
    → (normalize_cc national code ≡ b'+' ∷ code ++ d)
      × (normalize_cc old code ≡ b'+' ∷ code ++ d)
      × (normalize_cc new code ≡ b'+' ∷ code ++ d)
normalize_cc_spellings national old new d [] n o i long h k = absurd k
normalize_cc_spellings national old new d (y ∷ code) n o i long h k = (
  normalize_cc-dial national _ (y ∷ code) n (omega arith) ∙ dial_national d (y ∷ code) h k,
  normalize_cc-dial old _ (y ∷ code) o (omega (arith, length-append code d))
      ∙ dial_old (y ∷ code ++ d) (y ∷ code),
  normalize_cc-dial new _ (y ∷ code) i (omega (arith, length-append code d))
      ∙ dial_abroad (y ∷ code ++ d) (y ∷ code) k,
)

-- ===== src/Phone/Spellings/Tests.antt =====
-- The spellings of the comment in phone.go.
use fuelmind.Base.{◌≡◌, refl, ◌∷◌, ◌++◌, Text, codes, trim_space, arith}
use fuelmind.Phone.{normalize_cc}
use fuelmind.Phone.Spellings.{IsWritten, normalize_cc_spellings}

abbrev rest : Text
rest = codes "3001234567"

national : IsWritten (codes "0300 1234567") (b'0' ∷ rest)
unfolding trim_space
national = record { digits = refl; no_letters = refl }

old_style : IsWritten (codes "0092 300 1234567") (b'0' ∷ b'0' ∷ codes "92" ++ rest)
unfolding trim_space
old_style = record { digits = refl; no_letters = refl }

new_style : IsWritten (codes "+92-300-1234567") (codes "92" ++ rest)
unfolding trim_space
new_style = record { digits = refl; no_letters = refl }

normalize_cc_spellings_example :
    normalize_cc (codes "0300 1234567") (codes "92") ≡ codes "+923001234567"
normalize_cc_spellings_example =
    (normalize_cc_spellings (codes "0300 1234567") (codes "0092 300 1234567")
      (codes "+92-300-1234567") rest (codes "92") national old_style new_style (omega arith)
      (omega arith) (omega arith)).0

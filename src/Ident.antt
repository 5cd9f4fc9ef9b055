-- ===== src/Ident.antt =====
-- internal/ident/ident.go: the identity of a station.
pub mod Fresh
pub mod Tests
use fuelmind.Base.{
  ℕ, zero, suc, ◌-◌, ◌%◌, Bool, true, false, ◌&&◌, Option, none, some, List, [], ◌∷◌, ◌++◌, map,
  ◌⊎◌, inl, inr, Text, codes, has_prefix, length, take, drop, any, ◌==◌, leb, if◌then◌else◌,
}

-- Why there is no identity.
pub data IdentError : Type 0 where
  no_random : IdentError
  no_valid_id : IdentError

-- crypto/rand: the i-th read, into a buffer of n bytes; none where it fails.
abbrev pub Random : Type 0
Random = ℕ → ℕ → Option (List ℕ)

abbrev pub station_id_prefix : Text
station_id_prefix = codes "FM-"

abbrev pub station_id_suffix_len : ℕ
station_id_suffix_len = 7

abbrev pub station_id_alphabet : Text
station_id_alphabet = codes "23456789ABCDEFGHJKMNPQRSTUVWXYZ"

abbrev pub api_key_len_bytes : ℕ
api_key_len_bytes = 32

-- s[i], 0 beyond the end
unfoldable pub char_at : Text → ℕ → ℕ
char_at [] i = 0
char_at (c ∷ s) zero = c
char_at (c ∷ s) (suc i) = char_at s i

-- The id that the bytes of a read make.
unfoldable pub id_of_bytes : List ℕ → Text
unfolding char_at
id_of_bytes bytes =
    station_id_prefix
    ++ map (λ b. char_at station_id_alphabet (b % length station_id_alphabet)) bytes

-- rollStationID
unfoldable pub roll_station_id : Option (List ℕ) → IdentError ⊎ Text
unfolding id_of_bytes
roll_station_id none = inl no_random
roll_station_id (some bytes) = inr (id_of_bytes bytes)

abbrev pub in_alphabet : ℕ → Bool
in_alphabet c = any (λ x. x == c) station_id_alphabet

unfoldable pub all_in_alphabet : Text → Bool
all_in_alphabet [] = true
all_in_alphabet (c ∷ s) = in_alphabet c && all_in_alphabet s

unfoldable pub is_valid_station_id : Text → Bool
unfolding has_prefix all_in_alphabet
is_valid_station_id s =
    let suffix = drop (length station_id_prefix) s in
    if has_prefix s station_id_prefix
    then (length suffix == station_id_suffix_len) && all_in_alphabet suffix
    else false

-- The loop of generateStationID from the i-th read on, with the number of the next read.
unfoldable pub try_station_id : ℕ → Random → ℕ → (IdentError ⊎ Text) × ℕ
unfolding roll_station_id is_valid_station_id
try_station_id zero random i = (inl no_valid_id, i)
try_station_id (suc tries) random i =
    let rest = try_station_id tries random (suc i) in
    elim (roll_station_id (random i station_id_suffix_len)) [
      | inl e ↦ (inl e, suc i)
      | inr sid ↦ if is_valid_station_id sid then (inr sid, suc i) else rest
    ]

unfoldable pub generate_station_id : Random → ℕ → (IdentError ⊎ Text) × ℕ
unfolding try_station_id
generate_station_id = try_station_id 16

-- generateAPIKey; `encode` is base64.RawURLEncoding
unfoldable pub generate_api_key : (List ℕ → Text) → Option (List ℕ) → IdentError ⊎ Text
generate_api_key encode none = inl no_random
generate_api_key encode (some bytes) = inr (encode bytes)

unfoldable pub generate_identity : (List ℕ → Text) → Random → IdentError ⊎ (Text × Text)
unfolding generate_station_id generate_api_key
generate_identity encode random =
    let (sid, i) = generate_station_id random 0 in
    elim sid [
      | inl e ↦ inl e
      | inr id ↦ elim (generate_api_key encode (random i api_key_len_bytes)) [
        | inl e ↦ inl e
        | inr key ↦ inr (id, key)
      ]
    ]

-- MaskAPIKey
unfoldable pub mask_api_key : Text → Text
mask_api_key k =
    if leb (length k) 8 then codes "***" else take 4 k ++ (codes "…" ++ drop (length k - 4) k)

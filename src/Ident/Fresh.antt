-- ===== src/Ident/Fresh.antt =====
-- internal/ident/ident.go: what the generator makes passes its own test.
use fuelmind.Base.{
  ℕ, zero, suc, ◌%◌, ◌<◌, ◌≡◌, refl, ap, true, none, some, List, [], ◌∷◌, map, ◌⊎◌, inl, inr, Text,
  has_prefix, length, any, ◌==◌, arith, Option-cases,
}
use fuelmind.Ident.{
  no_random, Random, station_id_alphabet, char_at, id_of_bytes, roll_station_id, all_in_alphabet,
  is_valid_station_id, try_station_id, generate_station_id, generate_api_key, generate_identity,
}

char_at_found : (s : Text) (i : ℕ) → i < length s → any (λ x. x == char_at s i) s ≡ true
unfolding char_at
char_at_found [] i h = absurd (omega arith)
char_at_found (c ∷ s) zero h = ground arith
char_at_found (c ∷ s) (suc i) h = let r = char_at_found s i (omega arith) in ground (arith, r)

below_alphabet : (b : ℕ) → b % 31 < 31
below_alphabet b = omega arith

rolled_in_alphabet :
    (bytes : List ℕ)
    → all_in_alphabet
        (map (λ b. char_at station_id_alphabet (b % length station_id_alphabet)) bytes)
      ≡ true
unfolding all_in_alphabet
rolled_in_alphabet [] = refl
rolled_in_alphabet (b ∷ bs) =
    rw (char_at_found station_id_alphabet (b % 31) (below_alphabet b)) (rolled_in_alphabet bs)

length-map : (g : ℕ → ℕ) (bytes : List ℕ) → length (map g bytes) ≡ length bytes
length-map g [] = refl
length-map g (b ∷ bs) = ap suc (length-map g bs)

valid_of_bytes :
    (bytes : List ℕ) → length bytes ≡ 7 → is_valid_station_id (id_of_bytes bytes) ≡ true
unfolding is_valid_station_id id_of_bytes has_prefix
valid_of_bytes bytes h =
    rw (length-map (λ b. char_at station_id_alphabet (b % length station_id_alphabet)) bytes, h)
      (rolled_in_alphabet bytes)

try-id_of_bytes :
    (tries : ℕ) (random : Random) (i : ℕ) (bytes : List ℕ)
    → random i 7 ≡ some bytes
    → length bytes ≡ 7
    → try_station_id (suc tries) random i ≡ (inr (id_of_bytes bytes), suc i)
unfolding try_station_id roll_station_id
try-id_of_bytes tries random i bytes e h =
    rw (try_station_id, e, roll_station_id, valid_of_bytes bytes h) refl

try-no_random :
    (tries : ℕ) (random : Random) (i : ℕ)
    → random i 7 ≡ none
    → try_station_id (suc tries) random i ≡ (inl no_random, suc i)
unfolding try_station_id roll_station_id
try-no_random tries random i e = rw (try_station_id, e) refl

-- Where every read fills its buffer, the first station id that is rolled passes the test, so there is no
-- second one: there is no identity only where one of the two reads fails, and otherwise its station id
-- is valid.
pub generate_identity_ends :
    (encode : List ℕ → Text) (random : Random)
    → ((i n : ℕ) (bytes : List ℕ) → random i n ≡ some bytes → length bytes ≡ n)
    → ((random 0 7 ≡ none ⊎ random 1 32 ≡ none) × (generate_identity encode random ≡ inl no_random))
      ⊎ ((bytes key : List ℕ) × (random 0 7 ≡ some bytes)
          × (random 1 32 ≡ some key)
          × (generate_identity encode random ≡ inr (id_of_bytes bytes, encode key))
          × (is_valid_station_id (id_of_bytes bytes) ≡ true))
unfolding generate_identity generate_station_id generate_api_key
generate_identity_ends encode random fills = elim (Option-cases (random 0 7)) [
  | inl e ↦ inl (inl e, rw (generate_identity, try-no_random 15 random 0 e) refl)
  | inr (bytes, e) ↦
      let valid = valid_of_bytes bytes (fills 0 7 bytes e) in
      let first = try-id_of_bytes 15 random 0 bytes e (fills 0 7 bytes e) in
      let next : (generate_station_id random 0).1 ≡ 1 = ap (λ x. x.1) first in
      elim (Option-cases (random 1 32)) [
        | inl n ↦ inl (inr n, rw (generate_identity, first, next, n) refl)
        | inr (key, k) ↦ inr (bytes, key, e, k, rw (generate_identity, first, next, k) refl, valid)
      ]
]

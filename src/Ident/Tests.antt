-- ===== src/Ident/Tests.antt =====
-- Runs of the generator.
use fuelmind.Base.{
  ℕ, zero, suc, ◌≡◌, refl, ap, true, false, Option, none, some, List, [], ◌∷◌, ◌⊎◌, inl, inr, codes,
  length,
}
use mathlib.Core.Path.{subst}
use fuelmind.Ident.{
  no_random, Random, mask_api_key, generate_identity, id_of_bytes, is_valid_station_id,
}
use fuelmind.Ident.Fresh.{generate_identity_ends}

masked : mask_api_key (codes "abcdefghwxyz") ≡ codes "abcd…wxyz"
unfolding mask_api_key
masked = refl

mistyped : is_valid_station_id (codes "FM-9K7QP2O") ≡ false
unfolding is_valid_station_id
mistyped = refl

abbrev nines : ℕ → List ℕ
nines zero = []
nines (suc n) = 9 ∷ nines n

-- Every read gives nines.
abbrev random : Random
random i n = some (nines n)

length-nines : (n : ℕ) → length (nines n) ≡ n
length-nines zero = refl
length-nines (suc n) = ap suc (length-nines n)

abbrev or_nil : Option (List ℕ) → List ℕ
or_nil none = []
or_nil (some b) = b

fills : (i n : ℕ) (bytes : List ℕ) → random i n ≡ some bytes → length bytes ≡ n
fills i n bytes e = subst (λ o. length (or_nil o) ≡ n) e (length-nines n)

generate_identity_ends_example :
    ((random 0 7 ≡ none ⊎ random 1 32 ≡ none) × (generate_identity (λ k. k) random ≡ inl no_random))
    ⊎ ((bytes key : List ℕ) × (random 0 7 ≡ some bytes)
        × (random 1 32 ≡ some key)
        × (generate_identity (λ k. k) random ≡ inr (id_of_bytes bytes, key))
        × (is_valid_station_id (id_of_bytes bytes) ≡ true))
generate_identity_ends_example = generate_identity_ends (λ k. k) random fills

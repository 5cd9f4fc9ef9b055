-- ===== src/Ledger/Rows.antt =====
-- internal/storage/storage.go: the UPDATE of WriteNormalizedTransaction changes one row, the one that the
-- SELECT before it has found.
use fuelmind.Base.{
  ap, ℕ, ◌≡◌, refl, Bool, true, false, none, some, List, [], ◌∷◌, inl, inr, arith, Text, ◌==◌, any,
  Bool-cases, if◌then◌else◌,
}
use mathlib.Core.Path.{subst}
use fuelmind.Ledger.{NormalizedTransaction, Row, is_raw, has_sale_key, find_row, renew, update_row}

module _ {A : Type 0} where
  pub some_inj : {x y : Row A} → some x ≡ some y → x ≡ y
  some_inj e = cc

  abbrev pub is_row : ℕ → Row A → Bool
  is_row i x = x.id == i

  -- No primary key twice.
  abbrev pub IsKeyed : List (Row A) → Type 0
  IsKeyed [] = Unit {0}
  IsKeyed (x ∷ xs) = (any (is_row x.id) xs ≡ false) × IsKeyed xs

  -- The first row that passes the test, changed.
  abbrev pub replace_first : (Row A → Bool) → (Row A → Row A) → List (Row A) → List (Row A)
  replace_first p f [] = []
  replace_first p f (x ∷ xs) = let rest = replace_first p f xs in if p x then f x ∷ xs else x ∷ rest

  update_row_lacks :
      (i : ℕ) (f : Row A → Row A) (xs : List (Row A))
      → any (is_row i) xs ≡ false
      → update_row i f xs ≡ xs
  unfolding update_row
  update_row_lacks i f [] h = refl
  update_row_lacks i f (x ∷ xs) h = ground (arith, update_row_lacks i f xs)

  find_row-has_id :
      (p : Row A → Bool) (xs : List (Row A)) (old : Row A)
      → find_row p xs ≡ some old
      → any (is_row old.id) xs ≡ true
  unfolding find_row
  find_row-has_id p [] old e = ground arith
  find_row-has_id p (x ∷ xs) old e = ground (arith, find_row-has_id p xs old)

  pub find_row-passes :
      (p : Row A → Bool) (xs : List (Row A)) (old : Row A) → find_row p xs ≡ some old → p old ≡ true
  unfolding find_row
  find_row-passes p [] old e = absurd (ground arith)
  find_row-passes p (x ∷ xs) old e = elim (Bool-cases (p x)) [
    | inl h ↦ subst (λ y. p y ≡ true) (some_inj (rw h at e)) h
    | inr h ↦ find_row-passes p xs old (rw h at e)
  ]

  pub find_row-any :
      (p : Row A → Bool) (xs : List (Row A)) → find_row p xs ≡ none → any p xs ≡ false
  unfolding find_row
  find_row-any p [] e = refl
  find_row-any p (x ∷ xs) e = ground (arith, find_row-any p xs)

  pub found_fails :
      (p q : Row A → Bool) (xs : List (Row A)) (old : Row A)
      → find_row p xs ≡ some old
      → any q xs ≡ false
      → q old ≡ false
  unfolding find_row
  found_fails p q [] old e h = absurd (ground arith)
  found_fails p q (x ∷ xs) old e h = elim (Bool-cases (p x)) [
    | inl t ↦ subst (λ y. q y ≡ false) (some_inj (rw t at e)) (ground arith)
    | inr t ↦ found_fails p q xs old (rw t at e) (ground arith)
  ]

  -- The update by the key of the row that is found is the update of the first row that is found.
  pub update_row-replace_first :
      (p : Row A → Bool) (f : Row A → Row A) (xs : List (Row A)) (old : Row A)
      → IsKeyed xs
      → find_row p xs ≡ some old
      → update_row old.id f xs ≡ replace_first p f xs
  unfolding update_row find_row
  update_row-replace_first p f [] old k e = refl
  update_row-replace_first p f (x ∷ xs) old k e = elim (Bool-cases (p x)) [
    | inl h ↦ ground (arith, update_row_lacks x.id f xs k.0)
    | inr h ↦ ground (arith, find_row-has_id p xs old, update_row-replace_first p f xs old k.1, k.0)
  ]

  module _ (p : Row A → Bool) (n : NormalizedTransaction A) where
    -- The row that is replaced has the raw id `j`: every other raw id stays.
    pub replace_first_keeps :
        (i : ℕ) (xs : List (Row A)) (old : Row A)
        → find_row p xs ≡ some old
        → is_raw i old ≡ false
        → any (is_raw i) xs ≡ true
        → any (is_raw i) (replace_first p (renew n) xs) ≡ true
    unfolding find_row renew
    replace_first_keeps i [] old e o h = ground arith
    replace_first_keeps i (x ∷ xs) old e o h = elim (Bool-cases (p x)) [
      | inl t ↦ ground (arith, ap (is_raw i) (some_inj (rw t at e)))
      | inr t ↦ ground (arith, replace_first_keeps i xs old (rw t at e) o)
    ]

    pub replace_first_adds :
        (xs : List (Row A)) (old : Row A)
        → find_row p xs ≡ some old
        → any (is_raw n.raw_transaction_id) (replace_first p (renew n) xs) ≡ true
    unfolding find_row renew
    replace_first_adds [] old e = ground arith
    replace_first_adds (x ∷ xs) old e = ground (arith, replace_first_adds xs old)

    pub replace_first_lacks :
        (i : ℕ) (xs : List (Row A))
        → any (is_raw i) xs ≡ false
        → (n.raw_transaction_id == i) ≡ false
        → any (is_raw i) (replace_first p (renew n) xs) ≡ false
    unfolding renew
    replace_first_lacks i [] h ne = refl
    replace_first_lacks i (x ∷ xs) h ne = ground (arith, replace_first_lacks i xs)

    pub any_key-replace_first :
        (s e : Text) (xs : List (Row A))
        → any (has_sale_key s e) (replace_first p (renew n) xs) ≡ any (has_sale_key s e) xs
    unfolding renew has_sale_key
    any_key-replace_first s e [] = refl
    any_key-replace_first s e (x ∷ xs) = elim (Bool-cases (p x)) [
      | inl t ↦ rw t refl
      | inr t ↦ rw (t, any_key-replace_first s e xs) refl
    ]

    pub any_id-replace_first :
        (i : ℕ) (xs : List (Row A))
        → any (is_row i) (replace_first p (renew n) xs) ≡ any (is_row i) xs
    unfolding renew
    any_id-replace_first i [] = refl
    any_id-replace_first i (x ∷ xs) = ground (arith, any_id-replace_first i xs)

-- ===== src/Ledger/Once.antt =====
-- internal/storage/storage.go: revenue is never counted twice.
use fuelmind.Base.{
  ◌∙◌, ℕ, ◌+◌, ◌<◌, ◌≡◌, refl, Bool, false, ◌||◌, none, some, List, [], ◌∷◌, ◌++◌, inl, inr, arith,
  Text, text_eq_iff, ◌==◌, any, any-append, All, All-append, Bool-cases, Option-cases,
}
use fuelmind.Ledger.{
  NormalizedTransaction, Row, Database, is_raw, has_sale_key, find_row, renew, update_row,
  clear_failure, supersede, replace_sale, insert_sale, find_sale, write_normalized,
}
use fuelmind.Ledger.Rows.{
  is_row, IsKeyed, replace_first, found_fails, find_row-any, update_row-replace_first,
  replace_first_lacks, any_key-replace_first, any_id-replace_first,
}

module _ {A : Type 0} where
  -- No raw row stands behind two transactions, and no two have one source and external id.
  abbrev pub IsOnce : List (Row A) → Type 0
  IsOnce [] = Unit {0}
  IsOnce (x ∷ xs) =
      (any (is_raw x.sale.raw_transaction_id) xs ≡ false)
      × (any (has_sale_key x.sale.pos_source_id x.sale.external_id) xs ≡ false)
      × IsOnce xs

  replace_first-IsOnce :
      (p : Row A → Bool) (n : NormalizedTransaction A) (xs : List (Row A))
      → IsOnce xs
      → any (is_raw n.raw_transaction_id) xs ≡ false
      → IsOnce (replace_first p (renew n) xs)
  unfolding renew
  replace_first-IsOnce p n [] h new = tt
  replace_first-IsOnce p n (x ∷ xs) h new = elim (Bool-cases (p x)) [
    | inl t ↦ rw t (ground arith, h.1, h.2)
    | inr t ↦ rw t (
      replace_first_lacks p n x.sale.raw_transaction_id xs h.0 (ground arith),
      any_key-replace_first p n x.sale.pos_source_id x.sale.external_id xs ∙ h.1,
      replace_first-IsOnce p n xs h.2 (ground arith),
    )
  ]

  replace_first-IsKeyed :
      (p : Row A → Bool) (n : NormalizedTransaction A) (xs : List (Row A))
      → IsKeyed xs
      → IsKeyed (replace_first p (renew n) xs)
  unfolding renew
  replace_first-IsKeyed p n [] h = tt
  replace_first-IsKeyed p n (x ∷ xs) h = elim (Bool-cases (p x)) [
    | inl t ↦ rw t h
    | inr t ↦ rw t (any_id-replace_first p n x.id xs ∙ h.0, replace_first-IsKeyed p n xs h.1)
  ]

  abbrev pub IsBelow : ℕ → List (Row A) → Type 0
  IsBelow k = All (λ (x : Row A). x.id < k)

  replace_first-IsBelow :
      (p : Row A → Bool) (n : NormalizedTransaction A) (k : ℕ) (xs : List (Row A))
      → IsBelow k xs
      → IsBelow k (replace_first p (renew n) xs)
  unfolding renew
  replace_first-IsBelow p n k [] h = tt
  replace_first-IsBelow p n k (x ∷ xs) h = elim (Bool-cases (p x)) [
    | inl t ↦ rw t h
    | inr t ↦ rw t (h.0, replace_first-IsBelow p n k xs h.1)
  ]

  IsBelow-later : (k : ℕ) (xs : List (Row A)) → IsBelow k xs → IsBelow (k + 1) xs
  IsBelow-later k [] h = tt
  IsBelow-later k (x ∷ xs) h = (omega arith, IsBelow-later k xs h.1)

  new_key : (k : ℕ) (xs : List (Row A)) → IsBelow k xs → any (is_row k) xs ≡ false
  new_key k [] h = refl
  new_key k (x ∷ xs) h = ground (arith, new_key k xs h.1, h.0)

  append-IsKeyed :
      (xs : List (Row A)) (x : Row A) → IsBelow x.id xs → IsKeyed xs → IsKeyed (xs ++ x ∷ [])
  append-IsKeyed [] x b h = (refl, tt)
  append-IsKeyed (y ∷ xs) x b h =
      (ground (arith, any-append (is_row y.id) xs (x ∷ []), h.0, b.0), append-IsKeyed xs x b.1 h.1)

  has_sale_key_flip :
      (x y : Row A)
      → has_sale_key x.sale.pos_source_id x.sale.external_id y ≡ false
      → has_sale_key y.sale.pos_source_id y.sale.external_id x ≡ false
  unfolding has_sale_key
  has_sale_key_flip x y h = ground (
    arith,
    text_eq_iff x.sale.pos_source_id y.sale.pos_source_id,
    text_eq_iff y.sale.pos_source_id x.sale.pos_source_id,
    text_eq_iff x.sale.external_id y.sale.external_id,
    text_eq_iff y.sale.external_id x.sale.external_id,
  )

  append-IsOnce :
      (xs : List (Row A)) (x : Row A)
      → IsOnce xs
      → any (is_raw x.sale.raw_transaction_id) xs ≡ false
      → any (has_sale_key x.sale.pos_source_id x.sale.external_id) xs ≡ false
      → IsOnce (xs ++ x ∷ [])
  append-IsOnce [] x h new sale = (refl, refl, tt)
  append-IsOnce (y ∷ xs) x h new sale = (
    ground (arith, any-append (is_raw y.sale.raw_transaction_id) xs (x ∷ []), h.0),
    any-append (has_sale_key y.sale.pos_source_id y.sale.external_id) xs (x ∷ [])
        ∙ neither _ _ h.1 (has_sale_key_flip x y (first_false _ _ sale)),
    append-IsOnce xs x h.2 (second_false _ _ new) (second_false _ _ sale),
  )
    where
      first_false : (a b : Bool) → (a || b) ≡ false → a ≡ false
      first_false a b h = ground arith

      second_false : (a b : Bool) → (a || b) ≡ false → b ≡ false
      second_false a b h = ground arith

      neither : (a b : Bool) → a ≡ false → b ≡ false → (a || (b || false)) ≡ false
      neither a b h k = ground arith

  no_sale_key : (source : Text) (xs : List (Row A)) → any (has_sale_key source []) xs ≡ false
  unfolding has_sale_key
  no_sale_key source [] = refl
  no_sale_key source (x ∷ xs) =
      ground (arith, no_sale_key source xs, text_eq_iff x.sale.external_id [])

module _ {A E : Type 0} where
  pub record IsLedger (d : Database A E) : Type 0 where
    pub keyed : IsKeyed d.transactions
    pub below : IsBelow d.next_id d.transactions
    pub once : IsOnce d.transactions

  find_sale-any :
      (source external : Text) (d : Database A E)
      → find_sale source external d ≡ none
      → any (has_sale_key source external) d.transactions ≡ false
  unfolding find_sale
  find_sale-any source [] d e = no_sale_key source d.transactions
  find_sale-any source (c ∷ cs) d e = find_row-any (has_sale_key source (c ∷ cs)) d.transactions e

  insert_sale-IsLedger :
      (n : NormalizedTransaction A) (d : Database A E)
      → any (has_sale_key n.pos_source_id n.external_id) d.transactions ≡ false
      → IsLedger d
      → IsLedger (insert_sale n d)
  unfolding insert_sale clear_failure
  insert_sale-IsLedger n d new h =
      elim (Bool-cases (any (is_raw n.raw_transaction_id) d.transactions)) [
        | inl e ↦ rw e (record { keyed = h.keyed; below = h.below; once = h.once })
        | inr e ↦ rw e (record {
          keyed = append-IsKeyed d.transactions _ h.below h.keyed;
          below =
              All-append (λ (x : Row A). x.id < d.next_id + 1) d.transactions _
                (IsBelow-later d.next_id d.transactions h.below) (omega arith, tt);
          once = append-IsOnce d.transactions _ h.once e new;
        })
      ]

  pub find_sale-row :
      (source external : Text) (d : Database A E) (old : Row A)
      → find_sale source external d ≡ some old
      → find_row (has_sale_key source external) d.transactions ≡ some old
  unfolding find_sale
  find_sale-row source [] d old e = absurd (ground arith)
  find_sale-row source (c ∷ cs) d old e = e

  -- Where the sale is known, its row is rewritten in place.
  pub replace_sale-transactions :
      (n : NormalizedTransaction A) (d : Database A E) (old : Row A)
      → IsKeyed d.transactions
      → find_sale n.pos_source_id n.external_id d ≡ some old
      → (old.sale.raw_transaction_id == n.raw_transaction_id) ≡ false
      → (replace_sale n old d).1.transactions
        ≡ replace_first (has_sale_key n.pos_source_id n.external_id) (renew n) d.transactions
  unfolding replace_sale clear_failure supersede
  replace_sale-transactions n d old k e other = rw other (
      update_row-replace_first (has_sale_key n.pos_source_id n.external_id) (renew n) d.transactions
        old k (find_sale-row n.pos_source_id n.external_id d old e))

  replace_sale-IsLedger :
      (n : NormalizedTransaction A) (d : Database A E) (old : Row A)
      → find_sale n.pos_source_id n.external_id d ≡ some old
      → any (is_raw n.raw_transaction_id) d.transactions ≡ false
      → IsLedger d
      → IsLedger (replace_sale n old d).1
  unfolding replace_sale clear_failure supersede
  replace_sale-IsLedger n d old e new h =
      elim (Bool-cases (old.sale.raw_transaction_id == n.raw_transaction_id)) [
        | inl same ↦ rw same h
        | inr other ↦
            let p = has_sale_key n.pos_source_id n.external_id in
            let t : update_row old.id (renew n) d.transactions
                ≡ replace_first p (renew n) d.transactions =
              update_row-replace_first p (renew n) d.transactions old h.keyed
                (find_sale-row n.pos_source_id n.external_id d old e) in
            rw (other, t)
              (record {
                keyed = replace_first-IsKeyed p n d.transactions h.keyed;
                below = replace_first-IsBelow p n d.next_id d.transactions h.below;
                once = replace_first-IsOnce p n d.transactions h.once new;
              })
      ]

  -- Whatever row is written, no sale is counted twice: no raw row stands behind two transactions, and
  -- no two transactions of a source have one external id. The raw row is not the one behind another
  -- transaction, as for every row that the normalizer reads.
  pub write_normalized-IsLedger :
      (n : NormalizedTransaction A) (d : Database A E)
      → IsLedger d
      → any (is_raw n.raw_transaction_id) d.transactions ≡ false
      → IsLedger (write_normalized n d).1
  unfolding write_normalized
  write_normalized-IsLedger n d h new =
      elim (Option-cases (find_sale n.pos_source_id n.external_id d)) [
        | inl e ↦
            rw (e, write_normalized)
              (insert_sale-IsLedger n d (find_sale-any n.pos_source_id n.external_id d e) h)
        | inr (old, e) ↦ rw (e, write_normalized) (replace_sale-IsLedger n d old e new h)
      ]

  -- The raw row is another than the one behind the sale that is known.
  pub other_raw :
      (n : NormalizedTransaction A) (d : Database A E) (old : Row A)
      → find_sale n.pos_source_id n.external_id d ≡ some old
      → any (is_raw n.raw_transaction_id) d.transactions ≡ false
      → (old.sale.raw_transaction_id == n.raw_transaction_id) ≡ false
  other_raw n d old e new =
      found_fails (has_sale_key n.pos_source_id n.external_id) (is_raw n.raw_transaction_id)
        d.transactions old (find_sale-row n.pos_source_id n.external_id d old e) new

-- ===== src/Ledger/Sales.antt =====
-- internal/storage/storage.go, WriteNormalizedTransaction: the sales as a map from source and external id.
use fuelmind.Base.{
  ap, ◌∙◌, ◌≡◌, refl, Bool, true, false, not, ◌&&◌, Option, none, some, List, [], ◌∷◌, ◌++◌, inl,
  inr, arith, Text, text_eq, text_eq_iff, is_empty, ◌==◌, any, Bool-cases, Option-cases,
  if◌then◌else◌,
}
use mathlib.Core.Path.{subst, sym}
use fuelmind.Ledger.{
  NormalizedTransaction, Row, Database, is_raw, has_sale_key, find_row, renew, clear_failure,
  replace_sale, insert_sale, find_sale, write_normalized,
}
use fuelmind.Ledger.Rows.{replace_first, find_row-passes, some_inj}
use fuelmind.Ledger.Once.{IsLedger, replace_sale-transactions, find_sale-row, other_raw}

module _ {A : Type 0} where
  -- The values of a transaction.
  abbrev sale_of : Option (Row A) → Option (NormalizedTransaction A)
  sale_of none = none
  sale_of (some x) = some x.sale

  -- Is `n` a sale with this source and external id?
  abbrev pub is_sale : NormalizedTransaction A → Text → Text → Bool
  is_sale n source external =
      not (is_empty n.pos_source_id)
      && not (is_empty n.external_id)
      && text_eq n.pos_source_id source
      && text_eq n.external_id external

  find_row-append_new :
      (p : Row A → Bool) (xs : List (Row A)) (x : Row A)
      → find_row p xs ≡ none
      → find_row p (xs ++ x ∷ []) ≡ (if p x then some x else none)
  unfolding find_row
  find_row-append_new p [] x h = refl
  find_row-append_new p (y ∷ xs) x h = ground (arith, find_row-append_new p xs x)

  find_row-append_skip :
      (p : Row A → Bool) (xs : List (Row A)) (x : Row A)
      → p x ≡ false
      → find_row p (xs ++ x ∷ []) ≡ find_row p xs
  unfolding find_row
  find_row-append_skip p [] x h = rw h refl
  find_row-append_skip p (y ∷ xs) x h = ground (arith, find_row-append_skip p xs x)

  keys_agree :
      (s e s' e' : Text) (x : Row A)
      → has_sale_key s e x ≡ true
      → has_sale_key s' e' x ≡ true
      → (s ≡ s') × (e ≡ e') × (is_empty s ≡ false) × (is_empty e ≡ false)
  unfolding has_sale_key
  keys_agree s e s' e' x h k =
      let a : x.sale.pos_source_id ≡ s = (text_eq_iff x.sale.pos_source_id s).0 (ground arith) in
      let b : x.sale.external_id ≡ e = (text_eq_iff x.sale.external_id e).0 (ground arith) in
      let a' : x.sale.pos_source_id ≡ s' = (text_eq_iff x.sale.pos_source_id s').0 (ground arith) in
      let b' : x.sale.external_id ≡ e' = (text_eq_iff x.sale.external_id e').0 (ground arith) in
      let full : is_empty x.sale.pos_source_id ≡ false = ground arith in
      let full' : is_empty x.sale.external_id ≡ false = ground arith in
      (
        sym a ∙ a',
        sym b ∙ b',
        subst (λ t. is_empty t ≡ false) a full,
        subst (λ t. is_empty t ≡ false) b full',
      )

  renew_key :
      (n : NormalizedTransaction A) (s e : Text) (x : Row A)
      → has_sale_key s e (renew n x) ≡ has_sale_key s e x
  unfolding renew has_sale_key
  renew_key n s e x = refl

  find_row-replace_same :
      (n : NormalizedTransaction A) (s e : Text) (xs : List (Row A)) (old : Row A)
      → find_row (has_sale_key s e) xs ≡ some old
      → find_row (has_sale_key s e) (replace_first (has_sale_key s e) (renew n) xs)
        ≡ some (renew n old)
  unfolding find_row
  find_row-replace_same n s e [] old h = absurd (ground arith)
  find_row-replace_same n s e (x ∷ xs) old h = elim (Bool-cases (has_sale_key s e x)) [
    | inl t ↦ rw (t, renew_key n s e x, t) (ap some (ap (renew n) (some_inj (rw t at h))))
    | inr t ↦ rw (t, t) (find_row-replace_same n s e xs old (rw t at h))
  ]

  find_row-replace_other :
      (n : NormalizedTransaction A) (s e s' e' : Text) (xs : List (Row A))
      → ((x : Row A) → has_sale_key s' e' x ≡ true → has_sale_key s e x ≡ false)
      → find_row (has_sale_key s e) (replace_first (has_sale_key s' e') (renew n) xs)
        ≡ find_row (has_sale_key s e) xs
  unfolding find_row
  find_row-replace_other n s e s' e' [] h = refl
  find_row-replace_other n s e s' e' (x ∷ xs) h = elim (Bool-cases (has_sale_key s' e' x)) [
    | inl t ↦ rw (t, renew_key n s e x, h x t) refl
    | inr t ↦ rw (t, find_row-replace_other n s e s' e' xs h) refl
  ]

  renew_sale :
      (n : NormalizedTransaction A) (x : Row A)
      → has_sale_key n.pos_source_id n.external_id x ≡ true
      → (renew n x).sale ≡ n
  unfolding renew has_sale_key
  renew_sale n x h =
      let a : x.sale.pos_source_id ≡ n.pos_source_id =
        (text_eq_iff x.sale.pos_source_id n.pos_source_id).0 (ground arith) in
      let b : x.sale.external_id ≡ n.external_id =
        (text_eq_iff x.sale.external_id n.external_id).0 (ground arith) in
      ap (λ t. record n { pos_source_id = t; external_id = x.sale.external_id }) a
      ∙ ap (λ t. record n { external_id = t }) b

  is_sale_empty :
      (n : NormalizedTransaction A) (s e : Text) → is_empty e ≡ true → is_sale n s e ≡ false
  is_sale_empty n s e h = elim (Bool-cases (is_sale n s e)) [
    | inr k ↦ k
    | inl k ↦
        let b : n.external_id ≡ e = (text_eq_iff n.external_id e).0 (ground arith) in
        absurd (ground (arith, ap is_empty b))
  ]

  is_sale_self :
      (n : NormalizedTransaction A) (s e : Text)
      → s ≡ n.pos_source_id
      → e ≡ n.external_id
      → is_empty s ≡ false
      → is_empty e ≡ false
      → is_sale n s e ≡ true
  is_sale_self n s e a b f g = ground (
    arith,
    (text_eq_iff n.pos_source_id s).1 (sym a),
    (text_eq_iff n.external_id e).1 (sym b),
    ap is_empty a,
    ap is_empty b,
  )

  replaced_other :
      (n : NormalizedTransaction A) (s e : Text)
      → is_sale n s e ≡ false
      → (x : Row A) → has_sale_key n.pos_source_id n.external_id x ≡ true
      → has_sale_key s e x ≡ false
  replaced_other n s e t x h = elim (Bool-cases (has_sale_key s e x)) [
    | inr k ↦ k
    | inl k ↦
        let (a, b, f, g) = keys_agree s e n.pos_source_id n.external_id x k h in
        absurd (ground (arith, is_sale_self n s e a b f g))
  ]

module _ {A E : Type 0} where
  -- The map that the table stands for: what the station has sold, by source and external id.
  unfoldable pub sales : Database A E → Text → Text → Option (NormalizedTransaction A)
  unfolding find_sale
  sales d source external = sale_of (find_sale source external d)

  find_sale-none :
      (n : NormalizedTransaction A) (s : Text) (e : Text) (d : Database A E)
      → find_sale n.pos_source_id n.external_id d ≡ none
      → is_sale n s e ≡ true
      → find_row (has_sale_key s e) d.transactions ≡ none
  unfolding find_sale
  find_sale-none n s e d h k =
      let a : n.pos_source_id ≡ s = (text_eq_iff n.pos_source_id s).0 (ground arith) in
      let b : n.external_id ≡ e = (text_eq_iff n.external_id e).0 (ground arith) in
      let full : is_empty n.external_id ≡ false = ground arith in
      subst (λ t. find_row (has_sale_key t e) d.transactions ≡ none) a
        (subst (λ t. find_row (has_sale_key n.pos_source_id t) d.transactions ≡ none) b
          (rw full at h))

  insert_sale-sales :
      (n : NormalizedTransaction A) (d : Database A E) (s e : Text)
      → find_sale n.pos_source_id n.external_id d ≡ none
      → any (is_raw n.raw_transaction_id) d.transactions ≡ false
      → sales (insert_sale n d) s e ≡ (if is_sale n s e then some n else sales d s e)
  unfolding sales find_sale insert_sale clear_failure has_sale_key
  insert_sale-sales n d s e h new = elim (Bool-cases (is_empty e)) [
    | inl empty ↦ rw (empty, is_sale_empty n s e empty) refl
    | inr full ↦ elim (Bool-cases (is_sale n s e)) [
      | inl t ↦
          rw
            (
              new,
              full,
              t,
              find_row-append_new (has_sale_key s e) d.transactions
                  (record { id = d.next_id; sale = n }) (find_sale-none n s e d h t),
            )
            (rw t refl)
      | inr t ↦
          rw
            (
              new,
              full,
              t,
              find_row-append_skip (has_sale_key s e) d.transactions
                  (record { id = d.next_id; sale = n }) t,
            )
            refl
    ]
  ]

  replaced_same :
      (n : NormalizedTransaction A) (d : Database A E) (old : Row A)
      → IsLedger d
      → find_sale n.pos_source_id n.external_id d ≡ some old
      → (old.sale.raw_transaction_id == n.raw_transaction_id) ≡ false
      → is_empty n.external_id ≡ false
      → sales (replace_sale n old d).1 n.pos_source_id n.external_id ≡ some n
  unfolding sales find_sale
  replaced_same n d old h f other full =
      let row = find_sale-row n.pos_source_id n.external_id d old f in
      let key = has_sale_key n.pos_source_id n.external_id in
      rw
        (
          full,
          replace_sale-transactions n d old h.keyed f other,
          find_row-replace_same n n.pos_source_id n.external_id d.transactions old row,
        )
        (ap some (renew_sale n old (find_row-passes key d.transactions old row)))

  replace_sale-sales :
      (n : NormalizedTransaction A) (d : Database A E) (old : Row A) (s e : Text)
      → IsLedger d
      → find_sale n.pos_source_id n.external_id d ≡ some old
      → (old.sale.raw_transaction_id == n.raw_transaction_id) ≡ false
      → sales (replace_sale n old d).1 s e ≡ (if is_sale n s e then some n else sales d s e)
  unfolding sales find_sale
  replace_sale-sales n d old s e h f other = elim (Bool-cases (is_sale n s e)) [
    | inl t ↦
        let a : n.pos_source_id ≡ s = (text_eq_iff n.pos_source_id s).0 (ground arith) in
        let b : n.external_id ≡ e = (text_eq_iff n.external_id e).0 (ground arith) in
        rw t (
          subst (λ x. sales (replace_sale n old d).1 x e ≡ some n) a
            (subst (λ x. sales (replace_sale n old d).1 n.pos_source_id x ≡ some n) b
              (replaced_same n d old h f other (ground arith))))
    | inr t ↦ elim (Bool-cases (is_empty e)) [
      | inl empty ↦ rw (t, empty) refl
      | inr full ↦
          rw
            (
              t,
              full,
              replace_sale-transactions n d old h.keyed f other,
              find_row-replace_other n s e n.pos_source_id n.external_id d.transactions
                  (replaced_other n s e t),
            )
            refl
    ]
  ]

  -- Writing a row is writing an entry of a map: the sale with its source and external id is now this
  -- row's, whatever it was before, and every other sale stays as it is. The raw row is not the one
  -- behind a transaction that is there.
  pub write_normalized-sales :
      (n : NormalizedTransaction A) (d : Database A E) (source external : Text)
      → IsLedger d
      → any (is_raw n.raw_transaction_id) d.transactions ≡ false
      → sales (write_normalized n d).1 source external
        ≡ (if is_sale n source external then some n else sales d source external)
  unfolding write_normalized
  write_normalized-sales n d source external h new =
      elim (Option-cases (find_sale n.pos_source_id n.external_id d)) [
        | inl e ↦ rw (e, write_normalized) (insert_sale-sales n d source external e new)
        | inr (old, e) ↦
            rw (e, write_normalized)
              (replace_sale-sales n d old source external h e (other_raw n d old e new))
      ]

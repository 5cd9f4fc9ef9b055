-- ===== src/Ledger/Resolved.antt =====
-- internal/storage/storage.go: a raw row that is normalized or superseded stays so.
use fuelmind.Base.{
  ℕ, ◌≡◌, refl, Bool, true, false, not, ◌||◌, some, List, [], ◌∷◌, inl, inr, arith, ◌==◌, ==_refl,
  any, any-append, keep_if, Bool-cases, Option-cases,
}
use fuelmind.Ledger.{
  NormalizedTransaction, Row, Superseded, Database, is_raw, has_sale_key, renew, clear_failure,
  supersede, replace_sale, insert_sale, find_sale, write_normalized, is_resolved, update_row,
}
use fuelmind.Ledger.Rows.{
  replace_first, replace_first_lacks, replace_first_keeps, replace_first_adds,
  update_row-replace_first,
}
use fuelmind.Ledger.Once.{IsLedger, find_sale-row, other_raw}

abbrev is_old : ℕ → Superseded → Bool
is_old i x = x.raw_transaction_id == i

any_old-supersede :
    (i old : ℕ) (xs : List Superseded)
    → any (is_old i) xs ≡ true
    → (old == i) ≡ false
    → any (is_old i) (keep_if (λ x. not (is_old old x)) xs) ≡ true
any_old-supersede i old [] h ne = ground arith
any_old-supersede i old (x ∷ xs) h ne = ground (arith, any_old-supersede i old xs)

or_right : (a b : Bool) → b ≡ true → (a || (false || b)) ≡ true
or_right a b h = ground arith

right_true : (a b : Bool) → a ≡ false → (a || b) ≡ true → b ≡ true
right_true a b f h = ground arith

module _ {A E : Type 0} where
  insert_sale_resolves :
      (n : NormalizedTransaction A) (d : Database A E)
      → is_resolved n.raw_transaction_id (insert_sale n d) ≡ true
  unfolding insert_sale is_resolved clear_failure
  insert_sale_resolves n d = elim (Bool-cases (any (is_raw n.raw_transaction_id) d.transactions)) [
    | inl e ↦ rw (e, e) refl
    | inr e ↦
        rw
          (
            e,
            any-append (is_raw n.raw_transaction_id) d.transactions _,
            e,
            ==_refl n.raw_transaction_id,
          )
          refl
  ]

  insert_sale_keeps :
      (n : NormalizedTransaction A) (d : Database A E) (i : ℕ)
      → is_resolved i d ≡ true
      → is_resolved i (insert_sale n d) ≡ true
  unfolding insert_sale is_resolved clear_failure
  insert_sale_keeps n d i h = elim (Bool-cases (any (is_raw n.raw_transaction_id) d.transactions)) [
    | inl e ↦ rw e h
    | inr e ↦ rw (e, any-append (is_raw i) d.transactions _) (ground arith)
  ]

  module _ (n : NormalizedTransaction A) (d : Database A E) (old : Row A) (h : IsLedger d)
      (found : find_sale n.pos_source_id n.external_id d ≡ some old) where
    rewritten :
        update_row old.id (renew n) d.transactions
        ≡ replace_first (has_sale_key n.pos_source_id n.external_id) (renew n) d.transactions
    rewritten =
        update_row-replace_first (has_sale_key n.pos_source_id n.external_id) (renew n)
          d.transactions old h.keyed (find_sale-row n.pos_source_id n.external_id d old found)

    replace_sale_keeps :
        (i : ℕ) → is_resolved i d ≡ true → is_resolved i (replace_sale n old d).1 ≡ true
    unfolding replace_sale is_resolved clear_failure supersede
    replace_sale_keeps i r =
        elim (Bool-cases (old.sale.raw_transaction_id == n.raw_transaction_id)) [
          | inl e ↦ rw e r
          | inr e ↦ elim (Bool-cases (old.sale.raw_transaction_id == i)) [
            | inl f ↦ rw (e, f) (or_true _)
            | inr f ↦
                rw (e, rewritten, f)
                  (elim (Bool-cases (any (is_raw i) d.transactions)) [
                    | inl g ↦ ground (
                      arith,
                      replace_first_keeps (has_sale_key n.pos_source_id n.external_id) n i
                          d.transactions old
                          (find_sale-row n.pos_source_id n.external_id d old found) f g,
                    )
                    | inr g ↦ or_right _ _ (
                        any_old-supersede i old.sale.raw_transaction_id d.superseded
                          (right_true _ _ g r) f)
                  ])
          ]
        ]
      where
        or_true : (b : Bool) → (b || true) ≡ true
        or_true b = ground arith

    replace_sale_resolves :
        (old.sale.raw_transaction_id == n.raw_transaction_id) ≡ false
        → is_resolved n.raw_transaction_id (replace_sale n old d).1 ≡ true
    unfolding replace_sale is_resolved clear_failure supersede
    replace_sale_resolves e =
        rw
          (
            e,
            rewritten,
            replace_first_adds (has_sale_key n.pos_source_id n.external_id) n d.transactions old
                (find_sale-row n.pos_source_id n.external_id d old found),
          )
          refl

  -- Whatever is written, a raw row that is resolved stays resolved.
  pub write_normalized_keeps :
      (n : NormalizedTransaction A) (d : Database A E) (i : ℕ)
      → IsLedger d
      → is_resolved i d ≡ true
      → is_resolved i (write_normalized n d).1 ≡ true
  unfolding write_normalized
  write_normalized_keeps n d i h r =
      elim (Option-cases (find_sale n.pos_source_id n.external_id d)) [
        | inl e ↦ rw (e, write_normalized) (insert_sale_keeps n d i r)
        | inr (old, e) ↦ rw (e, write_normalized) (replace_sale_keeps n d old h e i r)
      ]

  -- And the raw row of what is written is resolved.
  pub write_normalized_resolves :
      (n : NormalizedTransaction A) (d : Database A E)
      → IsLedger d
      → any (is_raw n.raw_transaction_id) d.transactions ≡ false
      → is_resolved n.raw_transaction_id (write_normalized n d).1 ≡ true
  unfolding write_normalized
  write_normalized_resolves n d h new =
      elim (Option-cases (find_sale n.pos_source_id n.external_id d)) [
        | inl e ↦ rw (e, write_normalized) (insert_sale_resolves n d)
        | inr (old, e) ↦
            rw (e, write_normalized) (replace_sale_resolves n d old h e (other_raw n d old e new))
      ]

  -- No transaction appears for another raw row.
  pub write_normalized_lacks :
      (n : NormalizedTransaction A) (d : Database A E) (i : ℕ)
      → IsLedger d
      → (n.raw_transaction_id == i) ≡ false
      → any (is_raw i) d.transactions ≡ false
      → any (is_raw i) (write_normalized n d).1.transactions ≡ false
  unfolding write_normalized insert_sale clear_failure replace_sale supersede
  write_normalized_lacks n d i h ne new =
      elim (Option-cases (find_sale n.pos_source_id n.external_id d)) [
        | inl e ↦ elim (Bool-cases (any (is_raw n.raw_transaction_id) d.transactions)) [
          | inl f ↦ rw (e, write_normalized, f) new
          | inr f ↦
              rw (e, write_normalized, f, any-append (is_raw i) d.transactions _, new, ne) refl
        ]
        | inr (old, e) ↦ elim (Bool-cases (old.sale.raw_transaction_id == n.raw_transaction_id)) [
          | inl f ↦ rw (e, write_normalized, f) new
          | inr f ↦
              rw (e, write_normalized, f, rewritten n d old h e)
                (replace_first_lacks (has_sale_key n.pos_source_id n.external_id) n i d.transactions
                  new ne)
        ]
      ]

  pub write_normalized-raws :
      (n : NormalizedTransaction A) (d : Database A E) → (write_normalized n d).1.raws ≡ d.raws
  unfolding write_normalized insert_sale clear_failure replace_sale supersede
  write_normalized-raws n d = elim (Option-cases (find_sale n.pos_source_id n.external_id d)) [
    | inl e ↦ elim (Bool-cases (any (is_raw n.raw_transaction_id) d.transactions)) [
      | inl f ↦ rw (e, write_normalized, f) refl
      | inr f ↦ rw (e, write_normalized, f) refl
    ]
    | inr (old, e) ↦ elim (Bool-cases (old.sale.raw_transaction_id == n.raw_transaction_id)) [
      | inl f ↦ rw (e, write_normalized, f) refl
      | inr f ↦ rw (e, write_normalized, f) refl
    ]
  ]

-- ===== src/Ledger/Normalizer/Rerun.antt =====
-- internal/normalizer/normalizer.go, Run: what a run resolves, and that running again changes no sale.
use fuelmind.Base.{
  ◌∙◌, ℕ, ◌≡◌, refl, true, false, List, [], ◌∷◌, ◌⊎◌, inl, inr, arith, ◌==◌, any, All, Contains,
}
use mathlib.Core.Path.{subst, sym}
use fuelmind.Ledger.{
  Raw, NormalizedTransaction, Database, is_raw, is_resolved, write_normalized,
  record_normalize_error,
}
use fuelmind.Ledger.Once.{IsLedger, write_normalized-IsLedger}
use fuelmind.Ledger.Resolved.{
  write_normalized_keeps, write_normalized_resolves, write_normalized_lacks, write_normalized-raws,
}
use fuelmind.Ledger.Normalizer.{NormalizeError, Result, ok, err, handle_row, handle_rows}

pub Result-cases :
    {B : Type 0} (x : Result B) → ((b : B) × (x ≡ ok b)) ⊎ ((e : NormalizeError) × (x ≡ err e))
Result-cases (ok b) = inl (b, refl)
Result-cases (err e) = inr (e, refl)

-- No raw row of the list stands twice in it.
abbrev pub AreDistinct : List Raw → Type 0
AreDistinct [] = Unit {0}
AreDistinct (r ∷ rs) = (any (λ x. x.id == r.id) rs ≡ false) × AreDistinct rs

module _ {A : Type 0} (normalize_one : Raw → Result (NormalizedTransaction A))
    (own : (r : Raw) (n : NormalizedTransaction A)
      → normalize_one r ≡ ok n
      → n.raw_transaction_id ≡ r.id) where
  abbrev Sales : Type 0
  Sales = Database A NormalizeError

  -- Behind no transaction.
  abbrev IsFresh : Sales → Raw → Type 0
  IsFresh d r = any (is_raw r.id) d.transactions ≡ false

  handle_row-IsLedger :
      (r : Raw) (d : Sales) → IsLedger d → IsFresh d r → IsLedger (handle_row normalize_one r d)
  unfolding handle_row record_normalize_error
  handle_row-IsLedger r d h new = elim (Result-cases (normalize_one r)) [
    | inr (e, f) ↦ rw (f, handle_row) (record { keyed = h.keyed; below = h.below; once = h.once })
    | inl (n, f) ↦
        rw (f, handle_row)
          (write_normalized-IsLedger n d h
            (subst (λ i. any (is_raw i) d.transactions ≡ false) (sym (own r n f)) new))
  ]

  handle_row_lacks :
      (r : Raw) (d : Sales) (i : ℕ)
      → IsLedger d
      → (r.id == i) ≡ false
      → any (is_raw i) d.transactions ≡ false
      → any (is_raw i) (handle_row normalize_one r d).transactions ≡ false
  unfolding handle_row record_normalize_error
  handle_row_lacks r d i h ne new = elim (Result-cases (normalize_one r)) [
    | inr (e, f) ↦ rw (f, handle_row) new
    | inl (n, f) ↦
        rw (f, handle_row)
          (write_normalized_lacks n d i h (subst (λ j. (j == i) ≡ false) (sym (own r n f)) ne) new)
  ]

  handle_row_keeps :
      (r : Raw) (d : Sales) (i : ℕ)
      → IsLedger d
      → is_resolved i d ≡ true
      → is_resolved i (handle_row normalize_one r d) ≡ true
  unfolding handle_row record_normalize_error is_resolved
  handle_row_keeps r d i h new = elim (Result-cases (normalize_one r)) [
    | inr (e, f) ↦ rw (f, handle_row) new
    | inl (n, f) ↦ rw (f, handle_row) (write_normalized_keeps n d i h new)
  ]

  handle_row-raws : (r : Raw) (d : Sales) → (handle_row normalize_one r d).raws ≡ d.raws
  unfolding handle_row record_normalize_error
  handle_row-raws r d = elim (Result-cases (normalize_one r)) [
    | inr (e, f) ↦ rw (f, handle_row) refl
    | inl (n, f) ↦ rw (f, handle_row) (write_normalized-raws n d)
  ]

  handle_row_resolves :
      (r : Raw) (n : NormalizedTransaction A) (d : Sales)
      → IsLedger d
      → IsFresh d r
      → normalize_one r ≡ ok n
      → is_resolved r.id (handle_row normalize_one r d) ≡ true
  unfolding handle_row
  handle_row_resolves r n d h new f =
      rw (f, handle_row)
        (subst (λ i. is_resolved i (write_normalized n d).1 ≡ true) (own r n f)
          (write_normalized_resolves n d h
            (subst (λ i. any (is_raw i) d.transactions ≡ false) (sym (own r n f)) new)))

  handle_row-IsFresh :
      (r : Raw) (rs : List Raw) (d : Sales)
      → IsLedger d
      → any (λ x. x.id == r.id) rs ≡ false
      → All (IsFresh d) rs
      → All (IsFresh (handle_row normalize_one r d)) rs
  handle_row-IsFresh r [] d h ne all = tt
  handle_row-IsFresh r (x ∷ xs) d h ne all = (
    handle_row_lacks r d x.id h (ground arith) all.0,
    handle_row-IsFresh r xs d h (ground arith) all.1,
  )

  pub handle_rows-IsLedger :
      (rs : List Raw) (d : Sales)
      → AreDistinct rs
      → All (IsFresh d) rs
      → IsLedger d
      → IsLedger (handle_rows normalize_one rs d)
  unfolding handle_rows
  handle_rows-IsLedger [] d k all h = h
  handle_rows-IsLedger (r ∷ rs) d k all h =
      handle_rows-IsLedger rs (handle_row normalize_one r d) k.1
        (handle_row-IsFresh r rs d h k.0 all.1) (handle_row-IsLedger r d h all.0)

  pub handle_rows_keeps :
      (rs : List Raw) (d : Sales) (i : ℕ)
      → AreDistinct rs
      → All (IsFresh d) rs
      → IsLedger d
      → is_resolved i d ≡ true
      → is_resolved i (handle_rows normalize_one rs d) ≡ true
  unfolding handle_rows
  handle_rows_keeps [] d i k all h s = s
  handle_rows_keeps (r ∷ rs) d i k all h s =
      handle_rows_keeps rs (handle_row normalize_one r d) i k.1
        (handle_row-IsFresh r rs d h k.0 all.1) (handle_row-IsLedger r d h all.0)
        (handle_row_keeps r d i h s)

  pub handle_rows_resolves :
      (rs : List Raw) (d : Sales) (r : Raw) (n : NormalizedTransaction A)
      → AreDistinct rs
      → All (IsFresh d) rs
      → IsLedger d
      → Contains r rs
      → normalize_one r ≡ ok n
      → is_resolved r.id (handle_rows normalize_one rs d) ≡ true
  unfolding handle_rows
  handle_rows_resolves [] d r n k all h m f = absurd m
  handle_rows_resolves (x ∷ xs) d r n k all h (inl e) f =
      handle_rows_keeps xs (handle_row normalize_one x d) r.id k.1
        (handle_row-IsFresh x xs d h k.0 all.1) (handle_row-IsLedger x d h all.0)
        (subst (λ y. is_resolved y.id (handle_row normalize_one x d) ≡ true) (sym e)
          (handle_row_resolves x n d h all.0 (subst (λ y. normalize_one y ≡ ok n) e f)))
  handle_rows_resolves (x ∷ xs) d r n k all h (inr m) f =
      handle_rows_resolves xs (handle_row normalize_one x d) r n k.1
        (handle_row-IsFresh x xs d h k.0 all.1) (handle_row-IsLedger x d h all.0) m f

  pub handle_rows-raws :
      (rs : List Raw) (d : Sales) → (handle_rows normalize_one rs d).raws ≡ d.raws
  unfolding handle_rows
  handle_rows-raws [] d = refl
  handle_rows-raws (r ∷ rs) d =
      handle_rows-raws rs (handle_row normalize_one r d) ∙ handle_row-raws r d

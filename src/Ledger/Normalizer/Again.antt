-- ===== src/Ledger/Normalizer/Again.antt =====
-- internal/normalizer/normalizer.go, Run on the rows that UnnormalizedTransactions selects.
use fuelmind.Base.{
  ℕ, zero, suc, ◌≡◌, refl, Bool, true, false, not, List, [], ◌∷◌, inl, inr, arith, ◌==◌, any,
  keep_if, take, All, Bool-cases, Contains,
}
use mathlib.Core.Path.{subst, sym}
use fuelmind.Ledger.{
  Raw, NormalizedTransaction, Database, is_raw, is_resolved, unnormalized_transactions,
  record_normalize_error,
}
use fuelmind.Ledger.Once.{IsLedger}
use fuelmind.Ledger.Normalizer.{NormalizeError, Result, ok, err, handle_row, handle_rows, run_once}
use fuelmind.Ledger.Normalizer.Rerun.{
  AreDistinct, Result-cases, handle_rows-IsLedger, handle_rows_resolves, handle_rows_keeps,
  handle_rows-raws,
}

any_id-keep_if :
    (i : ℕ) (p : Raw → Bool) (rs : List Raw)
    → any (λ x. x.id == i) rs ≡ false
    → any (λ x. x.id == i) (keep_if p rs) ≡ false
any_id-keep_if i p [] h = refl
any_id-keep_if i p (r ∷ rs) h = ground (arith, any_id-keep_if i p rs (ground arith))

keep_if-AreDistinct : (p : Raw → Bool) (rs : List Raw) → AreDistinct rs → AreDistinct (keep_if p rs)
keep_if-AreDistinct p [] h = h
keep_if-AreDistinct p (r ∷ rs) h =
    ground (arith, any_id-keep_if r.id p rs h.0, keep_if-AreDistinct p rs h.1)

any_id-take :
    (i k : ℕ) (rs : List Raw)
    → any (λ x. x.id == i) rs ≡ false
    → any (λ x. x.id == i) (take k rs) ≡ false
any_id-take i zero rs h = refl
any_id-take i (suc k) [] h = refl
any_id-take i (suc k) (r ∷ rs) h = ground (arith, any_id-take i k rs (ground arith))

take-AreDistinct : (k : ℕ) (rs : List Raw) → AreDistinct rs → AreDistinct (take k rs)
take-AreDistinct zero rs h = tt
take-AreDistinct (suc k) [] h = tt
take-AreDistinct (suc k) (r ∷ rs) h = (any_id-take r.id k rs h.0, take-AreDistinct k rs h.1)

All-take {κ} : (P : Raw → Type κ) (k : ℕ) (rs : List Raw) → All P rs → All P (take k rs)
All-take P zero rs h = tt
All-take P (suc k) [] h = tt
All-take P (suc k) (r ∷ rs) h = (h.0, All-take P k rs h.1)

Contains-keep_if :
    (p : Raw → Bool) (r : Raw) (rs : List Raw)
    → Contains r rs
    → p r ≡ true
    → Contains r (keep_if p rs)
Contains-keep_if p r (x ∷ xs) (inl e) h = rw (subst (λ y. p y ≡ true) e h) (inl e)
Contains-keep_if p r (x ∷ xs) (inr m) h = elim (Bool-cases (p x)) [
  | inl t ↦ rw t (inr (Contains-keep_if p r xs m h))
  | inr t ↦ rw t (Contains-keep_if p r xs m h)
]
Contains-keep_if p r [] m h = absurd m

-- The transactions, and what is superseded, are the same.
abbrev pub SameSales : {A E : Type 0} → Database A E → Database A E → Type 0
SameSales d t = (t.transactions ≡ d.transactions) × (t.superseded ≡ d.superseded)

module _ {A : Type 0} (normalize_one : Raw → Result (NormalizedTransaction A))
    (own : (r : Raw) (n : NormalizedTransaction A)
      → normalize_one r ≡ ok n
      → n.raw_transaction_id ≡ r.id) where
  abbrev Sales : Type 0
  Sales = Database A NormalizeError

  abbrev is_open : Sales → Raw → Bool
  is_open d r = not (is_resolved r.id d)

  abbrev Fresh : Sales → Raw → Type 0
  Fresh d r = any (is_raw r.id) d.transactions ≡ false

  open-Fresh : (d : Sales) (r : Raw) → is_open d r ≡ true → Fresh d r
  unfolding is_resolved
  open-Fresh d r h = ground arith

  keep_if-Fresh : (d : Sales) (rs : List Raw) → All (Fresh d) (keep_if (is_open d) rs)
  keep_if-Fresh d [] = tt
  keep_if-Fresh d (r ∷ rs) = elim (Bool-cases (is_open d r)) [
    | inl e ↦ rw e (open-Fresh d r e, keep_if-Fresh d rs)
    | inr e ↦ rw e (keep_if-Fresh d rs)
  ]

  -- A run of the normalizer never counts a sale twice, whatever its limit.
  run_once-IsLedger :
      (limit : ℕ) (d : Sales)
      → AreDistinct d.raws
      → IsLedger d
      → IsLedger (run_once normalize_one limit d)
  unfolding run_once unnormalized_transactions
  run_once-IsLedger limit d k h =
      let rows = keep_if (is_open d) d.raws in
      let distinct = keep_if-AreDistinct (is_open d) d.raws k in
      elim (Bool-cases (limit == 0)) [
        | inl e ↦
            rw e (handle_rows-IsLedger normalize_one own rows d distinct (keep_if-Fresh d d.raws) h)
        | inr e ↦ rw e (
            handle_rows-IsLedger normalize_one own (take limit rows) d
              (take-AreDistinct limit rows distinct)
              (All-take (Fresh d) limit rows (keep_if-Fresh d d.raws)) h)
      ]

  -- Without a limit, every row that can be normalized is resolved.
  run_once_resolves :
      (d : Sales)
      → AreDistinct d.raws
      → IsLedger d
      → (r : Raw) (n : NormalizedTransaction A) → Contains r d.raws
      → normalize_one r ≡ ok n
      → is_resolved r.id (run_once normalize_one 0 d) ≡ true
  unfolding run_once unnormalized_transactions
  run_once_resolves d k h r n m f =
      let rows = keep_if (is_open d) d.raws in
      let distinct = keep_if-AreDistinct (is_open d) d.raws k in
      elim (Bool-cases (is_resolved r.id d)) [
        | inl e ↦
            handle_rows_keeps normalize_one own rows d r.id distinct (keep_if-Fresh d d.raws) h e
        | inr e ↦
            handle_rows_resolves normalize_one own rows d r n distinct (keep_if-Fresh d d.raws) h
              (Contains-keep_if (is_open d) r d.raws m (rw e refl)) f
      ]

  abbrev Fails : Raw → Type 0
  Fails r = (e : NormalizeError) × (normalize_one r ≡ err e)

  keep_if-Fails :
      (d : Sales) (rs : List Raw)
      → ((r : Raw) (n : NormalizedTransaction A)
          → Contains r rs
          → normalize_one r ≡ ok n
          → is_resolved r.id d ≡ true)
      → All Fails (keep_if (is_open d) rs)
  keep_if-Fails d [] h = tt
  keep_if-Fails d (r ∷ rs) h =
      let rest = keep_if-Fails d rs (λ x n m f. h x n (inr m) f) in
      elim (Result-cases (normalize_one r)) [
        | inl (n, f) ↦ rw (h r n (inl refl) f) rest
        | inr (e, f) ↦ elim (Bool-cases (is_resolved r.id d)) [
          | inl t ↦ rw t rest
          | inr t ↦ rw t ((e, f), rest)
        ]
      ]

  handle_row_failing :
      (r : Raw) (e : NormalizeError) (d : Sales)
      → normalize_one r ≡ err e
      → handle_row normalize_one r d ≡ record_normalize_error r.id e d
  unfolding handle_row
  handle_row_failing r e d f = rw (f, handle_row) refl

  handle_rows_failing :
      (rs : List Raw) (d : Sales) → All Fails rs → SameSales d (handle_rows normalize_one rs d)
  unfolding handle_rows record_normalize_error
  handle_rows_failing [] d h = (refl, refl)
  handle_rows_failing (r ∷ rs) d h =
      subst (λ x. SameSales d (handle_rows normalize_one rs x))
        (sym (handle_row_failing r (h.0).0 d (h.0).1))
        (handle_rows_failing rs (record_normalize_error r.id (h.0).0 d) h.1)

  run_again :
      (d t : Sales)
      → t.raws ≡ d.raws
      → ((r : Raw) (n : NormalizedTransaction A)
          → Contains r d.raws
          → normalize_one r ≡ ok n
          → is_resolved r.id t ≡ true)
      → SameSales t (run_once normalize_one 0 t)
  unfolding run_once unnormalized_transactions
  run_again d t same done_now =
      handle_rows_failing (keep_if (is_open t) t.raws) t
        (keep_if-Fails t t.raws (λ r n m f. done_now r n (subst (Contains r) same m) f))

  run_once-raws : (d : Sales) → (run_once normalize_one 0 d).raws ≡ d.raws
  unfolding run_once unnormalized_transactions
  run_once-raws d = handle_rows-raws normalize_one own (keep_if (is_open d) d.raws) d

  -- A run without a limit resolves every raw row that can be normalized, counts no sale twice, and the
  -- run after it changes neither the transactions nor what is superseded.
  pub run_once_idempotent :
      (d : Sales)
      → AreDistinct d.raws
      → IsLedger d
      → IsLedger (run_once normalize_one 0 d)
        × ((r : Raw) (n : NormalizedTransaction A)
            → Contains r d.raws
            → normalize_one r ≡ ok n
            → is_resolved r.id (run_once normalize_one 0 d) ≡ true)
        × SameSales
            (run_once normalize_one 0 d)
            (run_once normalize_one 0 (run_once normalize_one 0 d))
  run_once_idempotent d k h = (
    run_once-IsLedger 0 d k h,
    run_once_resolves d k h,
    run_again d (run_once normalize_one 0 d) (run_once-raws d) (run_once_resolves d k h),
  )

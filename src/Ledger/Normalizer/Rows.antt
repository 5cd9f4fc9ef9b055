-- ===== src/Ledger/Normalizer/Rows.antt =====
-- internal/normalizer/normalizer.go, normalizeRow: the identity of the row that it makes.
use fuelmind.Base.{◌≡◌, arith, true, Option, List, [], Text, Contains}
use mathlib.Core.Path.{subst}
use fuelmind.Ledger.{Raw, NormalizedTransaction, Database, is_resolved}
use fuelmind.Ledger.Once.{IsLedger}
use fuelmind.Ledger.Normalizer.{
  Float, Clock, Result, ok, err, NormalizeError, normalize_row, reload_aliases, run,
}
use fuelmind.Ledger.Normalizer.Rerun.{AreDistinct}
use fuelmind.Ledger.Normalizer.Again.{SameSales, run_once_idempotent}

abbrev IsOf : {A : Type 0} → Raw → Result (NormalizedTransaction A) → Type 0
IsOf r (ok n) = (n.raw_transaction_id ≡ r.id) × (n.pos_source_id ≡ r.pos_source_id)
IsOf r (err e) = Unit

module _ (f : Float) (c : Clock) (unmarshal : Text → Option (List (Text × Text)))
    (aliases : List (Text × Text)) where
  normalize_row-IsOf : (r : Raw) → IsOf r (normalize_row f c unmarshal aliases r)
  unfolding normalize_row
  normalize_row-IsOf r = ground arith

  pub normalize_row-raw :
      (r : Raw) (n : NormalizedTransaction f.Amount)
      → normalize_row f c unmarshal aliases r ≡ ok n
      → n.raw_transaction_id ≡ r.id
  normalize_row-raw r n e = (subst (IsOf r) e (normalize_row-IsOf r)).0

-- A run without a limit resolves every raw row that can be normalized, counts no sale twice, and the run
-- after it changes neither the transactions nor what is superseded. The raw rows have different ids.
pub run_idempotent :
    (f : Float) (c : Clock) (unmarshal : Text → Option (List (Text × Text)))
    (table : List (Text × Text)) (d : Database f.Amount NormalizeError)
    → AreDistinct d.raws
    → IsLedger d
    → IsLedger (run f c unmarshal table 0 d)
      × ((r : Raw) (n : NormalizedTransaction f.Amount)
          → Contains r d.raws
          → normalize_row f c unmarshal (reload_aliases table []) r ≡ ok n
          → is_resolved r.id (run f c unmarshal table 0 d) ≡ true)
      × SameSales
          (run f c unmarshal table 0 d)
          (run f c unmarshal table 0 (run f c unmarshal table 0 d))
unfolding run
run_idempotent f c unmarshal table d =
    run_once_idempotent (normalize_row f c unmarshal (reload_aliases table []))
      (normalize_row-raw f c unmarshal (reload_aliases table [])) d

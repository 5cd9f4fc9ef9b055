-- ===== src/Ledger/Tests.antt =====
-- A sale that the point of sale sends twice, the second time with a correction.
use fuelmind.Base.{
  ◌≡◌, refl, true, false, Option, none, some, List, [], ◌∷◌, Text, codes, text_eq, ℕ, ◌*◌, leb,
  Contains, arith, if◌then◌else◌,
}
use fuelmind.Ledger.{Raw, NormalizedTransaction, Database, write_raw, write_normalized, is_resolved}
use fuelmind.Ledger.Ingest.{IsIngested, write_raw_again}
use fuelmind.Ledger.Once.{IsLedger}
use fuelmind.Ledger.Sales.{sales, is_sale, write_normalized-sales}
use fuelmind.Ledger.Normalizer.{
  Float, Clock, NormalizeError, ok, normalize_row, reload_aliases, run,
}
use fuelmind.Ledger.Normalizer.Again.{SameSales}
use fuelmind.Ledger.Normalizer.Rows.{run_idempotent}

abbrev empty : Database ℕ NormalizeError
empty = record {
  raws = [];
  next_raw = 1;
  transactions = [];
  next_id = 1;
  superseded = [];
  failures = [];
}

abbrev exported : List (Text × Text)
exported = (codes "first", codes "h1") ∷ (codes "corrected", codes "h2") ∷ []

abbrev ingested : Database ℕ NormalizeError
ingested = (write_raw (codes "b1") (codes "pos") exported empty).1

write_raw_again_example :
    IsIngested ingested × (write_raw (codes "b2") (codes "pos") exported ingested ≡ (0, ingested))
write_raw_again_example =
    write_raw_again (codes "b1") (codes "pos") (codes "b2") (codes "pos") exported empty
      (record { distinct = tt; older = tt; hashed = tt })

abbrev sale : ℕ → ℕ → NormalizedTransaction ℕ
sale raw total = record {
  raw_transaction_id = raw;
  pos_source_id = codes "pos";
  external_id = codes "X-1";
  product_code = codes "DIESEL";
  quantity_liters = 10;
  unit_price = 250;
  total_amount = total;
  payment_method = codes "CASH";
  customer_phone = [];
  pump_id = [];
  attendant = [];
  transaction_time = codes "2026-06-15T10:00:00+05:00";
  flags = [];
}

abbrev sold : Database ℕ NormalizeError
sold = record empty { transactions = record { id = 1; sale = sale 1 2500 } ∷ []; next_id = 2 }

sold-IsLedger : IsLedger sold
sold-IsLedger = record { keyed = (refl, tt); below = (omega arith, tt); once = (refl, refl, tt) }

write_normalized-sales_example :
    sales (write_normalized (sale 2 2600) sold).1 (codes "pos") (codes "X-1") ≡ (
      if is_sale (sale 2 2600) (codes "pos") (codes "X-1")
      then some (sale 2 2600)
      else sales sold (codes "pos") (codes "X-1"))
write_normalized-sales_example =
    write_normalized-sales (sale 2 2600) sold (codes "pos") (codes "X-1") sold-IsLedger refl

-- Amounts are whole numbers here, and every text is one.
abbrev whole : Float
whole = record {
  Amount = ℕ;
  parse_float = λ t. some 10;
  is_nan_or_inf = λ a. false;
  is_negative = λ a. false;
  mul = λ a b. a * b;
  sub = λ a b. a;
  abs = λ a. a;
  larger = λ a b. a;
  le = λ a b. leb a b;
  one = 1;
  half_percent = 0;
}

abbrev noon : Clock
noon = record {
  Instant = ℕ;
  parse_rfc3339 = λ t. some 12;
  parse_in_location = λ layout t. none;
  format_local = λ t. codes "2026-06-15T12:00:00+05:00";
}

abbrev columns : Text → Option (List (Text × Text))
columns t = some (
    (codes "product_alias", codes "HSD")
    ∷ (codes "quantity_liters", codes "10")
    ∷ (codes "unit_price", codes "10")
    ∷ (codes "total_amount", codes "10")
    ∷ (codes "occurred_at", codes "noon")
    ∷ (codes "external_id", codes "X-1")
    ∷ [])

abbrev table : List (Text × Text)
table = (codes "HSD", codes "DIESEL") ∷ []

run_idempotent_example :
    IsLedger (run whole noon columns table 0 ingested)
    × ((r : Raw) (n : NormalizedTransaction ℕ)
        → Contains r ingested.raws
        → normalize_row whole noon columns (reload_aliases table []) r ≡ ok n
        → is_resolved r.id (run whole noon columns table 0 ingested) ≡ true)
    × SameSales
        (run whole noon columns table 0 ingested)
        (run whole noon columns table 0 (run whole noon columns table 0 ingested))
unfolding write_raw text_eq
run_idempotent_example =
    run_idempotent whole noon columns table ingested (refl, (refl, tt))
      (record { keyed = tt; below = tt; once = tt })

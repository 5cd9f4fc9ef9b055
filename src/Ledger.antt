-- ===== src/Ledger.antt =====
-- internal/storage/storage.go: the sales of the station, from the raw rows of the point of sale to the
-- table transactions. A call of the database does not fail. `A` is the type of float64.
pub mod Normalizer
pub mod Rows
pub mod Ingest
pub mod Resolved
pub mod Once
pub mod Sales
mod Tests
use fuelmind.Base.{
  ℕ, suc, ◌+◌, Bool, true, false, not, ◌&&◌, ◌||◌, Option, none, some, List, [], ◌∷◌, ◌++◌, Text,
  text_eq, is_empty, ◌==◌, any, take, keep_if, length, if◌then◌else◌,
}

-- A row of raw_pos_transactions.
pub record Raw : Type 0 where
  pub id : ℕ
  pub pos_source_id : Text
  pub raw_payload : Text
  pub payload_hash : Text
  pub batch_id : Text

-- The empty text stands for NULL in the columns that nullableString fills.
pub record NormalizedTransaction (A : Type 0) : Type 0 where
  pub raw_transaction_id : ℕ
  pub pos_source_id : Text
  pub external_id : Text
  pub product_code : Text
  pub quantity_liters : A
  pub unit_price : A
  pub total_amount : A
  pub payment_method : Text
  pub customer_phone : Text
  pub pump_id : Text
  pub attendant : Text
  pub transaction_time : Text
  pub flags : Text

-- A row of transactions.
pub record Row (A : Type 0) : Type 0 where
  pub id : ℕ
  pub sale : NormalizedTransaction A

-- A row of raw_superseded.
pub record Superseded : Type 0 where
  pub raw_transaction_id : ℕ
  pub superseded_by : ℕ

-- A row of raw_normalize_errors; `E` is the type of its message.
pub record Failure (E : Type 0) : Type 0 where
  pub raw_transaction_id : ℕ
  pub error : E
  pub attempts : ℕ

pub record Database (A E : Type 0) : Type 0 where
  pub raws : List Raw
  pub next_raw : ℕ
  pub transactions : List (Row A)
  pub next_id : ℕ
  pub superseded : List Superseded
  pub failures : List (Failure E)

abbrev pub is_raw : ℕ → {A : Type 0} → Row A → Bool
is_raw i row = row.sale.raw_transaction_id == i

-- WHERE pos_source_id = ? AND external_id = ?, which no NULL satisfies
unfoldable pub has_sale_key : Text → Text → {A : Type 0} → Row A → Bool
has_sale_key source external row =
    not (is_empty row.sale.pos_source_id)
    && not (is_empty row.sale.external_id)
    && text_eq row.sale.pos_source_id source
    && text_eq row.sale.external_id external

module _ {A : Type 0} where
  unfoldable pub find_row : (Row A → Bool) → List (Row A) → Option (Row A)
  find_row p [] = none
  find_row p (x ∷ xs) = if p x then some x else find_row p xs

  -- The columns of the UPDATE; the source and the external id are not among them.
  unfoldable pub renew : NormalizedTransaction A → Row A → Row A
  renew n row = record row {
    sale = record n { pos_source_id = row.sale.pos_source_id; external_id = row.sale.external_id };
  }

  -- UPDATE transactions SET ... WHERE id = ?
  unfoldable pub update_row : ℕ → (Row A → Row A) → List (Row A) → List (Row A)
  update_row i f [] = []
  update_row i f (x ∷ xs) = (if x.id == i then f x else x) ∷ update_row i f xs

module _ {E : Type 0} where
  abbrev retried : E → Failure E → Failure E
  retried e x = record x { error = e; attempts = x.attempts + 1 }

  -- RecordNormalizeError, and whether it is the first failure of the row.
  unfoldable pub record_failure : ℕ → E → List (Failure E) → Bool × List (Failure E)
  record_failure i e [] = (true, record { raw_transaction_id = i; error = e; attempts = 1 } ∷ [])
  record_failure i e (x ∷ xs) =
      let rest = record_failure i e xs in
      if x.raw_transaction_id == i then (false, retried e x ∷ xs) else (rest.0, x ∷ rest.1)

module _ {A E : Type 0} where
  -- One row of WriteRawTransactions: INSERT OR IGNORE, and whether a row was inserted.
  unfoldable pub insert_raw : Text → Text → Text → Text → Database A E → Bool × Database A E
  insert_raw batch source payload hash d =
      if any (λ (r : Raw). text_eq r.payload_hash hash) d.raws then (false, d) else (
        true,
        record d {
          raws =
              d.raws
              ++ record {
                id = d.next_raw;
                pos_source_id = source;
                raw_payload = payload;
                payload_hash = hash;
                batch_id = batch;
              }
                ∷ [];
          next_raw = d.next_raw + 1;
        },
      )

  abbrev counted : Bool × Database A E → (Database A E → ℕ × Database A E) → ℕ × Database A E
  counted (true, d) rest = let (n, d') = rest d in (suc n, d')
  counted (false, d) rest = rest d

  -- WriteRawTransactions, on rows with their hashes: the number of rows inserted.
  unfoldable pub write_raw : Text → Text → List (Text × Text) → Database A E → ℕ × Database A E
  unfolding insert_raw
  write_raw batch source [] d = (0, d)
  write_raw batch source ((payload, hash) ∷ rows) d =
      counted (insert_raw batch source payload hash d) (write_raw batch source rows)

  -- A raw row that is normalized or superseded.
  unfoldable pub is_resolved : ℕ → Database A E → Bool
  is_resolved i d =
      any (is_raw i) d.transactions
      || any (λ (x : Superseded). x.raw_transaction_id == i) d.superseded

  -- UnnormalizedTransactions; a limit of 0 is none.
  unfoldable pub unnormalized_transactions : ℕ → Database A E → List Raw
  unfolding is_resolved
  unnormalized_transactions limit d =
      let rows = keep_if (λ (r : Raw). not (is_resolved r.id d)) d.raws in
      if limit == 0 then rows else take limit rows

  unfoldable pub clear_failure : ℕ → Database A E → Database A E
  clear_failure i d = record d {
    failures = keep_if (λ (x : Failure E). not (x.raw_transaction_id == i)) d.failures;
  }

  -- INSERT OR REPLACE INTO raw_superseded
  unfoldable pub supersede : ℕ → ℕ → Database A E → Database A E
  supersede old new d = record d {
    superseded =
        record { raw_transaction_id = old; superseded_by = new }
        ∷ keep_if (λ (x : Superseded). not (x.raw_transaction_id == old)) d.superseded;
  }

  -- The case of a transaction that the point of sale sends again.
  unfoldable pub replace_sale : NormalizedTransaction A → Row A → Database A E → Bool × Database A E
  unfolding update_row renew supersede clear_failure
  replace_sale n old d =
      if not (old.sale.raw_transaction_id == n.raw_transaction_id)
      then (
        true,
        clear_failure n.raw_transaction_id (
            supersede old.sale.raw_transaction_id n.raw_transaction_id
              (record d { transactions = update_row old.id (renew n) d.transactions })),
      )
      else (false, d)

  -- INSERT OR IGNORE INTO transactions, where only the raw id can be in use, and the DELETE after it.
  unfoldable pub insert_sale : NormalizedTransaction A → Database A E → Database A E
  unfolding clear_failure
  insert_sale n d = clear_failure n.raw_transaction_id (
      if any (is_raw n.raw_transaction_id) d.transactions then d else record d {
        transactions = d.transactions ++ record { id = d.next_id; sale = n } ∷ [];
        next_id = d.next_id + 1;
      })

  -- The SELECT by the external id.
  unfoldable pub find_sale : Text → Text → Database A E → Option (Row A)
  unfolding find_row has_sale_key
  find_sale source external d =
      if is_empty external then none else find_row (has_sale_key source external) d.transactions

  -- WriteNormalizedTransaction, and whether a transaction was replaced.
  unfoldable pub write_normalized : NormalizedTransaction A → Database A E → Bool × Database A E
  unfolding find_sale replace_sale insert_sale
  write_normalized n d = elim (find_sale n.pos_source_id n.external_id d) [
    | none ↦ (false, insert_sale n d)
    | some old ↦ replace_sale n old d
  ]

  unfoldable pub record_normalize_error : ℕ → E → Database A E → Database A E
  unfolding record_failure
  record_normalize_error i e d = record d { failures = (record_failure i e d.failures).1 }

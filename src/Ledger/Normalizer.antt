-- ===== src/Ledger/Normalizer.antt =====
-- internal/normalizer/normalizer.go: raw rows become transactions. float64, JSON and the time package
-- are arguments, as records of the functions that the code calls.
pub mod Rerun
pub mod Again
pub mod Rows
use fuelmind.Base.{
  ℕ, suc, ◌+◌, Bool, true, false, not, ◌||◌, Option, none, some, List, [], ◌∷◌, ◌++◌, map, Text,
  codes, is_empty, is_lower, trim_space, to_lower, lookup, insert, ◌==◌, ◌-◌, keep_if,
  if◌then◌else◌,
}
use fuelmind.Phone.{normalize}
use fuelmind.Ledger.{
  Raw, NormalizedTransaction, Database, unnormalized_transactions, write_normalized,
  record_normalize_error,
}

-- What the code uses of float64.
pub record Float : Type 1 where
  pub Amount : Type 0
  pub parse_float : Text → Option Amount
  pub is_nan_or_inf : Amount → Bool
  pub is_negative : Amount → Bool
  pub mul : Amount → Amount → Amount
  pub sub : Amount → Amount → Amount
  pub abs : Amount → Amount
  pub larger : Amount → Amount → Amount
  pub le : Amount → Amount → Bool
  pub one : Amount
  pub half_percent : Amount

-- What the code uses of the time package, in the time zone of the station.
pub record Clock : Type 1 where
  pub Instant : Type 0
  pub parse_rfc3339 : Text → Option Instant
  pub parse_in_location : (layout : Text) → Text → Option Instant
  pub format_local : Instant → Text

-- Why a row cannot be normalized.
pub data NormalizeError : Type 0 where
  not_json : NormalizeError
  unknown_product : Text → NormalizeError
  bad_quantity : NormalizeError
  bad_price : NormalizeError
  bad_total : NormalizeError
  bad_timestamp : NormalizeError

pub data Result {ℓ} (B : Type ℓ) : Type ℓ where
  ok : B → Result B
  err : NormalizeError → Result B

infixl 5 ◌>>=◌
abbrev pub ◌>>=◌ {ℓ κ} : {B : Type ℓ} {C : Type κ} → Result B → (B → Result C) → Result C
ok b >>= f = f b
err e >>= f = err e

abbrev pub or_fail {ℓ} : {B : Type ℓ} → NormalizeError → Option B → Result B
or_fail e none = err e
or_fail e (some b) = ok b

-- reloadAliases, from the rows of the table in some order
unfoldable pub reload_aliases : List (Text × Text) → List (Text × Text) → List (Text × Text)
unfolding insert to_lower
reload_aliases [] lower = lower
reload_aliases ((k, v) ∷ rows) lower =
    reload_aliases rows (insert (to_lower k) v (insert k v lower))

-- The two lookups of an alias.
unfoldable pub resolve_alias : List (Text × Text) → Text → Option Text
unfolding lookup to_lower
resolve_alias aliases alias = elim (lookup alias aliases) [
  | none ↦ lookup (to_lower alias) aliases
  | some code ↦ some code
]

-- row[name], which is empty where there is no such column
unfoldable pub column : Text → List (Text × Text) → Text
unfolding lookup
column name row = elim (lookup name row) [ none ↦ [] | some v ↦ v ]

-- strings.ToUpper, of the ASCII letters.
unfoldable pub to_upper : Text → Text
to_upper = map (λ c. if is_lower c then c - 32 else c)

-- strings.Join(flags, ",") of the two flags
unfoldable pub join_flags : Bool → Bool → Text
join_flags mismatch negative =
    if mismatch
    then (if negative then codes "total_mismatch,negative_quantity" else codes "total_mismatch")
    else if negative
    then codes "negative_quantity"
    else []

module _ (f : Float) (c : Clock) where
  open f use {
    Amount, parse_float, is_nan_or_inf, is_negative, mul, sub, abs, larger, le, one, half_percent,
  }
  open c use {Instant, parse_rfc3339, parse_in_location, format_local}

  unfoldable pub parse_decimal : Text → Option Amount
  unfolding trim_space
  parse_decimal s =
      let t = trim_space s in
      if is_empty t then none else elim (parse_float (keep_if (λ x. not (x == b',')) t)) [
        | none ↦ none
        | some v ↦ if is_nan_or_inf v then none else some v
      ]

  unfoldable pub amounts_agree : Amount → Amount → Amount → Bool
  amounts_agree qty price total =
      le (abs (sub (mul qty price) total)) (larger one (mul (abs total) half_percent))

  -- The loop over the layouts.
  unfoldable pub parse_layouts : List Text → Text → Option Instant
  parse_layouts [] s = none
  parse_layouts (layout ∷ layouts) s =
      let rest = parse_layouts layouts s in
      elim (parse_in_location layout s) [ none ↦ rest | some t ↦ some t ]

  unfoldable pub parse_timestamp : Text → Option Instant
  unfolding parse_layouts
  parse_timestamp s = if is_empty s then none else elim (parse_rfc3339 s) [
    | some t ↦ some t
    | none ↦ parse_layouts (codes "2006-01-02T15:04:05" ∷ codes "2006-01-02 15:04:05" ∷ []) s
  ]

  -- `unmarshal` is json.Unmarshal into a map of texts.
  module _ (unmarshal : Text → Option (List (Text × Text))) where
    unfoldable pub normalize_row : List (Text × Text) → Raw → Result (NormalizedTransaction Amount)
    unfolding resolve_alias column parse_decimal amounts_agree parse_timestamp join_flags to_upper
        trim_space normalize
    normalize_row aliases r = do
      row ← or_fail not_json (unmarshal r.raw_payload)
      let alias = trim_space (column (codes "product_alias") row)
      code ← or_fail (unknown_product alias) (resolve_alias aliases alias)
      qty ← or_fail bad_quantity (parse_decimal (column (codes "quantity_liters") row))
      price ← or_fail bad_price (parse_decimal (column (codes "unit_price") row))
      total ← or_fail bad_total (parse_decimal (column (codes "total_amount") row))
      t ← or_fail bad_timestamp (parse_timestamp (trim_space (column (codes "occurred_at") row)))
      ok (record {
        raw_transaction_id = r.id;
        pos_source_id = r.pos_source_id;
        external_id = trim_space (column (codes "external_id") row);
        product_code = code;
        quantity_liters = qty;
        unit_price = price;
        total_amount = total;
        payment_method = to_upper (trim_space (column (codes "payment_method") row));
        customer_phone = normalize (column (codes "customer_phone") row);
        pump_id = trim_space (column (codes "pump_id") row);
        attendant = trim_space (column (codes "attendant") row);
        transaction_time = format_local t;
        flags = join_flags (not (amounts_agree qty price total)) (is_negative qty);
      })

-- The loop of Run, for a function that normalizes a row.
module _ {A : Type 0} (normalize_one : Raw → Result (NormalizedTransaction A)) where
  -- What becomes of one row.
  unfoldable pub handle_row : Raw → Database A NormalizeError → Database A NormalizeError
  unfolding write_normalized record_normalize_error
  handle_row r d = elim (normalize_one r) [
    | err e ↦ record_normalize_error r.id e d
    | ok n ↦ (write_normalized n d).1
  ]

  unfoldable pub handle_rows : List Raw → Database A NormalizeError → Database A NormalizeError
  unfolding handle_row
  handle_rows [] d = d
  handle_rows (r ∷ rs) d = handle_rows rs (handle_row r d)

  -- Run, but for its counts, the logging and the aliases that it reads first
  unfoldable pub run_once : ℕ → Database A NormalizeError → Database A NormalizeError
  unfolding handle_rows unnormalized_transactions
  run_once limit d = handle_rows (unnormalized_transactions limit d) d

-- Run, with the rows of the table of aliases
unfoldable pub run :
    (f : Float)
    → Clock
    → (Text → Option (List (Text × Text)))
    → List (Text × Text)
    → ℕ
    → Database f.Amount NormalizeError
    → Database f.Amount NormalizeError
unfolding reload_aliases run_once normalize_row
run f c unmarshal table limit d =
    run_once (normalize_row f c unmarshal (reload_aliases table [])) limit d

-- ===== src/Ledger/Ingest.antt =====
-- internal/storage/storage.go, WriteRawTransactions: the raw rows and their hashes.
use fuelmind.Base.{
  ℕ, ◌+◌, ◌<◌, ◌≡◌, refl, Bool, true, false, List, [], ◌∷◌, ◌++◌, inl, inr, arith, Text, text_eq,
  text_eq_iff, text_eq_refl, ◌==◌, any, any-append, All, All-append, Bool-cases,
}
use mathlib.Core.Path.{subst, sym}
use fuelmind.Ledger.{Raw, Database, insert_raw, counted, write_raw}
use fuelmind.Ledger.Normalizer.Rerun.{AreDistinct}

abbrev has_hash : Text → Raw → Bool
has_hash hash r = text_eq r.payload_hash hash

-- No hash twice.
abbrev pub AreHashed : List Raw → Type 0
AreHashed [] = Unit {0}
AreHashed (r ∷ rs) = (any (has_hash r.payload_hash) rs ≡ false) × AreHashed rs

abbrev AreOlder : ℕ → List Raw → Type 0
AreOlder k = All (λ (r : Raw). r.id < k)

append-AreHashed :
    (rs : List Raw) (x : Raw)
    → AreHashed rs
    → any (has_hash x.payload_hash) rs ≡ false
    → AreHashed (rs ++ x ∷ [])
append-AreHashed [] x h new = (refl, tt)
append-AreHashed (r ∷ rs) x h new = (
  ground (
    arith,
    any-append (has_hash r.payload_hash) rs (x ∷ []),
    h.0,
    text_eq_iff x.payload_hash r.payload_hash,
    text_eq_iff r.payload_hash x.payload_hash,
  ),
  append-AreHashed rs x h.1 (ground arith),
)

append-AreDistinct :
    (rs : List Raw) (x : Raw) → AreDistinct rs → AreOlder x.id rs → AreDistinct (rs ++ x ∷ [])
append-AreDistinct [] x h older = (refl, tt)
append-AreDistinct (r ∷ rs) x h older = (
  ground (arith, any-append (λ (y : Raw). y.id == r.id) rs (x ∷ []), h.0, older.0),
  append-AreDistinct rs x h.1 older.1,
)

AreOlder-later : (k : ℕ) (rs : List Raw) → AreOlder k rs → AreOlder (k + 1) rs
AreOlder-later k [] h = tt
AreOlder-later k (r ∷ rs) h = (omega arith, AreOlder-later k rs h.1)

module _ {A E : Type 0} where
  -- Every raw row has its own id and its own hash.
  pub record IsIngested (d : Database A E) : Type 0 where
    pub distinct : AreDistinct d.raws
    pub older : AreOlder d.next_raw d.raws
    pub hashed : AreHashed d.raws

  abbrev known : Text → Database A E → Bool
  known hash d = any (has_hash hash) d.raws

  insert_raw-IsIngested :
      (batch source payload hash : Text) (d : Database A E)
      → IsIngested d
      → IsIngested (insert_raw batch source payload hash d).1
  unfolding insert_raw
  insert_raw-IsIngested batch source payload hash d h = elim (Bool-cases (known hash d)) [
    | inl e ↦ rw e h
    | inr e ↦ rw e (record {
      distinct = append-AreDistinct d.raws _ h.distinct h.older;
      older =
          All-append (λ (r : Raw). r.id < d.next_raw + 1) d.raws _
            (AreOlder-later d.next_raw d.raws h.older) (omega arith, tt);
      hashed = append-AreHashed d.raws _ h.hashed e;
    })
  ]

  insert_raw_known :
      (batch source payload hash : Text) (d : Database A E)
      → known hash (insert_raw batch source payload hash d).1 ≡ true
  unfolding insert_raw
  insert_raw_known batch source payload hash d = elim (Bool-cases (known hash d)) [
    | inl e ↦ rw e e
    | inr e ↦ rw (e, any-append (has_hash hash) d.raws _, e, text_eq_refl hash) refl
  ]

  insert_raw_keeps :
      (batch source payload hash other : Text) (d : Database A E)
      → known other d ≡ true
      → known other (insert_raw batch source payload hash d).1 ≡ true
  unfolding insert_raw
  insert_raw_keeps batch source payload hash other d h = elim (Bool-cases (known hash d)) [
    | inl e ↦ rw e h
    | inr e ↦ rw (e, any-append (has_hash other) d.raws _, h) refl
  ]

  counted-db :
      (x : Bool × Database A E) (rest : Database A E → ℕ × Database A E)
      → (counted x rest).1 ≡ (rest x.1).1
  counted-db (true, d) rest = refl
  counted-db (false, d) rest = refl

  write_raw_keeps :
      (batch source other : Text) (rows : List (Text × Text)) (d : Database A E)
      → known other d ≡ true
      → known other (write_raw batch source rows d).1 ≡ true
  unfolding write_raw
  write_raw_keeps batch source other [] d h = h
  write_raw_keeps batch source other ((payload, hash) ∷ rows) d h =
      rw (counted-db (insert_raw batch source payload hash d) (write_raw batch source rows)) (
        write_raw_keeps batch source other rows _
          (insert_raw_keeps batch source payload hash other d h))

  -- All hashes of the rows are there.
  abbrev AllKnown : Database A E → List (Text × Text) → Type 0
  AllKnown d [] = Unit {0}
  AllKnown d ((payload, hash) ∷ rows) = (known hash d ≡ true) × AllKnown d rows

  write_raw-cons :
      (batch source payload hash : Text) (rows : List (Text × Text)) (d : Database A E)
      → (write_raw batch source ((payload, hash) ∷ rows) d).1
        ≡ (write_raw batch source rows (insert_raw batch source payload hash d).1).1
  unfolding write_raw
  write_raw-cons batch source payload hash rows d =
      counted-db (insert_raw batch source payload hash d) (write_raw batch source rows)

  write_raw_known :
      (batch source : Text) (rows : List (Text × Text)) (d : Database A E)
      → AllKnown (write_raw batch source rows d).1 rows
  write_raw_known batch source [] d = tt
  write_raw_known batch source ((payload, hash) ∷ rows) d =
      let d' = (insert_raw batch source payload hash d).1 in
      subst (λ x. AllKnown x ((payload, hash) ∷ rows))
        (sym (write_raw-cons batch source payload hash rows d))
        (
          write_raw_keeps batch source hash rows d' (insert_raw_known batch source payload hash d),
          write_raw_known batch source rows d',
        )

  write_raw_nothing :
      (batch source : Text) (rows : List (Text × Text)) (d : Database A E)
      → AllKnown d rows
      → write_raw batch source rows d ≡ (0, d)
  unfolding write_raw insert_raw
  write_raw_nothing batch source [] d h = refl
  write_raw_nothing batch source ((payload, hash) ∷ rows) d h =
      rw h.0 (write_raw_nothing batch source rows d h.1)

  write_raw-IsIngested :
      (batch source : Text) (rows : List (Text × Text)) (d : Database A E)
      → IsIngested d
      → IsIngested (write_raw batch source rows d).1
  unfolding write_raw
  write_raw-IsIngested batch source [] d h = h
  write_raw-IsIngested batch source ((payload, hash) ∷ rows) d h =
      subst IsIngested (sym (write_raw-cons batch source payload hash rows d)) (
        write_raw-IsIngested batch source rows _
          (insert_raw-IsIngested batch source payload hash d h))

  -- After a batch is written every raw row has its own id and its own hash, and the same rows written
  -- again, as any batch and for any source, insert nothing and change nothing.
  pub write_raw_again :
      (batch source batch' source' : Text) (rows : List (Text × Text)) (d : Database A E)
      → IsIngested d
      → IsIngested (write_raw batch source rows d).1
        × (write_raw batch' source' rows (write_raw batch source rows d).1
            ≡ (0, (write_raw batch source rows d).1))
  write_raw_again batch source batch' source' rows d h = (
    write_raw-IsIngested batch source rows d h,
    write_raw_nothing batch' source' rows _ (write_raw_known batch source rows d),
  )

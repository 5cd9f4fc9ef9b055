-- ===== src/Backup/Name.antt =====
-- internal/backup/backup.go, PerformBackup: the loop for a free name ends.
use fuelmind.Base.{
  ap, ◌∙◌, ℕ, zero, suc, ◌+◌, ◌<◌, ◌≤◌, ◌≡◌, ◌≢◌, refl, true, false, not, some, List, [], ◌∷◌, ◌++◌,
  inl, inr, arith, Text, codes, text_eq, text_eq_iff, length, keep_if, Bool-cases, length-append,
}
use mathlib.Core.Path.{sym}
use fuelmind.Backup.{Entry, Stat, is_not_exist, is_taken, is_named, candidate, free_name}

abbrev without : Text → List Entry → List Entry
without name = keep_if (λ e. not (is_named name e))

any-without : (a b : Text) (dir : List Entry) → a ≢ b → is_taken a (without b dir) ≡ is_taken a dir
any-without a b [] ne = refl
any-without a b (e ∷ es) ne = elim (Bool-cases (is_named b e)) [
  | inr f ↦ rw (f, any-without a b es ne) refl
  | inl f ↦
      rw (f, any-without a b es ne, other_name e (λ g. ne (sym g ∙ (text_eq_iff e.name b).0 f)))
        refl
]
  where
    other_name : (e : Entry) → e.name ≢ a → text_eq e.name a ≡ false
    other_name e h = elim (Bool-cases (text_eq e.name a)) [
      | inl k ↦ absurd (h ((text_eq_iff e.name a).0 k))
      | inr k ↦ k
    ]

length-without-le : (b : Text) (dir : List Entry) → length (without b dir) ≤ length dir
length-without-le b [] = omega arith
length-without-le b (e ∷ es) = ground (arith, length-without-le b es)

length-without :
    (b : Text) (dir : List Entry) → is_taken b dir ≡ true → length (without b dir) < length dir
length-without b [] h = absurd (ground arith)
length-without b (e ∷ es) h = ground (arith, length-without b es, length-without-le b es)

module _ (names : ℕ → Text) (stat : Text → Stat)
    (distinct : (i j : ℕ) → i < j → names j ≢ names i) where
  -- With more fuel than the list has entries, the loop ends with a name that Stat says is not there,
  -- where it says so of all that are not in the list and are tried.
  free_name_found :
      (fuel i : ℕ) (dir : List Entry)
      → length dir < fuel
      → ((j : ℕ) → i ≤ j → is_not_exist (stat (names j)) ≡ false → is_taken (names j) dir ≡ true)
      → (j : ℕ) × (free_name names stat fuel i ≡ some (names j))
        × (is_not_exist (stat (names j)) ≡ true)
  unfolding free_name
  free_name_found zero i dir h listed = absurd (omega arith)
  free_name_found (suc fuel) i dir h listed = elim (Bool-cases (is_not_exist (stat (names i)))) [
    | inl e ↦ (i, rw e refl, e)
    | inr e ↦
        let taken = listed i (omega arith) e in
        let (j, found, free) =
          free_name_found fuel (i + 1) (without (names i) dir)
            (omega (arith, length-without (names i) dir taken))
            (λ k le there.
              any-without (names k) (names i) dir (distinct i k (omega arith))
              ∙ listed k (omega arith) there) in
        (j, rw e found, free)
  ]

cancel : (xs ys a b : Text) → length xs ≡ length ys → xs ++ a ≡ ys ++ b → (xs ≡ ys) × (a ≡ b)
cancel [] [] a b l e = (refl, e)
cancel [] (y ∷ ys) a b l e = absurd (omega arith)
cancel (x ∷ xs) [] a b l e = absurd (omega arith)
cancel (x ∷ xs) (y ∷ ys) a b l e = let (f, g) = cancel xs ys a b (omega arith) (cc) in (cc, g)

append_cancel : (xs ys a : Text) → xs ++ a ≡ ys ++ a → xs ≡ ys
append_cancel xs ys a e =
    (cancel xs ys a a (omega (arith, ap length e, length-append {0} xs a, length-append {0} ys a))
      e).0

-- Stamps have one length, and numbers are printed differently: no name is tried twice.
candidate_distinct :
    (stamp itoa : ℕ → Text)
    → ((i j : ℕ) → length (stamp i) ≡ length (stamp j))
    → ((i j : ℕ) → itoa i ≡ itoa j → i ≡ j)
    → (i j : ℕ) → i < j
    → candidate stamp itoa j ≢ candidate stamp itoa i
unfolding candidate
candidate_distinct stamp itoa same unlike i zero h = absurd (omega arith)
candidate_distinct stamp itoa same unlike zero (suc j) h = λ e.
    let (f, g) =
      cancel (stamp (suc j)) (stamp 0) _ _ (same (suc j) 0)
        (cancel (codes "fuelmind_") (codes "fuelmind_") _ _ refl e).1 in
    absurd (ground arith)
candidate_distinct stamp itoa same unlike (suc i) (suc j) h = λ e.
    let (f, g) =
      cancel (stamp (suc j)) (stamp (suc i)) _ _ (same (suc j) (suc i))
        (cancel (codes "fuelmind_") (codes "fuelmind_") _ _ refl e).1 in
    absurd (
      omega (
        arith,
        unlike (suc j) (suc i)
            (append_cancel (itoa (suc j)) (itoa (suc i)) (codes ".db") (tail_eq g)),
      ))
  where
    tail_eq : {x y : ℕ} {a b : Text} → x ∷ a ≡ y ∷ b → a ≡ b
    tail_eq e = cc

-- The loop for a name ends after at most one round more than the folder has entries, with a name that
-- Stat says is not there, if Stat says so of every name that is not in the folder. The stamps are as
-- long as one another, and different numbers are printed differently.
pub free_name_ends :
    (stamp itoa : ℕ → Text) (stat : Text → Stat)
    → ((i j : ℕ) → length (stamp i) ≡ length (stamp j))
    → ((i j : ℕ) → itoa i ≡ itoa j → i ≡ j)
    → (dir : List Entry)
    → ((name : Text) → is_taken name dir ≡ false → is_not_exist (stat name) ≡ true)
    → (name : Text) × (free_name (candidate stamp itoa) stat (length dir + 1) 0 ≡ some name)
      × (is_not_exist (stat name) ≡ true)
free_name_ends stamp itoa stat same unlike dir found_out =
    let (j, found, free) =
      free_name_found (candidate stamp itoa) stat (candidate_distinct stamp itoa same unlike)
        (length dir + 1) 0 dir (omega arith) (λ j le. listed (candidate stamp itoa j)) in
    (candidate stamp itoa j, found, free)
  where
    listed : (name : Text) → is_not_exist (stat name) ≡ false → is_taken name dir ≡ true
    listed name h = elim (Bool-cases (is_taken name dir)) [
      | inl e ↦ e
      | inr e ↦ absurd (ground (arith, found_out name e))
    ]

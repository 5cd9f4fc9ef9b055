-- ===== src/Backup/Retention.antt =====
-- internal/backup/backup.go, enforceRetention: what is removed.
use fuelmind.Base.{
  ap, ◌∙◌, false, ◌<◌, ℕ, suc, ◌-◌, ◌≤◌, ◌≡◌, refl, Bool, true, not, ◌||◌, List, [], ◌∷◌, inl, inr,
  arith, Text, text_eq_iff, length, keep_if, take, Contains, Bool-cases, Option-cases, leb, ◌⊎◌,
  ltb, ◌↔◌,
}
use mathlib.Core.Path.{subst, sym}
use fuelmind.Backup.Order.{
  IsSorted, count, take_in, length-count, count_behind, count_newer, in_front,
}
use fuelmind.Backup.{
  Entry, BackupFile, is_named, is_nightly_backup, backup_files, remove_files, enforce_retention,
}

Contains-keep_if :
    (p : Entry → Bool) (e : Entry) (dir : List Entry)
    → Contains e dir
    → p e ≡ true
    → Contains e (keep_if p dir)
Contains-keep_if p e (x ∷ xs) (inl q) h = rw (subst (λ y. p y ≡ true) q h) (inl q)
Contains-keep_if p e (x ∷ xs) (inr m) h = elim (Bool-cases (p x)) [
  | inl t ↦ rw t (inr (Contains-keep_if p e xs m h))
  | inr t ↦ rw t (Contains-keep_if p e xs m h)
]
Contains-keep_if p e [] m h = absurd m

-- An entry stays, or its name is that of a file that is removed.
remove_files_leaves :
    (fails : Text → Bool) (fs : List BackupFile) (dir : List Entry) (e : Entry)
    → Contains e dir
    → Contains e (remove_files fails fs dir)
      ⊎ ((f : BackupFile) × Contains f fs × (e.name ≡ f.name))
unfolding remove_files
remove_files_leaves fails [] dir e m = inl m
remove_files_leaves fails (f ∷ fs) dir e m = elim (Bool-cases (fails f.name)) [
  | inl t ↦ rw t (inl m)
  | inr t ↦ elim (Bool-cases (is_named f.name e)) [
    | inl n ↦ inr (f, inl refl, (text_eq_iff e.name f.name).0 n)
    | inr n ↦
        elim (remove_files_leaves fails fs (keep_if (λ x. not (is_named f.name x)) dir) e
          (Contains-keep_if (λ x. not (is_named f.name x)) e dir m (rw n refl))) [
            | inl k ↦ rw t (inl k)
            | inr (g, k, q) ↦ inr (g, inr k, q)
          ]
  ]
]

kept_passes :
    (p : Entry → Bool) (e : Entry) (dir : List Entry)
    → Contains e (keep_if p dir)
    → (p e ≡ true) × Contains e dir
kept_passes p e [] m = absurd m
kept_passes p e (x ∷ xs) m = elim (Bool-cases (p x)) [
  | inl t ↦ kept_here (kept_passes p e xs) t (rw t at m)
  | inr t ↦ let (h, n) = kept_passes p e xs (rw t at m) in (h, inr n)
]
  where
    kept_here :
        (Contains e (keep_if p xs) → (p e ≡ true) × Contains e xs)
        → p x ≡ true
        → Contains e (x ∷ keep_if p xs)
        → (p e ≡ true) × Contains e (x ∷ xs)
    kept_here later t (inl q) = (ap p q ∙ t, inl q)
    kept_here later t (inr n) = let (h, k) = later n in (h, inr k)

remove_files_within :
    (fails : Text → Bool) (fs : List BackupFile) (dir : List Entry) (e : Entry)
    → Contains e (remove_files fails fs dir)
    → Contains e dir
unfolding remove_files
remove_files_within fails [] dir e m = m
remove_files_within fails (f ∷ fs) dir e m = elim (Bool-cases (fails f.name)) [
  | inl t ↦ rw t at m
  | inr t ↦
      (kept_passes (λ x. not (is_named f.name x)) e dir
        (remove_files_within fails fs _ e (rw t at m))).1
]

-- Where no removal fails, no entry is left that has the name of one of the files.
removed_gone :
    (fails : Text → Bool) (fs : List BackupFile) (dir : List Entry) (e : Entry) (f : BackupFile)
    → ((n : Text) → fails n ≡ false)
    → Contains f fs
    → e.name ≡ f.name
    → ¬ Contains e (remove_files fails fs dir)
unfolding remove_files
removed_gone fails [] dir e f fine k q m = absurd k
removed_gone fails (x ∷ xs) dir e f fine (inr k) q m =
    removed_gone fails xs _ e f fine k q (rw (fine x.name) at m)
removed_gone fails (x ∷ xs) dir e f fine (inl k) q m =
    let (h, n) =
      kept_passes (λ y. not (is_named x.name y)) e dir
        (remove_files_within fails xs _ e (rw (fine x.name) at m)) in
    absurd (ground (arith, (text_eq_iff e.name x.name).1 (q ∙ ap (λ y. y.name) k)))

named_or_later :
    (e : Entry) (es : List Entry) (f : BackupFile) (time : ℕ)
    → is_nightly_backup e.name ≡ true
    → (Contains f (backup_files es) → is_nightly_backup f.name ≡ true)
    → Contains f (record { name = e.name; mod_time = time } ∷ backup_files es)
    → is_nightly_backup f.name ≡ true
named_or_later e es f time h later (inl q) = rw (ap (λ x. x.name) q) h
named_or_later e es f time h later (inr m) = later m

backup_files_nightly :
    (dir : List Entry) (f : BackupFile)
    → Contains f (backup_files dir)
    → is_nightly_backup f.name ≡ true
unfolding backup_files
backup_files_nightly [] f m = absurd m
backup_files_nightly (e ∷ es) f m = elim (Bool-cases (e.is_dir || not (is_nightly_backup e.name))) [
  | inl t ↦ backup_files_nightly es f (rw t at m)
  | inr t ↦ elim (Option-cases e.mod_time) [
    | inl o ↦ backup_files_nightly es f (rw (t, o) at m)
    | inr (time, o) ↦
        named_or_later e es f time (ground arith) (backup_files_nightly es f) (rw (t, o) at m)
  ]
]

-- Why an entry may be removed: it is a nightly copy of the folder, and besides it there are `keep`
-- copies that are not older.
pub record IsSurplus (keep : ℕ) (dir : List Entry) (e : Entry) : Type 0 where
  pub file : BackupFile
  pub named : e.name ≡ file.name
  pub nightly : is_nightly_backup e.name ≡ true
  pub listed : Contains file (backup_files dir)
  pub surpassed : suc keep ≤ count (λ g. leb file.mod_time g.mod_time) (backup_files dir)

module _ (sort : List BackupFile → List BackupFile)
    (sorts : (fs : List BackupFile) → IsSorted (sort fs))
    (same_files : (fs : List BackupFile) (f : BackupFile) → Contains f (sort fs) ↔ Contains f fs)
    (same_counts : (p : BackupFile → Bool) (fs : List BackupFile)
      → count p (sort fs) ≡ count p fs) where
  length-sort : (fs : List BackupFile) → length (sort fs) ≡ length fs
  length-sort fs = sym (length-count (sort fs)) ∙ (same_counts (λ g. true) fs ∙ length-count fs)

  kept_or_outdated :
      (fails : Text → Bool) (keep : ℕ) (dir : List Entry) (e : Entry)
      → Contains e dir
      → Contains e (enforce_retention sort fails keep dir) ⊎ IsSurplus keep dir e
  unfolding enforce_retention
  kept_or_outdated fails keep dir e m =
      let files = backup_files dir in
      let k = length files - keep in
      elim (Bool-cases (leb (length files) keep)) [
        | inl t ↦ rw t (inl m)
        | inr t ↦ elim (remove_files_leaves fails (take k (sort files)) dir e m) [
          | inl stay ↦ rw t (inl stay)
          | inr (f, in_front, q) ↦ inr (record {
            file = f;
            named = q;
            nightly =
                subst (λ n. is_nightly_backup n ≡ true) (sym q)
                  (backup_files_nightly dir f
                    ((same_files files f).0 (take_in k (sort files) f in_front)));
            listed = (same_files files f).0 (take_in k (sort files) f in_front);
            surpassed =
                subst (λ n. suc keep ≤ n) (same_counts (λ g. leb f.mod_time g.mod_time) files)
                  (omega (
                    arith,
                    count_behind k (sort files) f (sorts files) in_front,
                    length-sort files,
                    less t,
                  ));
          })
        ]
      ]
    where
      less : leb (length (backup_files dir)) keep ≡ false → keep < length (backup_files dir)
      less h = ground arith

  surplus_gone :
      (fails : Text → Bool) (keep : ℕ) (dir : List Entry) (e : Entry) (f : BackupFile)
      → ((n : Text) → fails n ≡ false)
      → Contains f (backup_files dir)
      → e.name ≡ f.name
      → keep ≤ count (λ g. ltb f.mod_time g.mod_time) (backup_files dir)
      → ¬ Contains e (enforce_retention sort fails keep dir)
  unfolding enforce_retention
  surplus_gone fails keep dir e f fine m q h =
      let files = backup_files dir in
      let k = length files - keep in
      let front = in_front k (sort files) f (sorts files) ((same_files files f).1 m) (
        subst (λ n. length (sort files) - k ≤ n)
          (sym (same_counts (λ g. ltb f.mod_time g.mod_time) files))
          (omega (arith, length-sort files, h))) in
      elim (Bool-cases (leb (length files) keep)) [
        | inl t ↦ absurd (ground (arith, count_newer f files m))
        | inr t ↦ rw t (removed_gone fails (take k (sort files)) dir e f fine front q)
      ]

  -- Retention removes nothing but nightly copies, and only such that besides them `keep` copies of the
  -- folder are not older; every other entry stays. Where no removal fails, it does remove each copy that
  -- `keep` others are newer than. The sort of the standard library gives the same files, each as often,
  -- in order of time.
  pub enforce_retention_keeps :
      (fails : Text → Bool) (keep : ℕ) (dir : List Entry) (e : Entry)
      → Contains e dir
      → (Contains e (enforce_retention sort fails keep dir) ⊎ IsSurplus keep dir e)
        × (((n : Text) → fails n ≡ false)
            → (f : BackupFile) → Contains f (backup_files dir)
            → e.name ≡ f.name
            → keep ≤ count (λ g. ltb f.mod_time g.mod_time) (backup_files dir)
            → ¬ Contains e (enforce_retention sort fails keep dir))
  enforce_retention_keeps fails keep dir e m =
      (kept_or_outdated fails keep dir e m, (λ fine f. surplus_gone fails keep dir e f fine))

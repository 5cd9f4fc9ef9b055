-- ===== src/Backup/Tests.antt =====
-- A folder with a copy of this very second, and one with two copies where one is kept.
use fuelmind.Base.{
  ◌≡◌, refl, false, ℕ, zero, suc, ◌+◌, some, Bool, true, List, [], ◌∷◌, Text, codes, length, arith,
  inl, inr, ◌⊎◌, Contains, ap, ◌≤◌, leb, All, if◌then◌else◌, Bool-cases, ltb,
}
use fuelmind.Backup.{
  Entry, BackupFile, candidate, free_name, is_taken, Stat, present, not_exist, is_not_exist,
  enforce_retention, backup_files,
}
use fuelmind.Backup.Name.{free_name_ends}
use fuelmind.Backup.Order.{IsSorted, count}
use fuelmind.Backup.Retention.{IsSurplus, enforce_retention_keeps}

abbrev entry : ℕ → Text → Entry
entry t name = record { name = name; is_dir = false; mod_time = some t }

abbrev folder : List Entry
folder = entry 5 (codes "fuelmind_now.db") ∷ entry 3 (codes "pre-migrate-1.db") ∷ []

abbrev now : ℕ → Text
now i = codes "now"

-- Tally marks.
abbrev marks : ℕ → Text
marks zero = []
marks (suc n) = b'1' ∷ marks n

length-marks : (n : ℕ) → length (marks n) ≡ n
length-marks zero = refl
length-marks (suc n) = omega (arith, length-marks n)

marks_unlike : (i j : ℕ) → marks i ≡ marks j → i ≡ j
marks_unlike i j e = omega (arith, ap length e, length-marks i, length-marks j)

-- Stat, of a folder that can be read.
abbrev stat : Text → Stat
stat name = if is_taken name folder then present else not_exist

found_out : (name : Text) → is_taken name folder ≡ false → is_not_exist (stat name) ≡ true
found_out name h = rw h refl

free_name_ends_example :
    (name : Text) × (free_name (candidate now marks) stat (length folder + 1) 0 ≡ some name)
    × (is_not_exist (stat name) ≡ true)
free_name_ends_example = free_name_ends now marks stat (λ i j. refl) marks_unlike folder found_out

-- A sort, by insertion.
put : BackupFile → List BackupFile → List BackupFile
put f [] = f ∷ []
put f (g ∷ gs) = let rest = put f gs in if leb f.mod_time g.mod_time then f ∷ g ∷ gs else g ∷ rest

sorted : List BackupFile → List BackupFile
sorted [] = []
sorted (f ∷ fs) = put f (sorted fs)

abbrev From : ℕ → List BackupFile → Type 0
From t = All (λ (g : BackupFile). t ≤ g.mod_time)

From-later : (s t : ℕ) (fs : List BackupFile) → s ≤ t → From t fs → From s fs
From-later s t [] le h = tt
From-later s t (f ∷ fs) le h = (omega arith, From-later s t fs le h.1)

put-From :
    (t : ℕ) (f : BackupFile) (fs : List BackupFile) → t ≤ f.mod_time → From t fs → From t (put f fs)
unfolding put
put-From t f [] le h = (le, tt)
put-From t f (g ∷ gs) le h = ground (arith, put-From t f gs le h.1)

put-IsSorted : (f : BackupFile) (fs : List BackupFile) → IsSorted fs → IsSorted (put f fs)
unfolding put
put-IsSorted f [] h = (tt, tt)
put-IsSorted f (g ∷ gs) h = elim (Bool-cases (leb f.mod_time g.mod_time)) [
  | inl e ↦ rw e ((ground arith, From-later f.mod_time g.mod_time gs (ground arith) h.0), h)
  | inr e ↦ rw e (put-From g.mod_time f gs (ground arith) h.0, put-IsSorted f gs h.1)
]

sorted-IsSorted : (fs : List BackupFile) → IsSorted (sorted fs)
unfolding sorted
sorted-IsSorted [] = tt
sorted-IsSorted (f ∷ fs) = put-IsSorted f (sorted fs) (sorted-IsSorted fs)

count-put :
    (p : BackupFile → Bool) (f : BackupFile) (fs : List BackupFile)
    → count p (put f fs) ≡ count p (f ∷ fs)
unfolding put count
count-put p f [] = refl
count-put p f (g ∷ gs) = ground (arith, count-put p f gs)

count-sorted : (p : BackupFile → Bool) (fs : List BackupFile) → count p (sorted fs) ≡ count p fs
unfolding sorted count
count-sorted p [] = refl
count-sorted p (f ∷ fs) = ground (arith, count-put p f (sorted fs), count-sorted p fs)

put_in : (f x : BackupFile) (fs : List BackupFile) → Contains x (put f fs) → Contains x (f ∷ fs)
unfolding put
put_in f x [] m = m
put_in f x (g ∷ gs) m = elim (Bool-cases (leb f.mod_time g.mod_time)) [
  | inl e ↦ (rw e at m)
  | inr e ↦ behind f g x gs (put_in f x gs) (rw e at m)
]
  where
    behind :
        (f g x : BackupFile) (gs : List BackupFile)
        → (Contains x (put f gs) → Contains x (f ∷ gs))
        → Contains x (g ∷ put f gs)
        → Contains x (f ∷ (g ∷ gs))
    behind f g x gs h (inl e) = inr (inl e)
    behind f g x gs h (inr m) = elim (h m) [ inl e ↦ inl e | inr n ↦ inr (inr n) ]

sorted_in : (fs : List BackupFile) (x : BackupFile) → Contains x (sorted fs) → Contains x fs
unfolding sorted
sorted_in [] x m = m
sorted_in (f ∷ fs) x m = elim (put_in f x (sorted fs) m) [
  | inl e ↦ inl e
  | inr n ↦ inr (sorted_in fs x n)
]

in_put : (f x : BackupFile) (fs : List BackupFile) → Contains x (f ∷ fs) → Contains x (put f fs)
unfolding put
in_put f x [] m = m
in_put f x (g ∷ gs) m = elim (Bool-cases (leb f.mod_time g.mod_time)) [
  | inl e ↦ rw e m
  | inr e ↦ rw e (behind (in_put f x gs) m)
]
  where
    behind :
        (Contains x (f ∷ gs) → Contains x (put f gs))
        → Contains x (f ∷ (g ∷ gs))
        → Contains x (g ∷ put f gs)
    behind later (inl q) = inr (later (inl q))
    behind later (inr (inl q)) = inl q
    behind later (inr (inr n)) = inr (later (inr n))

in_sorted : (fs : List BackupFile) (x : BackupFile) → Contains x fs → Contains x (sorted fs)
unfolding sorted
in_sorted [] x m = m
in_sorted (f ∷ fs) x (inl e) = in_put f x (sorted fs) (inl e)
in_sorted (f ∷ fs) x (inr m) = in_put f x (sorted fs) (inr (in_sorted fs x m))

abbrev two_copies : List Entry
two_copies = entry 9 (codes "fuelmind_b.db") ∷ entry 5 (codes "fuelmind_a.db") ∷ []

enforce_retention_keeps_example :
    (Contains (entry 5 (codes "fuelmind_a.db")) (enforce_retention sorted (λ n. false) 1 two_copies)
      ⊎ IsSurplus 1 two_copies (entry 5 (codes "fuelmind_a.db")))
    × (((n : Text) → false ≡ false)
        → (f : BackupFile) → Contains f (backup_files two_copies)
        → codes "fuelmind_a.db" ≡ f.name
        → 1 ≤ count (λ g. ltb f.mod_time g.mod_time) (backup_files two_copies)
        → ¬ Contains
            (entry 5 (codes "fuelmind_a.db"))
            (enforce_retention sorted (λ n. false) 1 two_copies))
enforce_retention_keeps_example =
    enforce_retention_keeps sorted sorted-IsSorted (λ fs x. (sorted_in fs x, in_sorted fs x))
      count-sorted (λ n. false) 1 two_copies (entry 5 (codes "fuelmind_a.db")) (inr (inl refl))

-- ===== src/Backup/Order.antt =====
-- Files in order of time: which of them come first.
use fuelmind.Base.{
  All-Contains, ap, if◌then◌else◌, ℕ, zero, suc, ◌-◌, ◌≤◌, ◌≡◌, refl, Bool, true, List, [], ◌∷◌,
  inl, inr, arith, length, take, All, Contains, leb, ltb,
}
use mathlib.Core.Path.{subst, sym}
use fuelmind.Backup.{BackupFile}

-- The files that stand in the list, oldest first.
abbrev pub IsSorted : List BackupFile → Type 0
IsSorted [] = Unit {0}
IsSorted (f ∷ fs) = All (λ (g : BackupFile). f.mod_time ≤ g.mod_time) fs × IsSorted fs

-- How many entries of a list pass a test.
unfoldable pub count {ℓ} : {A : Type ℓ} → (A → Bool) → List A → ℕ
count p [] = 0
count p (x ∷ xs) = let rest = count p xs in if p x then suc rest else rest

count-All :
    (t : ℕ) (fs : List BackupFile)
    → All (λ (g : BackupFile). t ≤ g.mod_time) fs
    → count (λ g. leb t g.mod_time) fs ≡ length fs
unfolding count
count-All t [] h = refl
count-All t (f ∷ fs) h = ground (arith, h.0, count-All t fs h.1)

pub length-count : (fs : List BackupFile) → count (λ g. true) fs ≡ length fs
unfolding count
length-count [] = refl
length-count (f ∷ fs) = ap suc (length-count fs)

-- None of the files behind the first `k` is older than one of these.
pub count_behind :
    (k : ℕ) (fs : List BackupFile) (f : BackupFile)
    → IsSorted fs
    → Contains f (take k fs)
    → suc (length fs - k) ≤ count (λ g. leb f.mod_time g.mod_time) fs
unfolding count
count_behind zero fs f s m = absurd m
count_behind (suc k) [] f s m = absurd m
count_behind (suc k) (x ∷ xs) f s (inl e) =
    subst (λ y. suc (suc (length xs) - suc k) ≤ count (λ g. leb y.mod_time g.mod_time) (x ∷ xs))
      (sym e) (ground (arith, count-All x.mod_time xs s.0))
count_behind (suc k) (x ∷ xs) f s (inr m) = ground (arith, count_behind k xs f s.1 m)

pub take_in :
    (k : ℕ) (fs : List BackupFile) (g : BackupFile) → Contains g (take k fs) → Contains g fs
take_in zero fs g m = absurd m
take_in (suc k) [] g m = absurd m
take_in (suc k) (x ∷ xs) g (inl e) = inl e
take_in (suc k) (x ∷ xs) g (inr m) = inr (take_in k xs g m)

count-le-length : (p : BackupFile → Bool) (fs : List BackupFile) → count p fs ≤ length fs
unfolding count
count-le-length p [] = omega arith
count-le-length p (f ∷ fs) = ground (arith, count-le-length p fs)

pub count_newer :
    (f : BackupFile) (fs : List BackupFile)
    → Contains f fs
    → suc (count (λ g. ltb f.mod_time g.mod_time) fs) ≤ length fs
unfolding count
count_newer f [] m = absurd m
count_newer f (x ∷ xs) (inl e) =
    subst (λ y. suc (count (λ g. ltb y.mod_time g.mod_time) (x ∷ xs)) ≤ suc (length xs)) (sym e)
      (ground (arith, count-le-length (λ g. ltb x.mod_time g.mod_time) xs))
count_newer f (x ∷ xs) (inr m) = ground (arith, count_newer f xs m)

-- A file that enough others are newer than is among the first `k`.
pub in_front :
    (k : ℕ) (fs : List BackupFile) (f : BackupFile)
    → IsSorted fs
    → Contains f fs
    → length fs - k ≤ count (λ g. ltb f.mod_time g.mod_time) fs
    → Contains f (take k fs)
unfolding count
in_front zero fs f s m h = absurd (omega (arith, count_newer f fs m))
in_front (suc k) [] f s m h = absurd m
in_front (suc k) (x ∷ xs) f s (inl e) h = inl e
in_front (suc k) (x ∷ xs) f s (inr m) h =
    let le = All-Contains (λ (g : BackupFile). x.mod_time ≤ g.mod_time) f xs s.0 m in
    inr (in_front k xs f s.1 m (ground arith))

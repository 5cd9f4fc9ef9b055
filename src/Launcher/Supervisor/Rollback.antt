-- ===== src/Launcher/Supervisor/Rollback.antt =====
-- internal/launcher/supervisor.go, rollback: both outcomes, and when it succeeds.
use fuelmind.Base.{
  ℕ, ◌≡◌, ◌≢◌, refl, ◌⊎◌, inl, inr, Bool, true, false, none, some, [], ◌∷◌, arith, Text, text_eq,
  text_eq_iff, Bool-cases, Option-cases, is_empty,
}
use fuelmind.Version.{valid}
use fuelmind.Launcher.Disk.{
  File, missing, broken, holds, Faults, read_pointer, write_pointer, delete_file, has_binary,
  is_quarantined,
}
use fuelmind.Launcher.Disk.Quarantine.{quarantine-is_quarantined}
use fuelmind.Launcher.Supervisor.{Supervisor, rollback, guarded_rollback, rollback_to}
use fuelmind.Launcher.CrashLoop.{reset}

-- From `s` the launcher has gone back from `bad` to `prev`, and is at `t`.
pub record RolledBack (f : Faults) (bad prev : Text) (s t : Supervisor) : Type 0 where
  pub was_previous : read_pointer s.disk.previous ≡ some prev
  pub differs : prev ≢ bad
  pub has_core : has_binary prev s.disk ≡ true
  pub is_valid : valid prev ≡ true
  pub current_now : t.disk.current ≡ holds prev
  pub previous_kept : t.disk.previous ≡ s.disk.previous
  pub versions_kept : t.disk.versions ≡ s.disk.versions
  pub no_pending : f.delete_pending ≡ false → t.disk.pending ≡ missing
  pub banned :
      f.write_failed ≡ none → s.disk.failed ≢ broken → is_quarantined bad t.disk.failed ≡ true
  pub no_crashes : t.detector.timestamps ≡ []
  pub no_window : t.probation_until ≡ 0
  pub no_count : t.probation_crashes ≡ 0
  pub no_file : f.clear_probation ≡ false → t.disk.probation ≡ missing
  pub same_backoff : t.backoff ≡ s.backoff

delete_file_clean {ℓ} :
    {A : Type ℓ} (b : Bool) (x : File A) → b ≡ false → (delete_file b x).0 ≡ missing
unfolding delete_file
delete_file_clean b missing h = refl
delete_file_clean b broken h = rw h
delete_file_clean b (holds v) h = rw h

rollback_to_cases :
    (f : Faults) (now : ℕ) (bad reason prev : Text) (s : Supervisor)
    → read_pointer s.disk.previous ≡ some prev
    → prev ≢ bad
    → has_binary prev s.disk ≡ true
    → (rollback_to f now bad reason prev s ≡ (s, none))
      ⊎ (((rollback_to f now bad reason prev s).1 ≡ some prev)
          × RolledBack f bad prev s (rollback_to f now bad reason prev s).0)
unfolding rollback_to reset
rollback_to_cases f now bad reason prev s was ne core = elim (Bool-cases (valid prev)) [
  | inr e ↦ inl (rw (e, write_pointer))
  | inl e ↦ elim (Bool-cases f.write_current) [
    | inl w ↦ inl (rw (e, w, write_pointer))
    | inr w ↦ inr (
        rw (e, w, write_pointer)
          (
            refl,
            record {
              was_previous = was;
              differs = ne;
              has_core = core;
              is_valid = e;
              current_now = refl;
              previous_kept = refl;
              versions_kept = refl;
              no_pending = delete_file_clean f.delete_pending s.disk.pending;
              banned = quarantine-is_quarantined f.write_failed bad reason now s.disk.failed;
              no_crashes = refl;
              no_window = refl;
              no_count = refl;
              no_file = delete_file_clean f.clear_probation s.disk.probation;
              same_backoff = refl;
            },
          ))
  ]
]

text_eq-ne : (a b : Text) → a ≢ b → text_eq a b ≡ false
text_eq-ne a b ne = elim (Bool-cases (text_eq a b)) [
  | inl e ↦ absurd (ne ((text_eq_iff a b).0 e))
  | inr e ↦ e
]

-- A version that is read from a pointer has a valid name.
pub read_pointer-valid :
    (p : File Text) (v : Text) → read_pointer p ≡ some v → is_empty v ≡ false → valid v ≡ true
unfolding read_pointer
read_pointer-valid missing [] h e = cc
read_pointer-valid missing (c ∷ v) h e = cc
read_pointer-valid broken v h e = cc
read_pointer-valid (holds w) v h e = ground arith

guarded_cases :
    (f : Faults) (now : ℕ) (bad reason prev : Text) (s : Supervisor)
    → read_pointer s.disk.previous ≡ some prev
    → (guarded_rollback f now bad reason prev s ≡ (s, none))
      ⊎ ((p : Text) × ((guarded_rollback f now bad reason prev s).1 ≡ some p)
          × RolledBack f bad p s (guarded_rollback f now bad reason prev s).0)
unfolding guarded_rollback
guarded_cases f now bad reason prev s was = elim (Bool-cases (is_empty prev)) [
  | inl e ↦ inl (rw e)
  | inr e ↦ elim (Bool-cases (text_eq prev bad)) [
    | inl q ↦ inl (rw (e, q))
    | inr q ↦ elim (Bool-cases (has_binary prev s.disk)) [
      | inr b ↦ inl (rw (e, q, b))
      | inl b ↦ rw (e, q, b) (found (rollback_to_cases f now bad reason prev s was (apart q) b))
    ]
  ]
]
  where
    apart : text_eq prev bad ≡ false → prev ≢ bad
    apart q h = ground (arith, (text_eq_iff prev bad).1 h)

    found :
        (rollback_to f now bad reason prev s ≡ (s, none))
          ⊎ (((rollback_to f now bad reason prev s).1 ≡ some prev)
              × RolledBack f bad prev s (rollback_to f now bad reason prev s).0)
        → (rollback_to f now bad reason prev s ≡ (s, none))
          ⊎ ((p : Text) × ((rollback_to f now bad reason prev s).1 ≡ some p)
              × RolledBack f bad p s (rollback_to f now bad reason prev s).0)
    found (inl h) = inl h
    found (inr h) = inr (prev, h.0, h.1)

-- A rollback does nothing at all, or it goes back to the previous version: another one, with a valid
-- name and an installed binary, which `current.json` then names. The failed version is quarantined
-- and nothing is pending, unless the operating system refuses that, and the crash history and the
-- probation of the failed version are forgotten.
pub rollback_cases :
    (f : Faults) (now : ℕ) (bad reason : Text) (s : Supervisor)
    → (rollback f now bad reason s ≡ (s, none))
      ⊎ ((prev : Text) × ((rollback f now bad reason s).1 ≡ some prev)
          × RolledBack f bad prev s (rollback f now bad reason s).0)
unfolding rollback
rollback_cases f now bad reason s = elim (Option-cases (read_pointer s.disk.previous)) [
  | inl e ↦ inl (rw (e, rollback))
  | inr (prev, e) ↦ rw (e, rollback) (guarded_cases f now bad reason prev s e)
]

-- The rollback succeeds, with the previous version, wherever there is another previous version with a
-- binary and current.json can be written.
pub rollback_succeeds :
    (f : Faults) (now : ℕ) (bad reason prev : Text) (s : Supervisor)
    → read_pointer s.disk.previous ≡ some prev
    → is_empty prev ≡ false
    → prev ≢ bad
    → has_binary prev s.disk ≡ true
    → f.write_current ≡ false
    → (rollback f now bad reason s).1 ≡ some prev
unfolding rollback guarded_rollback rollback_to
rollback_succeeds f now bad reason prev s was full ne core w =
    rw (was, rollback)
      (rw (full, text_eq-ne prev bad ne, core)
        (rw (read_pointer-valid s.disk.previous prev was full, w, write_pointer)))

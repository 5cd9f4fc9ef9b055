-- ===== src/Launcher/Supervisor/Tests.antt =====
-- An update that is handed over, one that fails in probation, and a pending pointer that stays.
use fuelmind.Base.{
  ◌<◌, ◌≡◌, ◌≢◌, refl, ◌⊎◌, true, false, none, some, [], ◌∷◌, arith, Text, codes, text_eq,
  text_eq_iff,
}
use fuelmind.Version.{valid}
use fuelmind.Launcher.Disk.{Faults, has_binary, read_pointer}
use fuelmind.Launcher.Supervisor.{
  Supervisor, Exit, exited, killed, round, handoff, start, after_exit, after_child, rollback,
  settle,
}
use fuelmind.Launcher.Supervisor.Rollback.{RolledBack, rollback_cases}
use fuelmind.Launcher.Supervisor.Handoff.{Stayed, HandedOver, handoff_cases, handoff_stranded}
use fuelmind.Launcher.Supervisor.Backoff.{Paced, round-Paced}
use fuelmind.Launcher.Supervisor.Tracks.{Tracks, IsQuiet}
use fuelmind.Launcher.Supervisor.Probation.{run, restart_resumes, second_crash_rolls_back}
use fuelmind.Launcher.Scenario.{
  old_version, new_version, no_faults, updating, probing, options, before_update, on_probation,
  round_with,
}

-- The launcher installs the pending version, and goes back from it after its second crash.
handed_over :
    (round options (round_with (exited 42) no_faults) before_update).0.current ≡ new_version
unfolding round has_binary text_eq after_exit handoff after_child valid
handed_over = refl

text_eq-false : (a b : Text) → text_eq a b ≡ false → a ≢ b
text_eq-false a b h e = ground (arith, (text_eq_iff a b).1 e)

apart : old_version ≢ new_version
unfolding text_eq
apart = text_eq-false old_version new_version refl

core_new : has_binary new_version probing ≡ true
unfolding has_binary text_eq
core_new = refl

core_old : has_binary old_version probing ≡ true
unfolding has_binary text_eq
core_old = refl

core_pending : has_binary new_version updating ≡ true
unfolding has_binary text_eq
core_pending = refl

reads_old : read_pointer probing.previous ≡ some old_version
unfolding read_pointer valid
reads_old = refl

valid_old : valid old_version ≡ true
unfolding valid
valid_old = refl

valid_new : valid new_version ≡ true
unfolding valid
valid_new = refl

second_crash_rolls_back_example :
    (round options (round_with killed no_faults) on_probation).0.current ≡ old_version
second_crash_rolls_back_example =
    (second_crash_rolls_back options (round_with killed no_faults) on_probation old_version
      (omega arith) (omega arith) tt refl core_new reads_old refl apart core_old refl).0

tracked : Tracks 300 on_probation
tracked = record { is_valid = valid_new; named = refl; saved = λ open_window. refl }

quiet : (e : Exit) → IsQuiet (round_with e no_faults) on_probation
quiet e = record {
  can_write = refl;
  can_delete = refl;
  same_current = refl;
  same_probation = refl;
  ended_window = λ through. cc;
}

-- A clean exit leaves the window open.
window_open :
    410 < (run options (round_with (exited 0) no_faults ∷ []) on_probation).probation_until
unfolding run round has_binary text_eq after_exit settle
window_open = omega arith

restart_resumes_example :
    (t : Supervisor) × (start false 410
        (run options (round_with (exited 0) no_faults ∷ []) on_probation).disk
      ≡ some t)
    × (t.current ≡ (run options (round_with (exited 0) no_faults ∷ []) on_probation).current)
    × (t.probation_until
        ≡ (run options (round_with (exited 0) no_faults ∷ []) on_probation).probation_until)
    × (t.probation_crashes
        ≡ (run options (round_with (exited 0) no_faults ∷ []) on_probation).probation_crashes)
restart_resumes_example =
    restart_resumes options (round_with (exited 0) no_faults ∷ []) 300 410 on_probation false
      tracked (omega arith, omega arith, quiet (exited 0), omega arith) window_open

rollback_cases_example :
    (rollback no_faults 5 new_version (codes "crash loop") on_probation ≡ (on_probation, none))
    ⊎ ((prev : Text) × ((rollback no_faults 5 new_version (codes "crash loop") on_probation).1
          ≡ some prev)
        × RolledBack no_faults new_version prev on_probation
            (rollback no_faults 5 new_version (codes "crash loop") on_probation).0)
rollback_cases_example = rollback_cases no_faults 5 new_version (codes "crash loop") on_probation

handoff_cases_example :
    Stayed no_faults before_update
      (handoff options (round_with (exited 42) no_faults) before_update)
    ⊎ ((new : Text) × HandedOver options
          (round_with (exited 42) no_faults)
          new
          before_update
          (handoff options (round_with (exited 42) no_faults) before_update))
handoff_cases_example = handoff_cases options (round_with (exited 42) no_faults) before_update

abbrev stuck_pointer : Faults
stuck_pointer = record no_faults { delete_pending = true }

handoff_stranded_example :
    (handoff options (round_with (exited 42) stuck_pointer) before_update).current ≡ old_version
handoff_stranded_example =
    (handoff_stranded options (round_with (exited 42) stuck_pointer) before_update new_version false
      500 refl refl valid_new refl valid_old core_pending refl refl refl).0

round-Paced_example : Paced (round options (round_with killed no_faults) on_probation)
round-Paced_example =
    round-Paced options (round_with killed no_faults) on_probation (omega arith, omega arith)

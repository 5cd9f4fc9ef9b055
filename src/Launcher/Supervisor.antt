-- ===== src/Launcher/Supervisor.antt =====
-- internal/launcher/supervisor.go: one round of the loop of Supervisor.Run, as a function of what
-- the child process, the clock and the operating system do in it.
pub mod Rollback
pub mod Handoff
pub mod Backoff
pub mod Restart
pub mod Tracks
pub mod Probation
mod Tests
use fuelmind.Base.{
  ℕ, suc, ◌+◌, ◌-◌, ◌*◌, ◌≡◌, Bool, true, false, not, ◌&&◌, ◌||◌, Option, none, some, List, [], ◌∷◌,
  ◌++◌, Text, codes, text_eq, is_empty, ltb, leb, ◌==◌, if◌then◌else◌,
}
use fuelmind.Launcher.CrashLoop.{Detector, new_detector, record_crash, reset}
use fuelmind.Launcher.Disk.{
  File, holds, Disk, Faults, read_pointer, write_pointer, delete_file, has_binary, quarantine,
  write_rollback_record, read_probation, write_probation, switch_to, prune_versions,
}

abbrev pub second : ℕ
second = 1000000000

abbrev pub max_backoff : ℕ
max_backoff = 60 * second

abbrev pub stable_run : ℕ
stable_run = 120 * second

abbrev pub exit_code_request_restart : ℕ
exit_code_request_restart = 42

pub record Options : Type 0 where
  pub probation : ℕ
  -- HealthTimeout as it is printed
  pub health_timeout : Text

pub record Supervisor : Type 0 where
  pub disk : Disk
  pub current : Text
  pub detector : Detector
  pub probation_until : ℕ
  pub probation_crashes : ℕ
  pub backoff : ℕ

-- What runChild reports: an exit code, death by a signal, or an error of its own.
pub data Exit : Type 0 where
  exited : ℕ → Exit
  killed : Exit
  failed : Exit
  unhealthy : Exit

pub record Round : Type 0 where
  pub started : ℕ
  pub ended : ℕ
  pub exit : Exit
  -- The probation window passed while the child ran.
  pub survived : Bool
  -- What the child did to the data folder.
  pub core : Disk → Disk
  pub faults : Faults
  pub stuck : Text → Bool

-- What follows the guards of rollback, once there is a usable previous version.
rollback_to : Faults → ℕ → Text → Text → Text → Supervisor → Supervisor × Option Text
unfolding write_pointer delete_file quarantine write_rollback_record reset
rollback_to f now bad reason prev s =
    let (c, c_ok) = write_pointer f.write_current prev s.disk.current in
    if not c_ok then (s, none) else (
      record s {
        disk = record s.disk {
          current = c;
          pending = (delete_file f.delete_pending s.disk.pending).0;
          failed = quarantine f.write_failed bad reason now s.disk.failed;
          rollback_record =
              write_rollback_record f.write_record bad reason now s.disk.rollback_record;
          probation = (delete_file f.clear_probation s.disk.probation).0;
        };
        detector = reset s.detector;
        probation_until = 0;
        probation_crashes = 0;
      },
      some prev,
    )

-- The guards of rollback behind the reading of previous.json.
guarded_rollback : Faults → ℕ → Text → Text → Text → Supervisor → Supervisor × Option Text
unfolding rollback_to has_binary
guarded_rollback f now bad reason prev s =
    if is_empty prev || text_eq prev bad
    then (s, none)
    else if not (has_binary prev s.disk)
    then (s, none)
    else rollback_to f now bad reason prev s

unfoldable pub rollback : Faults → ℕ → Text → Text → Supervisor → Supervisor × Option Text
unfolding read_pointer guarded_rollback
rollback f now bad reason s = elim (read_pointer s.disk.previous) [
  | none ↦ (s, none)
  | some prev ↦ guarded_rollback f now bad reason prev s
]

-- if prev, ok := s.rollback(...); ok { current = prev }
abbrev pub adopt : Supervisor × Option Text → Supervisor
adopt (s, none) = s
adopt (s, some prev) = record s { current = prev }

-- The same with `continue` behind it, and what the round does where there is nothing to adopt.
abbrev pub or_stay : Supervisor × Option Text → (Supervisor → Supervisor × ℕ) → Supervisor × ℕ
or_stay (s, some prev) stay = (record s { current = prev }, 0)
or_stay (s, none) stay = stay s

-- The end of a round that sleeps: the state, and how long it sleeps.
unfoldable pub settle : Round → Supervisor → Supervisor × ℕ
settle r s =
    let pause = if ltb (r.started + stable_run) r.ended then second else s.backoff in
    (record s { backoff = if ltb max_backoff (pause * 2) then max_backoff else pause * 2 }, pause)

-- What a round does with a crash, beyond the crashes of probation.
unfoldable pub crash_loop : Round → Supervisor → Supervisor × ℕ
crash_loop r s =
    let (d, looping) = record_crash r.ended s.detector in
    let s' = record s { detector = d } in
    if not looping
    then settle r s'
    else or_stay (rollback r.faults r.ended s.current (codes "crash loop") s')
        (λ t. settle r (record t { backoff = max_backoff }))

unfoldable pub count_crash : Round → Supervisor → Supervisor
count_crash r s =
    let n = s.probation_crashes + 1 in
    record s {
      probation_crashes = n;
      disk = record s.disk {
        probation =
            write_probation r.faults.write_probation s.current s.probation_until n s.disk.probation;
      };
    }

unfoldable pub after_count : Round → Supervisor → Supervisor × ℕ
after_count r s =
    if not (leb 2 s.probation_crashes)
    then crash_loop r s
    else or_stay
        (rollback r.faults r.ended s.current
          (codes "crashed repeatedly during post-update probation") s)
        (crash_loop r)

unfoldable pub probation_crash : Round → Supervisor → Supervisor × ℕ
probation_crash r s = after_count r (count_crash r s)

-- The hand-over to a pending version whose binary is there.
switch : Options → Round → Text → Supervisor → Supervisor
unfolding switch_to reset write_probation
switch o r new s =
    let (d, done) = switch_to r.faults new s.current s.disk in
    let until = r.ended + o.probation in
    if not done then record s { disk = d } else record s {
      disk = record d {
        probation = write_probation r.faults.write_probation new until 0 d.probation;
      };
      current = new;
      detector = reset s.detector;
      probation_until = until;
      probation_crashes = 0;
      backoff = second;
    }

drop_pending : Faults → Supervisor → Supervisor
unfolding delete_file
drop_pending f s = record s {
  disk = record s.disk { pending = (delete_file f.delete_pending s.disk.pending).0 };
}

-- The case of ExitCodeRequestRestart.
unfoldable pub handoff : Options → Round → Supervisor → Supervisor
unfolding read_pointer has_binary switch drop_pending
handoff o r s = elim (read_pointer s.disk.pending) [
  | none ↦ s
  | some new ↦
      if is_empty new
      then s
      else if has_binary new s.disk
      then switch o r new s
      else drop_pending r.faults s
]

unfoldable pub self_check_reason : Options → Text
self_check_reason o =
    codes "self-check failed: /healthz did not answer within "
    ++ o.health_timeout
    ++ codes " after the update"

-- The `switch` on how the child ended; `watched` says that the health check ran.
unfoldable pub after_exit : Options → Bool → Round → Exit → Supervisor → Supervisor × ℕ
after_exit o watched r unhealthy s =
    if watched
    then (adopt (rollback r.faults r.ended s.current (self_check_reason o) s), 0)
    else crash_loop r s
after_exit o watched r (exited code) s =
    if code == exit_code_request_restart
    then (handoff o r s, 0)
    else if code == 0
    then settle r s
    else if watched
    then probation_crash r s
    else crash_loop r s
after_exit o watched r killed s = if watched then probation_crash r s else crash_loop r s
after_exit o watched r failed s = if watched then probation_crash r s else crash_loop r s

-- A version that outlives its probation is committed: its file goes, and old versions are pruned.
unfoldable pub commit : Round → Disk → Disk
unfolding delete_file prune_versions
commit r d =
    prune_versions r.stuck
      (record d { probation = (delete_file r.faults.clear_probation d.probation).0 })

-- The data folder when the child has ended.
unfoldable pub after_child : Bool → Round → Disk → Disk
after_child watched r d = if watched && r.survived then commit r (r.core d) else r.core d

-- One round of the loop in Run, and how long it sleeps at its end.
unfoldable pub round : Options → Round → Supervisor → Supervisor × ℕ
round o r s =
    let watched = ltb r.started s.probation_until in
    if has_binary s.current s.disk
    then after_exit o watched r r.exit (record s { disk = after_child watched r s.disk })
    else or_stay (rollback r.faults r.started s.current (codes "core binary missing") s)
        (λ t. (t, 30 * second))

-- The state in which the loop of Run starts with version `v`.
unfoldable pub started : Bool → ℕ → Text → Disk → Supervisor
unfolding read_probation new_detector
started fault now v d =
    let ((until, crashes), file) = read_probation fault now v d.probation in
    record {
      disk = record d { probation = file };
      current = v;
      detector = new_detector 3 (600 * second);
      probation_until = until;
      probation_crashes = crashes;
      backoff = second;
    }

-- The start of Run behind Bootstrap: the state of the loop, unless there is no current version.
unfoldable pub start : Bool → ℕ → Disk → Option Supervisor
unfolding read_pointer started
start fault now d = elim (read_pointer d.current) [
  | none ↦ none
  | some v ↦ if is_empty v then none else some (started fault now v d)
]

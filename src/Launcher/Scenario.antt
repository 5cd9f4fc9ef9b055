-- ===== src/Launcher/Scenario.antt =====
-- A data folder with two versions, and rounds of the launcher on it.
use fuelmind.Base.{◌*◌, true, false, none, [], ◌∷◌, Text, codes}
use fuelmind.Launcher.CrashLoop.{new_detector}
use fuelmind.Launcher.Disk.{missing, holds, Disk, VersionDir, Faults}
use fuelmind.Launcher.Supervisor.{Options, Supervisor, Round, Exit, second}

abbrev pub old_version : Text
old_version = codes "1.2.0"

abbrev pub new_version : Text
new_version = codes "1.3.0"

abbrev pub no_faults : Faults
no_faults = record {
  write_previous = false;
  write_current = false;
  delete_pending = false;
  write_failed = none;
  write_record = none;
  write_probation = false;
  clear_probation = false;
}

abbrev pub folder : Text → VersionDir
folder v = record { name = v; is_dir = true; has_core = true }

-- The old version runs, the new one is installed and pending.
abbrev pub updating : Disk
updating = record {
  current = holds old_version;
  previous = missing;
  pending = holds new_version;
  versions = folder old_version ∷ folder new_version ∷ folder (codes "1.0.0") ∷ [];
  failed = missing;
  rollback_record = missing;
  probation = missing;
}

-- The new version runs on probation until 900 and has crashed once.
abbrev pub probing : Disk
probing = record updating {
  current = holds new_version;
  previous = holds old_version;
  pending = missing;
  probation = holds (record { version = new_version; until = 900; crashes = 1 });
}

abbrev pub options : Options
options = record { probation = 600; health_timeout = codes "1m30s" }

abbrev pub before_update : Supervisor
before_update = record {
  disk = updating;
  current = old_version;
  detector = new_detector 3 (600 * second);
  probation_until = 0;
  probation_crashes = 0;
  backoff = second;
}

abbrev pub on_probation : Supervisor
on_probation = record {
  disk = probing;
  current = new_version;
  detector = new_detector 3 (600 * second);
  probation_until = 900;
  probation_crashes = 1;
  backoff = second;
}

abbrev pub round_with : Exit → Faults → Round
round_with e f = record {
  started = 400;
  ended = 410;
  exit = e;
  survived = false;
  core = λ d. d;
  faults = f;
  stuck = λ v. false;
}

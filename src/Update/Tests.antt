-- ===== src/Update/Tests.antt =====
-- A release that is checked, downloaded after an interruption, staged and handed over.
use fuelmind.Base.{
  ap, ◌≡◌, refl, true, false, none, some, [], ◌∷◌, Text, codes, drop, to_lower, trim_space, text_eq,
}
use fuelmind.Version.{valid}
use fuelmind.Launcher.Disk.{Disk, missing}
use fuelmind.Launcher.Supervisor.{exited, handoff}
use fuelmind.Launcher.Scenario.{
  old_version, new_version, no_faults, updating, options, before_update, round_with,
}
use fuelmind.Update.{
  Release, manifest, Sha256, Config, Files, full_content, partial_content, range_refused,
  download_with_restart,
}
use fuelmind.Update.Download.{IsProgress, download_with_restart-IsProgress}
use fuelmind.Update.Staging.{StageFaults, core_exe_name, current_version, escapes}
use fuelmind.Update.Staging.Agent.{World, stage, tick}
use fuelmind.Update.Staging.Agent.Verified.{IsVerified, IsStaged, stage-IsVerified}
use fuelmind.Update.Staging.Agent.Handover.{tick-handoff}

-- An artifact that is its own checksum.
abbrev artifact : Text
artifact = codes "0123456789abcdef0123456789abcdef0123456789abcdef0123456789abcdef"

abbrev digest : Sha256
digest = record { bytes = λ s. 0 ∷ 0 ∷ 0 ∷ 42 ∷ []; hex = λ s. s }

abbrev config : Config
config = record {
  station_id = codes "FM-2345678";
  version = old_version;
  supervised = true;
  window = λ t. true;
}

abbrev release : Release
release = record {
  version = new_version;
  artifact_url = codes "/core.zip";
  checksum_sha256 = artifact;
  rollout_pct = 50;
}

-- The old version alone.
abbrev plain_disk : Disk
plain_disk = record updating { pending = missing }

abbrev fine : StageFaults
fine = record { remove_final = false; rename = false; write_pending = false }

abbrev begun : Files
begun = record { partial = some (codes "0123"); artifact = none }

abbrev world : World
world = record {
  response = manifest release;
  reachable = true;
  server = λ n. partial_content (drop n artifact) true;
  again = λ n. range_refused;
  files = begun;
  unzip = λ a. some (record { name = core_exe_name; is_dir = false; writable = true } ∷ []);
  stage_faults = fine;
  now = 3;
}

-- The same with a server that sends something else.
abbrev bad_world : World
bad_world = record world { server = λ n. full_content (codes "0123") true }

download_with_restart-IsProgress_example :
    IsProgress artifact (download_with_restart world.server world.again begun)
download_with_restart-IsProgress_example =
    download_with_restart-IsProgress artifact begun world.server world.again (drop 4 artifact, refl)
      (λ n. refl) (λ n. tt)

abbrev staged_disk : Disk
staged_disk = (stage digest world release plain_disk).0

stages : (stage digest world release plain_disk).1 ≡ true
unfolding stage text_eq to_lower trim_space valid current_version escapes
stages = refl

stage-IsVerified_example :
    IsVerified digest world release × IsStaged new_version plain_disk staged_disk
stage-IsVerified_example =
    stage-IsVerified digest world release plain_disk staged_disk (ap (λ b. (staged_disk, b)) stages)

abbrev same_disk : Disk
same_disk = (stage digest bad_world release plain_disk).0

fails : (stage digest bad_world release plain_disk).1 ≡ false
unfolding stage text_eq to_lower trim_space
fails = refl

hands : (tick digest config world updating).handed ≡ some new_version
unfolding tick valid text_eq
hands = refl

same_folder : before_update.disk ≡ (tick digest config world updating).disk
unfolding tick valid text_eq
same_folder = refl

valid_old : valid old_version ≡ true
unfolding valid
valid_old = refl

tick-handoff_example :
    (config.supervised ≡ true)
    × (config.window 3 ≡ true)
    × ((handoff options (round_with (exited 42) no_faults) before_update).current ≡ new_version)
tick-handoff_example =
    tick-handoff digest config world updating new_version options (round_with (exited 42) no_faults)
      before_update hands same_folder valid_old refl refl refl

-- ===== src/Update/Staging/Agent.antt =====
-- internal/update/update.go: stage, and a tick of the agent.
pub mod Verified
pub mod Handover
use fuelmind.Launcher.Disk.{File, Disk, read_pointer, has_binary}
use fuelmind.Update.{
  Release, Response, Offer, nothing_new, offered, check_failed, Sha256, Config, check, Files, Reply,
  DownloadError, download_with_restart,
}
use fuelmind.Update.Staging.{Entry, StageFaults, stage_artifact}
use fuelmind.Base.{
  ℕ, ◌≡◌, Bool, true, false, not, ◌&&◌, ◌||◌, Option, none, some, List, [], ◌∷◌, ◌++◌, Text, codes,
  text_eq, is_empty, byte_len, trim_space, to_lower, has_prefix, contains, length, keep_if, any,
  ltb, leb, ◌==◌, if◌then◌else◌, Ordering,
}

-- What the system under a tick does.
pub record World : Type 0 where
  pub response : Response
  -- The artifact's address parses, and the staging folder can be made.
  pub reachable : Bool
  pub server : ℕ → Reply
  pub again : ℕ → Reply
  pub files : Files
  pub unzip : Text → Option (List Entry)
  pub stage_faults : StageFaults
  pub now : ℕ

-- The end of stage, with the artifact that was downloaded.
unfoldable pub verify_artifact : Sha256 → World → Release → Text → Disk → Disk × Bool
unfolding stage_artifact
verify_artifact h w rel artifact d =
    if not (text_eq (to_lower (h.hex artifact)) (to_lower (trim_space rel.checksum_sha256)))
    then (d, false)
    else stage_artifact w.stage_faults rel.version (w.unzip artifact) d

abbrev pub downloaded : Option DownloadError × Files → Option Text
downloaded (none, f) = f.artifact
downloaded (some e, f) = none

-- stage: the data folder, and whether it succeeded.
unfoldable pub stage : Sha256 → World → Release → Disk → Disk × Bool
unfolding verify_artifact download_with_restart
stage h w rel d =
    if not w.reachable
    then (d, false)
    else elim (downloaded (download_with_restart w.server w.again w.files)) [
      | none ↦ (d, false)
      | some artifact ↦ verify_artifact h w rel artifact d
    ]

-- The end of a tick: the data folder, whether an update waits, and the version it hands over to.
pub record Ticked : Type 0 where
  pub disk : Disk
  pub waiting : Bool
  pub handed : Option Text

-- maybeHandoff
unfoldable pub maybe_handoff : Config → ℕ → Text → Disk → Ticked
maybe_handoff c now v d =
    if not c.supervised
    then record { disk = d; waiting = true; handed = none }
    else if not (c.window now)
    then record { disk = d; waiting = true; handed = none }
    else record { disk = d; waiting = false; handed = some v }

-- stagedVersion
unfoldable pub staged_version : Disk → Option Text
unfolding read_pointer has_binary
staged_version d = elim (read_pointer d.pending) [
  | none ↦ none
  | some v ↦ if is_empty v then none else if has_binary v d then some v else none
]

-- Tick behind stage.
abbrev pub after_stage : Config → ℕ → Text → Disk × Bool → Ticked
after_stage c now v (d, staged) =
    if staged then maybe_handoff c now v d else record { disk = d; waiting = false; handed = none }

-- Tick behind check.
unfoldable pub after_check : Sha256 → Config → World → Disk → Offer → Ticked
unfolding stage maybe_handoff
after_check h c w d nothing_new = record { disk = d; waiting = false; handed = none }
after_check h c w d check_failed = record { disk = d; waiting = false; handed = none }
after_check h c w d (offered rel) = after_stage c w.now rel.version (stage h w rel d)

-- Tick
unfoldable pub tick : Sha256 → Config → World → Disk → Ticked
unfolding staged_version check after_check maybe_handoff
tick h c w d = elim (staged_version d) [
  | some v ↦ maybe_handoff c w.now v d
  | none ↦ after_check h c w d (check h c d w.response)
]

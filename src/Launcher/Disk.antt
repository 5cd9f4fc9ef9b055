-- ===== src/Launcher/Disk.antt =====
-- internal/launcher: pointer.go, probation.go, rollback.go and PruneVersions of supervisor.go, over
-- the files of the data folder. A fault says that the operating system refuses a call.
pub mod Quarantine
pub mod Prune
mod Tests
use fuelmind.Base.{
  ℕ, ◌-◌, ◌≡◌, Bool, true, false, not, ◌&&◌, ◌||◌, Option, none, some, List, [], ◌∷◌, ◌++◌, Text,
  codes, text_eq, is_empty, has_prefix, any, length, drop, ltb, leb, if◌then◌else◌,
}
use fuelmind.Version.{valid}

-- What a JSON file can be found to be: it holds the value that its text is parsed to, or it is broken
-- where it cannot be read or parsed.
pub data File {ℓ} (A : Type ℓ) : Type ℓ where
  missing : File A
  broken : File A
  holds : A → File A

pub record FailedVersion : Type 0 where
  pub version : Text
  pub reason : Text
  pub at : ℕ

pub record RollbackRecord : Type 0 where
  pub failed_version : Text
  pub reason : Text
  pub at : ℕ

pub record ProbationState : Type 0 where
  pub version : Text
  pub until : ℕ
  pub crashes : ℕ

-- One entry of the versions folder.
pub record VersionDir : Type 0 where
  pub name : Text
  pub is_dir : Bool
  pub has_core : Bool

pub record Disk : Type 0 where
  pub current : File Text
  pub previous : File Text
  pub pending : File Text
  pub versions : List VersionDir
  pub failed : File (List FailedVersion)
  pub rollback_record : File RollbackRecord
  pub probation : File ProbationState

-- Which calls of one round the operating system refuses. The files that are not written by a rename
-- may be left in any state then.
pub record Faults : Type 0 where
  pub write_previous : Bool
  pub write_current : Bool
  pub delete_pending : Bool
  pub write_failed : Option (File (List FailedVersion))
  pub write_record : Option (File RollbackRecord)
  pub write_probation : Bool
  pub clear_probation : Bool

-- readPointer; `none` is an error, and an empty version means that there is none.
unfoldable pub read_pointer : File Text → Option Text
read_pointer missing = some []
read_pointer broken = none
read_pointer (holds v) = if not (is_empty v) && not (valid v) then none else some v

-- writePointerAtomic: the file after the call, and whether it succeeded.
unfoldable pub write_pointer : Bool → Text → File Text → File Text × Bool
write_pointer fault v f =
    if not (valid v) then (f, false) else if fault then (f, false) else (holds v, true)

-- DeletePending: deleting a file that is not there succeeds.
unfoldable pub delete_file {ℓ} : {A : Type ℓ} → Bool → File A → File A × Bool
delete_file fault missing = (missing, true)
delete_file fault broken = if fault then (broken, false) else (missing, true)
delete_file fault (holds v) = if fault then (holds v, false) else (missing, true)

-- os.Stat(CoreBinaryPath(baseDir, v)) finds a file.
unfoldable pub has_binary : Text → Disk → Bool
has_binary v d = any (λ e. text_eq e.name v && e.has_core) d.versions

unfoldable pub read_failed : File (List FailedVersion) → Option (List FailedVersion)
read_failed missing = some []
read_failed broken = none
read_failed (holds l) = some l

abbrev pub lists : Text → List FailedVersion → Bool
lists v = any (λ e. text_eq e.version v)

-- IsVersionQuarantined
unfoldable pub is_quarantined : Text → File (List FailedVersion) → Bool
unfolding read_failed
is_quarantined v f = elim (read_failed f) [ none ↦ false | some l ↦ lists v l ]

-- if len(list) > 20 { list = list[len(list)-20:] }
unfoldable pub newest_20 : List FailedVersion → List FailedVersion
newest_20 l = if ltb 20 (length l) then drop (length l - 20) l else l

-- quarantineVersion; `fault` is the file that a failed write leaves behind.
unfoldable pub quarantine :
    Option (File (List FailedVersion))
    → Text
    → Text
    → ℕ
    → File (List FailedVersion)
    → File (List FailedVersion)
unfolding read_failed newest_20
quarantine fault v reason now f = elim (read_failed f) [
  | none ↦ f
  | some l ↦ if lists v l then f else elim fault [
    | none ↦ holds (newest_20 (l ++ record { version = v; reason = reason; at = now } ∷ []))
    | some left ↦ left
  ]
]

-- writeRollbackRecord; `fault` is the file that a failed write leaves behind.
unfoldable pub write_rollback_record :
    Option (File RollbackRecord) → Text → Text → ℕ → File RollbackRecord → File RollbackRecord
write_rollback_record none v reason now f =
    holds (record { failed_version = v; reason = reason; at = now })
write_rollback_record (some left) v reason now f = left

-- readProbation: the window and its crashes, (0, 0) if there is none; a window of another version,
-- one that has passed and a file that does not parse are deleted. A file that cannot be read is left,
-- as a broken one is where it cannot be deleted.
unfoldable pub read_probation :
    Bool → ℕ → Text → File ProbationState → (ℕ × ℕ) × File ProbationState
unfolding delete_file
read_probation fault now current missing = ((0, 0), missing)
read_probation fault now current broken = ((0, 0), (delete_file fault broken).0)
read_probation fault now current (holds st) =
    if not (text_eq st.version current) || not (ltb now st.until)
    then ((0, 0), (delete_file fault (holds st)).0)
    else ((st.until, st.crashes), holds st)

unfoldable pub write_probation : Bool → Text → ℕ → ℕ → File ProbationState → File ProbationState
write_probation fault v until crashes f =
    if fault then f else holds (record { version = v; until = until; crashes = crashes })

-- switchTo: the steps stop at the first that fails.
unfoldable pub switch_to : Faults → Text → Text → Disk → Disk × Bool
unfolding write_pointer delete_file
switch_to f new old d =
    let (p, p_ok) = write_pointer f.write_previous old d.previous in
    let (c, c_ok) = write_pointer f.write_current new d.current in
    let (q, q_ok) = delete_file f.delete_pending d.pending in
    if not p_ok
    then (record d { previous = p }, false)
    else if not c_ok
    then (record d { previous = p; current = c }, false)
    else (record d { previous = p; current = c; pending = q }, q_ok)

-- The set `keep` of PruneVersions.
unfoldable pub is_pointed : Text → File Text → Bool
unfolding read_pointer
is_pointed v f = elim (read_pointer f) [ none ↦ false | some p ↦ not (is_empty p) && text_eq p v ]

unfoldable pub is_kept : Disk → Text → Bool
unfolding is_pointed
is_kept d v = is_pointed v d.current || is_pointed v d.previous || is_pointed v d.pending

abbrev pub is_doomed : Disk → VersionDir → Bool
is_doomed d e = e.is_dir && not (is_kept d e.name) && not (has_prefix e.name (codes ".tmp-"))

-- The loop of PruneVersions; `stuck` says which entries cannot be removed.
unfoldable pub prune_entries :
    (VersionDir → Bool) → (Text → Bool) → List VersionDir → List VersionDir
prune_entries doomed stuck [] = []
prune_entries doomed stuck (e ∷ es) =
    let rest = prune_entries doomed stuck es in
    if doomed e then (if stuck e.name then e ∷ es else rest) else e ∷ rest

unfoldable pub prune_versions : (Text → Bool) → Disk → Disk
unfolding is_kept prune_entries has_prefix
prune_versions stuck d = record d { versions = prune_entries (is_doomed d) stuck d.versions }

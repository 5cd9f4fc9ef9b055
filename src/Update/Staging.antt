-- ===== src/Update/Staging.antt =====
-- internal/update/update.go: Stage and extractCore, which put a version into the data folder.
pub mod Agent
use fuelmind.Version.{valid}
use fuelmind.Launcher.Disk.{
  File, Disk, VersionDir, read_pointer, write_pointer, has_binary, is_quarantined,
}
use fuelmind.Base.{
  ℕ, ◌≡◌, Bool, true, false, not, ◌&&◌, ◌||◌, Option, none, some, List, [], ◌∷◌, ◌++◌, Text, codes,
  text_eq, is_empty, byte_len, trim_space, to_lower, has_prefix, contains, length, keep_if, any,
  ltb, leb, ◌==◌, if◌then◌else◌, Ordering,
}

-- An entry of the artifact: its name after path.Clean, whether it is a folder, and whether it can be
-- written.
pub record Entry : Type 0 where
  pub name : Text
  pub is_dir : Bool
  pub writable : Bool

abbrev pub core_exe_name : Text
core_exe_name = codes "FuelMindCore.exe"

-- The guard of extractCore against names that leave the folder.
unfoldable pub escapes : Text → Bool
unfolding has_prefix contains
escapes name =
    has_prefix name (codes "/")
    || has_prefix name (codes "../")
    || text_eq name (codes "..")
    || contains name (codes ":")

-- The loop of extractCore: `none` is an error, and else whether the core was found.
unfoldable pub extract_entries : Bool → List Entry → Option Bool
extract_entries found [] = some found
extract_entries found (e ∷ es) =
    let skipped = extract_entries found es in
    let written = extract_entries (found || text_eq e.name core_exe_name) es in
    if e.is_dir
    then skipped
    else if escapes e.name
    then none
    else if not e.writable
    then none
    else written

-- extractCore; `none` is no zip file.
unfoldable pub extract_core : Option (List Entry) → Bool
unfolding extract_entries
extract_core zip = elim zip [
  | none ↦ false
  | some es ↦ elim (extract_entries false es) [ none ↦ false | some found ↦ found ]
]

-- Which calls of Stage the operating system refuses.
pub record StageFaults : Type 0 where
  pub remove_final : Bool
  pub rename : Bool
  pub write_pending : Bool

abbrev pub without : Text → List VersionDir → List VersionDir
without v = keep_if (λ e. not (text_eq e.name v))

-- The version that ReadCurrentVersion gives, "" where it fails.
unfoldable pub current_version : Disk → Text
unfolding read_pointer
current_version d = elim (read_pointer d.current) [ none ↦ [] | some v ↦ v ]

-- Stage behind extractCore: the data folder, and whether it succeeded.
unfoldable pub install : StageFaults → Text → Disk → Disk × Bool
unfolding write_pointer
install f v d =
    let new : VersionDir = record { name = v; is_dir = true; has_core = true } in
    let (p, p_ok) = write_pointer f.write_pending v d.pending in
    if f.remove_final
    then (d, false)
    else if f.rename
    then (record d { versions = without v d.versions }, false)
    else (record d { versions = without v d.versions ++ new ∷ []; pending = p }, p_ok)

-- Stage
unfoldable pub stage_artifact : StageFaults → Text → Option (List Entry) → Disk → Disk × Bool
unfolding install extract_core
stage_artifact f v zip d =
    if not (valid v)
    then (d, false)
    else if text_eq (current_version d) v
    then (d, false)
    else if not (extract_core zip)
    then (d, false)
    else install f v d

-- ===== src/Launcher/Bootstrap.antt =====
-- internal/launcher/bootstrap.go: the core that an installer brings becomes the current version, unless
-- updates have already gone further.
pub mod Forward
use fuelmind.Base.{
  ◌≡◌, Bool, true, false, not, Option, none, some, List, [], ◌∷◌, ◌++◌, Text, codes, text_eq,
  is_empty, keep_if, if◌then◌else◌, Ordering,
}
use fuelmind.Version.{valid, compare_versions}
use fuelmind.Launcher.Disk.{Disk, VersionDir, read_pointer, write_pointer, delete_file, has_binary}

-- Which calls the operating system refuses.
pub record BootFaults : Type 0 where
  pub copy : Bool
  pub rename : Bool
  pub write_current : Bool
  pub write_previous : Bool
  pub delete_pending : Bool

-- The core in the install folder: no file, one that cannot be read, or one that prints these fields
-- (`none` if running it fails).
pub data Bundled : Type 0 where
  absent : Bundled
  unreadable : Bundled
  prints : Option (List Text) → Bundled

-- The version that is adopted, "" if nothing changed, or an error.
pub data Boot : Type 0 where
  adopted : Text → Boot
  boot_failed : Boot

unfoldable pub probe_version : Option (List Text) → Option Text
probe_version (some (name ∷ v ∷ [])) =
    if text_eq name (codes "fuelmind-core") then (if valid v then some v else none) else none
probe_version o = none

-- installVersion: the folders, and whether it succeeded.
unfoldable pub install_version : BootFaults → Text → List VersionDir → List VersionDir × Bool
install_version f v dirs =
    let others = keep_if (λ e. not (text_eq e.name v)) dirs in
    if f.copy
    then (dirs, false)
    else if f.rename
    then (others, false)
    else (others ++ record { name = v; is_dir = true; has_core = true } ∷ [], true)

-- return v, WriteCurrentVersion(baseDir, v)
unfoldable pub activate : BootFaults → Text → Disk → Boot × Disk
unfolding write_pointer
activate f v d =
    let (c, done) = write_pointer f.write_current v d.current in
    (if done then adopted v else boot_failed, record d { current = c })

-- The upgrade of an installer: the old version becomes the previous one.
unfoldable pub upgrade : BootFaults → Text → Text → Disk → Boot × Disk
unfolding write_pointer delete_file activate
upgrade f v cur d =
    let (p, p_ok) = write_pointer f.write_previous cur d.previous in
    let (q, q_ok) = delete_file f.delete_pending d.pending in
    if not p_ok
    then (boot_failed, record d { previous = p })
    else if not q_ok
    then (boot_failed, record d { previous = p; pending = q })
    else activate f v (record d { previous = p; pending = q })

abbrev is_newer : Ordering → Bool
is_newer Ordering.gt = true
is_newer _ = false

-- The `switch` behind installVersion.
unfoldable pub after_install : BootFaults → Text → Text → Disk × Bool → Boot × Disk
unfolding activate upgrade
after_install f v cur (d, false) = (boot_failed, d)
after_install f v cur (d, true) =
    if is_empty cur
    then activate f v d
    else if is_newer (compare_versions v cur)
    then upgrade f v cur d
    else (adopted [], d)

-- Bootstrap behind the readings.
unfoldable pub place : BootFaults → Text → Text → Disk → Boot × Disk
unfolding has_binary install_version after_install activate
place f v cur d =
    let (dirs, done) = install_version f v d.versions in
    if has_binary v d
    then (if is_empty cur then activate f v d else (adopted [], d))
    else after_install f v cur (record d { versions = dirs }, done)

-- Bootstrap
unfoldable pub bootstrap : BootFaults → Bundled → Disk → Boot × Disk
unfolding probe_version read_pointer place
bootstrap f absent d = (adopted [], d)
bootstrap f unreadable d = (boot_failed, d)
bootstrap f (prints o) d = elim (probe_version o) [
  | none ↦ (boot_failed, d)
  | some v ↦ elim (read_pointer d.current) [ none ↦ (boot_failed, d) | some cur ↦ place f v cur d ]
]

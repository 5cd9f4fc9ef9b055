-- ===== src/Backup.antt =====
-- internal/backup/backup.go: the nightly copy of the database, its name, and which copies are kept.
pub mod Name
pub mod Order
pub mod Retention
mod Tests
use fuelmind.Base.{
  ℕ, zero, suc, ◌+◌, ◌-◌, ◌*◌, Bool, true, false, not, ◌&&◌, ◌||◌, Option, none, some, List, [],
  ◌∷◌, ◌++◌, Text, codes, text_eq, ltb, leb, ◌==◌, has_prefix, length, take, drop, any, keep_if,
  if◌then◌else◌,
}

abbrev pub default_hour : ℕ
default_hour = 2

abbrev pub hour_midnight : ℕ
hour_midnight = 24

pub record Config : Type 0 where
  pub hour : ℕ
  pub keep : ℕ

-- NewAgent
unfoldable pub new_agent : Config → Config
new_agent cfg = record {
  hour = if cfg.hour == 0 then default_hour else cfg.hour;
  keep = if cfg.keep == 0 then 7 else cfg.keep;
}

-- nextRun, where `now` and the result count the seconds since some local midnight and a day has 24 hours
unfoldable pub next_run : Config → ℕ → ℕ → ℕ
next_run cfg day_start now =
    let hour = if cfg.hour == hour_midnight then 0 else cfg.hour in
    let next = day_start + hour * 3600 in if not (ltb now next) then next + 24 * 3600 else next

-- An entry of the folder; `mod_time` is none where its info cannot be read.
pub record Entry : Type 0 where
  pub name : Text
  pub is_dir : Bool
  pub mod_time : Option ℕ

abbrev pub is_taken : Text → List Entry → Bool
is_taken name = any (λ (e : Entry). text_eq e.name name)

-- The name that the loop tries in its round `i`; `stamp` is the time then and `itoa` prints a number.
unfoldable pub candidate : (ℕ → Text) → (ℕ → Text) → ℕ → Text
candidate stamp itoa zero = codes "fuelmind_" ++ (stamp 0 ++ codes ".db")
candidate stamp itoa (suc i) =
    codes "fuelmind_" ++ (stamp (suc i) ++ (codes "-" ++ (itoa (suc i) ++ codes ".db")))

-- What os.Stat finds out about a name: that it is there, that it is not, or another error.
pub data Stat : Type 0 where
  present : Stat
  not_exist : Stat
  stat_error : Stat

-- os.IsNotExist
abbrev pub is_not_exist : Stat → Bool
is_not_exist present = false
is_not_exist not_exist = true
is_not_exist stat_error = false

-- The loop of PerformBackup over the names; none is no end within the fuel.
unfoldable pub free_name : (ℕ → Text) → (Text → Stat) → ℕ → ℕ → Option Text
free_name names stat zero i = none
free_name names stat (suc fuel) i =
    let rest = free_name names stat fuel (i + 1) in
    if is_not_exist (stat (names i)) then some (names i) else rest

-- name[len(name)-3:] == ".db", which is filepath.Ext of a name that has no separator
abbrev has_db_extension : Text → Bool
has_db_extension name = leb 3 (length name) && text_eq (drop (length name - 3) name) (codes ".db")

-- isNightlyBackup; names of the folder are ASCII, as those that the agent writes.
unfoldable pub is_nightly_backup : Text → Bool
unfolding text_eq
is_nightly_backup name =
    ltb 12 (length name) && has_db_extension name && text_eq (take 9 name) (codes "fuelmind_")

pub record BackupFile : Type 0 where
  pub name : Text
  pub mod_time : ℕ

-- The loop over the entries.
unfoldable pub backup_files : List Entry → List BackupFile
unfolding is_nightly_backup
backup_files [] = []
backup_files (e ∷ es) =
    let rest = backup_files es in
    if e.is_dir || not (is_nightly_backup e.name)
    then rest
    else elim e.mod_time [ none ↦ rest | some t ↦ record { name = e.name; mod_time = t } ∷ rest ]

abbrev pub is_named : Text → Entry → Bool
is_named name e = text_eq e.name name

-- The loop that removes files, to its first error.
unfoldable pub remove_files : (Text → Bool) → List BackupFile → List Entry → List Entry
remove_files fails [] dir = dir
remove_files fails (f ∷ fs) dir =
    let rest = remove_files fails fs (keep_if (λ e. not (is_named f.name e)) dir) in
    if fails f.name then dir else rest

-- enforceRetention; `sort` is sort.Slice by the time of modification.
unfoldable pub enforce_retention :
    (List BackupFile → List BackupFile) → (Text → Bool) → ℕ → List Entry → List Entry
unfolding backup_files remove_files
enforce_retention sort fails keep dir =
    let files = backup_files dir in
    if leb (length files) keep
    then dir
    else remove_files fails (take (length files - keep) (sort files)) dir

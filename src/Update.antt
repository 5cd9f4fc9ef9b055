-- ===== src/Update.antt =====
-- internal/update/update.go: the agent that checks for a release, downloads and verifies it, stages it
-- in the data folder that the launcher reads, and asks for the hand-over.
pub mod Check
pub mod Download
pub mod Staging
mod Tests
use fuelmind.Base.{
  ℕ, ◌≡◌, Bool, true, false, not, ◌&&◌, ◌||◌, Option, none, some, List, [], ◌∷◌, ◌++◌, Text, codes,
  text_eq, is_empty, byte_len, trim_space, to_lower, has_prefix, contains, length, keep_if, any,
  ltb, leb, ◌==◌, if◌then◌else◌, Ordering,
}
use fuelmind.Version.{valid, compare_versions, in_rollout}
use fuelmind.Launcher.Disk.{
  File, Disk, VersionDir, read_pointer, write_pointer, has_binary, is_quarantined,
}

pub record Release : Type 0 where
  pub version : Text
  pub artifact_url : Text
  pub checksum_sha256 : Text
  pub rollout_pct : ℕ

-- What the cloud answers to a check.
pub data Response : Type 0 where
  no_content : Response
  manifest : Release → Response
  no_manifest : Response
  refused : Response

-- The result of check: nil, the release, or an error.
pub data Offer : Type 0 where
  nothing_new : Offer
  offered : Release → Offer
  check_failed : Offer

-- The digest of a text, as the bytes of the sum and as hexadecimal text.
pub record Sha256 : Type 0 where
  pub bytes : Text → List ℕ
  pub hex : Text → Text

pub record Config : Type 0 where
  pub station_id : Text
  pub version : Text
  pub supervised : Bool
  pub window : ℕ → Bool

abbrev pub is_newer : Ordering → Bool
is_newer Ordering.gt = true
is_newer _ = false

-- The `switch` at the end of check.
unfoldable pub screen : Sha256 → Config → Disk → Release → Offer
screen h c d rel =
    if not (valid rel.version)
    then check_failed
    else if not (is_newer (compare_versions rel.version c.version))
    then nothing_new
    else if is_quarantined rel.version d.failed
    then nothing_new
    else if not (in_rollout h.bytes c.station_id rel.rollout_pct)
    then nothing_new
    else if not (byte_len rel.checksum_sha256 == 64)
    then check_failed
    else offered rel

unfoldable pub check : Sha256 → Config → Disk → Response → Offer
unfolding screen
check h c d no_content = nothing_new
check h c d (manifest rel) = screen h c d rel
check h c d no_manifest = check_failed
check h c d refused = check_failed

-- The hour of the day is an argument.
unfoldable pub night_window : ℕ → Bool
night_window hour = leb 2 hour && ltb hour 5

-- The two files of a download: dst with ".partial", and dst.
pub record Files : Type 0 where
  pub partial : Option Text
  pub artifact : Option Text

-- What the server sends: bytes from the offset asked for, all bytes, or a status; `whole` says that
-- the body arrives to its end.
pub data Reply : Type 0 where
  partial_content : Text → (whole : Bool) → Reply
  full_content : Text → (whole : Bool) → Reply
  range_refused : Reply
  other_status : Reply
  unreachable : Reply

pub data DownloadError : Type 0 where
  range_restart : DownloadError
  failed : DownloadError

abbrev pub have : Files → Text
have f = elim f.partial [ none ↦ [] | some p ↦ p ]

-- The end of Download, where the partial file holds `p`.
unfoldable pub finish : Text → Bool → Files → Option DownloadError × Files
finish p whole f =
    if whole
    then (none, record { partial = none; artifact = some p })
    else (some failed, record f { partial = some p })

-- Download; the server answers by the number of bytes that are there.
unfoldable pub download : (ℕ → Reply) → Files → Option DownloadError × Files
unfolding finish
download server f = elim (server (length (have f))) [
  | partial_content body whole ↦ finish (have f ++ body) whole f
  | full_content body whole ↦ finish body whole f
  | range_refused ↦ (some range_restart, record f { partial = none })
  | other_status ↦ (some failed, record f { partial = some (have f) })
  | unreachable ↦ (some failed, record f { partial = some (have f) })
]

-- The retry of downloadWithRestart.
abbrev pub retry : (ℕ → Reply) → Option DownloadError × Files → Option DownloadError × Files
retry again (some range_restart, g) = download again g
retry again (some failed, g) = (some failed, g)
retry again (none, g) = (none, g)

-- downloadWithRestart; the second argument answers the second request.
unfoldable pub download_with_restart :
    (ℕ → Reply) → (ℕ → Reply) → Files → Option DownloadError × Files
unfolding download
download_with_restart server again f = retry again (download server f)

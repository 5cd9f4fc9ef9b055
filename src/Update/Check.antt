-- ===== src/Update/Check.antt =====
-- internal/update/update.go, check: which releases the agent takes up.
use fuelmind.Base.{◌≡◌, true, false, byte_len}
use fuelmind.Version.{valid, compare_versions, in_rollout}
use fuelmind.Launcher.Disk.{Disk, is_quarantined}
use fuelmind.Update.{
  Release, Response, manifest, Offer, offered, nothing_new, check_failed, Sha256, Config, is_newer,
}

-- A release that this station may install.
pub record IsWanted (h : Sha256) (c : Config) (d : Disk) (rel : Release) : Type 0 where
  pub is_valid : valid rel.version ≡ true
  pub newer : is_newer (compare_versions rel.version c.version) ≡ true
  pub not_failed : is_quarantined rel.version d.failed ≡ false
  pub rolled_out : in_rollout h.bytes c.station_id rel.rollout_pct ≡ true
  pub checksum : byte_len rel.checksum_sha256 ≡ 64

abbrev Takes : Sha256 → Config → Disk → Response → Offer → Type 0
Takes h c d r (offered rel) = (r ≡ manifest rel) × IsWanted h c d rel
Takes h c d r nothing_new = Unit
Takes h c d r check_failed = Unit

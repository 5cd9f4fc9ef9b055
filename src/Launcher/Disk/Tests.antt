-- ===== src/Launcher/Disk/Tests.antt =====
-- The files of the data folder at concrete contents.
use fuelmind.Base.{inr, some, ◌≡◌, ◌≢◌, refl, false, List, codes, text_eq}
use fuelmind.Version.{valid}
use fuelmind.Launcher.Disk.{
  read_pointer, File, missing, broken, FailedVersion, prune_versions, has_binary,
}
use fuelmind.Launcher.Disk.Prune.{has_binary-prune_versions}
use fuelmind.Launcher.Scenario.{new_version, updating}

abbrev no_list : File (List FailedVersion)
no_list = missing

no_list-broken : no_list ≢ broken
no_list-broken e = cc

names_new : read_pointer updating.pending ≡ some new_version
unfolding read_pointer valid
names_new = refl

-- The version that no pointer names goes.
old_goes : has_binary (codes "1.0.0") (prune_versions (λ v. false) updating) ≡ false
unfolding has_binary prune_versions valid text_eq
old_goes = refl

has_binary-prune_versions_example :
    has_binary new_version (prune_versions (λ v. false) updating) ≡ has_binary new_version updating
has_binary-prune_versions_example =
    has_binary-prune_versions (λ v. false) updating new_version refl (inr (inr names_new))

-- ===== src/Launcher/Bootstrap/Forward/Tests.antt =====
-- An installer with a newer core.
use fuelmind.Base.{◌≡◌, refl, false, some, [], ◌∷◌, codes}
use fuelmind.Version.{valid}
use fuelmind.Launcher.Disk.{read_pointer}
use fuelmind.Launcher.Scenario.{old_version, updating}
use fuelmind.Launcher.Bootstrap.{BootFaults, prints, bootstrap}
use fuelmind.Launcher.Bootstrap.Forward.{GoesForward, bootstrap-GoesForward}

abbrev fine : BootFaults
fine = record {
  copy = false;
  rename = false;
  write_current = false;
  write_previous = false;
  delete_pending = false;
}

reads_old : read_pointer updating.current ≡ some old_version
unfolding read_pointer valid
reads_old = refl

bootstrap-GoesForward_example :
    GoesForward old_version updating
      (bootstrap fine (prints (some (codes "fuelmind-core" ∷ codes "1.4.0" ∷ []))) updating).1
bootstrap-GoesForward_example =
    bootstrap-GoesForward fine (prints (some (codes "fuelmind-core" ∷ codes "1.4.0" ∷ []))) updating
      old_version reads_old refl

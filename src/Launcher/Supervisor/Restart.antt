-- ===== src/Launcher/Supervisor/Restart.antt =====
-- internal/launcher: what a restart of the launcher finds, by readProbation and the start of Run.
use fuelmind.Base.{refl, [], ◌∷◌, ℕ, ◌≡◌, Bool, true, false, some, arith, Text, is_empty}
use fuelmind.Version.{valid}
use fuelmind.Launcher.Disk.{missing, holds, Disk, read_pointer, read_probation}
use fuelmind.Launcher.Supervisor.{start, started}

pub holds-read : (v : Text) → valid v ≡ true → read_pointer (holds v) ≡ some v
unfolding read_pointer
holds-read v h = ground arith

pub valid-full : (v : Text) → valid v ≡ true → is_empty v ≡ false
unfolding valid
valid-full [] h = cc
valid-full (c ∷ v) h = refl

pub start_named :
    (fault : Bool) (now : ℕ) (v : Text) (d : Disk)
    → read_pointer d.current ≡ some v
    → is_empty v ≡ false
    → start fault now d ≡ some (started fault now v d)
unfolding start
start_named fault now v d e full = rw (e, start) (rw full)

pub started_outside :
    (fault : Bool) (now : ℕ) (v : Text) (d : Disk)
    → d.probation ≡ missing
    → (started fault now v d).probation_until ≡ 0
unfolding started read_probation
started_outside fault now v d e = rw (e, read_probation)

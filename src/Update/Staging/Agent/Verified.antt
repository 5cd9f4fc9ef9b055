-- ===== src/Update/Staging/Agent/Verified.antt =====
-- internal/update/update.go, stage: nothing is staged that does not have the checksum of its manifest.
use fuelmind.Base.{
  ◌≡◌, refl, Bool, true, false, ◌&&◌, inl, inr, Bool-cases, Option-cases, Option, some, List, [],
  ◌∷◌, ◌++◌, Text, text_eq, text_eq_iff, text_eq_refl, trim_space, to_lower, any, arith,
}
use mathlib.Core.Path.{subst}
use fuelmind.Version.{valid}
use fuelmind.Launcher.Disk.{holds, Disk, VersionDir, write_pointer, has_binary}
use fuelmind.Update.{Release, Sha256, download_with_restart}
use fuelmind.Update.Staging.{
  Entry, StageFaults, install, stage_artifact, current_version, extract_core,
}
use fuelmind.Update.Staging.Agent.{World, stage, verify_artifact, downloaded}

-- Version `v` is staged, and the versions that the launcher runs and goes back to are as they were.
pub record IsStaged (v : Text) (d d' : Disk) : Type 0 where
  pub is_valid : valid v ≡ true
  pub not_running : text_eq (current_version d) v ≡ false
  pub pending_now : d'.pending ≡ holds v
  pub has_core : has_binary v d' ≡ true
  pub current_kept : d'.current ≡ d.current
  pub previous_kept : d'.previous ≡ d.previous

-- No pointer has changed.
pub record IsUntouched (d d' : Disk) : Type 0 where
  pub pending_kept : d'.pending ≡ d.pending
  pub current_kept : d'.current ≡ d.current
  pub previous_kept : d'.previous ≡ d.previous

abbrev pub Outcome : Text → Disk → Disk × Bool → Type 0
Outcome v d (d', true) = IsStaged v d d'
Outcome v d (d', false) = IsUntouched d d'

untouched : (d : Disk) → IsUntouched d d
untouched d = record { pending_kept = refl; current_kept = refl; previous_kept = refl }

newest_core :
    (v : Text) (es : List VersionDir) (new : VersionDir)
    → text_eq new.name v ≡ true
    → new.has_core ≡ true
    → any (λ e. text_eq e.name v && e.has_core) (es ++ new ∷ []) ≡ true
newest_core v [] new n c = ground arith
newest_core v (e ∷ es) new n c = ground (arith, newest_core v es new)

install-Outcome :
    (f : StageFaults) (v : Text) (d : Disk)
    → valid v ≡ true
    → text_eq (current_version d) v ≡ false
    → Outcome v d (install f v d)
unfolding install write_pointer has_binary
install-Outcome f v d ok other = elim (Bool-cases f.remove_final) [
  | inl e ↦ simp e (untouched d)
  | inr e ↦ elim (Bool-cases f.rename) [
    | inl g ↦
        simp (e, g) (record { pending_kept = refl; current_kept = refl; previous_kept = refl })
    | inr g ↦ elim (Bool-cases f.write_pending) [
      | inl w ↦
          simp (e, g, ok, w)
            (record { pending_kept = refl; current_kept = refl; previous_kept = refl })
      | inr w ↦
          simp (e, g, ok, w)
            (record {
              is_valid = ok;
              not_running = other;
              pending_now = refl;
              has_core = newest_core v _ _ (text_eq_refl v) refl;
              current_kept = refl;
              previous_kept = refl;
            })
    ]
  ]
]

stage_artifact-install :
    (f : StageFaults) (v : Text) (zip : Option (List Entry)) (d : Disk)
    → valid v ≡ true
    → text_eq (current_version d) v ≡ false
    → extract_core zip ≡ true
    → stage_artifact f v zip d ≡ install f v d
unfolding stage_artifact
stage_artifact-install f v zip d ok other e = ground (arith, ok, other, e)

stage_artifact-Outcome :
    (f : StageFaults) (v : Text) (zip : Option (List Entry)) (d : Disk)
    → Outcome v d (stage_artifact f v zip d)
unfolding stage_artifact
stage_artifact-Outcome f v zip d = elim (Bool-cases (valid v)) [
  | inr e ↦ rw e (untouched d)
  | inl ok ↦ elim (Bool-cases (text_eq (current_version d) v)) [
    | inl e ↦ rw (ok, e) (untouched d)
    | inr other ↦ elim (Bool-cases (extract_core zip)) [
      | inr e ↦ rw (ok, other, e) (untouched d)
      | inl e ↦ rw (stage_artifact-install f v zip d ok other e) (install-Outcome f v d ok other)
    ]
  ]
]

-- The artifact that was downloaded has the checksum of the manifest.
abbrev pub IsVerified : Sha256 → World → Release → Type 0
IsVerified h w rel =
    (artifact : Text) × (downloaded (download_with_restart w.server w.again w.files)
      ≡ some artifact)
    × (to_lower (h.hex artifact) ≡ to_lower (trim_space rel.checksum_sha256))

abbrev pub Staging : Sha256 → World → Release → Disk → Disk × Bool → Type 0
Staging h w rel d (d', true) = IsVerified h w rel × IsStaged rel.version d d'
Staging h w rel d (d', false) = IsUntouched d d'

join :
    (h : Sha256) (w : World) (rel : Release) (d : Disk) (p : Disk × Bool)
    → IsVerified h w rel
    → Outcome rel.version d p
    → Staging h w rel d p
join h w rel d (d', true) v o = (v, o)
join h w rel d (d', false) v o = o

pub stage-Staging :
    (h : Sha256) (w : World) (rel : Release) (d : Disk) → Staging h w rel d (stage h w rel d)
unfolding stage verify_artifact
stage-Staging h w rel d = elim (Bool-cases w.reachable) [
  | inr e ↦ simp e (untouched d)
  | inl e ↦ elim (Option-cases (downloaded (download_with_restart w.server w.again w.files))) [
    | inl g ↦ simp (e, g) (untouched d)
    | inr (artifact, g) ↦
        elim (Bool-cases
          (text_eq (to_lower (h.hex artifact)) (to_lower (trim_space rel.checksum_sha256)))) [
            | inr x ↦ simp (e, g, x) (untouched d)
            | inl x ↦
                simp (e, g, x)
                  (join h w rel d _ (artifact, g, (text_eq_iff _ _).0 x)
                    (stage_artifact-Outcome w.stage_faults rel.version (w.unzip artifact) d))
          ]
  ]
]

-- A release is staged only where the artifact that was downloaded has the checksum of its manifest:
-- then pending.json names it, its binary is installed, its name is valid and it is not the version
-- that runs.
pub stage-IsVerified :
    (h : Sha256) (w : World) (rel : Release) (d d' : Disk)
    → stage h w rel d ≡ (d', true)
    → IsVerified h w rel × IsStaged rel.version d d'
stage-IsVerified h w rel d d' e = subst (Staging h w rel d) e (stage-Staging h w rel d)

-- Where staging fails, no pointer of the data folder has changed.
pub stage-IsUntouched :
    (h : Sha256) (w : World) (rel : Release) (d d' : Disk)
    → stage h w rel d ≡ (d', false)
    → IsUntouched d d'
stage-IsUntouched h w rel d d' e = subst (Staging h w rel d) e (stage-Staging h w rel d)

-- ===== src/Launcher/Bootstrap/Forward.antt =====
-- internal/launcher/bootstrap.go: an installer never takes a station back to an older version.
mod Tests
use fuelmind.Base.{
  ◌≡◌, refl, ◌⊎◌, inl, inr, Bool, true, false, not, Bool-cases, Option-cases, Option, none, some,
  List, [], ◌∷◌, Text, codes, text_eq, is_empty, arith, if◌then◌else◌, ap, ◌∙◌, Ordering,
}
use fuelmind.Version.{valid, compare_versions}
use fuelmind.Launcher.Disk.{File, holds, Disk, read_pointer, write_pointer, delete_file, has_binary}
use fuelmind.Launcher.Supervisor.Rollback.{read_pointer-valid}
use fuelmind.Launcher.Bootstrap.{
  BootFaults, Bundled, absent, unreadable, prints, Boot, adopted, boot_failed, activate, upgrade,
  after_install, place, install_version, bootstrap, probe_version, is_newer,
}

-- The current version stays, or a newer one replaces it, with the way back to it.
abbrev pub GoesForward : Text → Disk → Disk → Type 0
GoesForward cur d d' =
    (d'.current ≡ d.current)
    ⊎ ((v : Text) × (d'.current ≡ holds v)
        × (is_newer (compare_versions v cur) ≡ true)
        × (d'.previous ≡ holds cur))

upgrade-GoesForward :
    (f : BootFaults) (v cur : Text) (d : Disk)
    → valid cur ≡ true
    → valid v ≡ true
    → is_newer (compare_versions v cur) ≡ true
    → GoesForward cur d (upgrade f v cur d).1
unfolding upgrade activate write_pointer
upgrade-GoesForward f v cur d ok ok' newer = elim (Bool-cases f.write_previous) [
  | inl e ↦ inl (simp (ok, e) refl)
  | inr e ↦ elim (Bool-cases (delete_file f.delete_pending d.pending).1) [
    | inr q ↦ inl (simp (ok, e, q) refl)
    | inl q ↦ elim (Bool-cases f.write_current) [
      | inl w ↦ inl (simp (ok, ok', e, q, w) refl)
      | inr w ↦ inr (v, simp (ok, ok', e, q, w) refl, newer, simp (ok, ok', e, q, w) refl)
    ]
  ]
]

after_install-GoesForward :
    (f : BootFaults) (v cur : Text) (p : Disk × Bool)
    → is_empty cur ≡ false
    → valid cur ≡ true
    → valid v ≡ true
    → GoesForward cur p.0 (after_install f v cur p).1
unfolding after_install
after_install-GoesForward f v cur (d, false) full ok ok' = inl refl
after_install-GoesForward f v cur (d, true) full ok ok' =
    elim (Bool-cases (is_newer (compare_versions v cur))) [
      | inl e ↦ rw (full, e) (upgrade-GoesForward f v cur d ok ok' e)
      | inr e ↦ rw (full, e) (inl refl)
    ]

place-GoesForward :
    (f : BootFaults) (v cur : Text) (d : Disk)
    → is_empty cur ≡ false
    → valid cur ≡ true
    → valid v ≡ true
    → GoesForward cur d (place f v cur d).1
unfolding place
place-GoesForward f v cur d full ok ok' = elim (Bool-cases (has_binary v d)) [
  | inl e ↦ inl (rw (e, place) (rw full refl))
  | inr e ↦ rw (e, place) (after_install-GoesForward f v cur _ full ok ok')
]

valid_or_none :
    (o : Option (List Text))
    → (probe_version o ≡ none) ⊎ ((v : Text) × (probe_version o ≡ some v) × (valid v ≡ true))
unfolding probe_version
valid_or_none none = inl refl
valid_or_none (some []) = inl refl
valid_or_none (some (a ∷ [])) = inl refl
valid_or_none (some (a ∷ v ∷ [])) = elim (Bool-cases (valid v)) [
  | inl e ↦ elim (Bool-cases (text_eq a (codes "fuelmind-core"))) [
    | inl n ↦ inr (v, rw (n, e) refl, e)
    | inr n ↦ inl (rw n refl)
  ]
  | inr e ↦ elim (Bool-cases (text_eq a (codes "fuelmind-core"))) [
    | inl n ↦ inl (rw (n, e) refl)
    | inr n ↦ inl (rw n refl)
  ]
]
valid_or_none (some (a ∷ v ∷ c ∷ l)) = inl refl

-- Where a version is current, Bootstrap keeps it, or replaces it by a newer one and makes it the
-- previous version, whichever calls the operating system refuses.
pub bootstrap-GoesForward :
    (f : BootFaults) (b : Bundled) (d : Disk) (cur : Text)
    → read_pointer d.current ≡ some cur
    → is_empty cur ≡ false
    → GoesForward cur d (bootstrap f b d).1
unfolding bootstrap
bootstrap-GoesForward f absent d cur e full = inl refl
bootstrap-GoesForward f unreadable d cur e full = inl refl
bootstrap-GoesForward f (prints o) d cur e full = elim (valid_or_none o) [
  | inl n ↦ inl (rw (n, bootstrap) refl)
  | inr (v, n, ok) ↦
      rw (n, e, bootstrap)
        (place-GoesForward f v cur d full (read_pointer-valid d.current cur e full) ok)
]

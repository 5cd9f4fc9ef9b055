-- ===== src/Update/Staging/Agent/Handover.antt =====
-- internal/update/update.go, Tick, and the launcher behind it: what is handed over is what runs next.
use fuelmind.Base.{
  ap, ◌∙◌, ◌≡◌, refl, Bool, true, false, inl, inr, Bool-cases, Option-cases, Option, none, some,
  Text, is_empty, arith, if◌then◌else◌,
}
use mathlib.Core.Path.{subst}
use fuelmind.Launcher.Supervisor.Rollback.{read_pointer-valid}
use fuelmind.Version.{valid}
use fuelmind.Launcher.Disk.{Disk, read_pointer, has_binary}
use fuelmind.Launcher.Supervisor.{Options, Round, Supervisor, handoff}
use fuelmind.Launcher.Supervisor.Restart.{holds-read, valid-full}
use fuelmind.Launcher.Supervisor.Handoff.{handoff-switches}
use fuelmind.Update.{Release, Sha256, Config, Offer, offered, nothing_new, check_failed, check}
use fuelmind.Update.Staging.Agent.{
  World, Ticked, tick, maybe_handoff, staged_version, after_check, after_stage, stage,
}
use fuelmind.Update.Staging.Agent.Verified.{Staging, stage-Staging}

-- A version that can be handed over from `d`, and that the agent may hand over now.
abbrev pub HandingFrom : Config → World → Disk → Option Text → Type 0
HandingFrom c w d none = Unit
HandingFrom c w d (some v) =
    (c.supervised ≡ true)
    × (c.window w.now ≡ true)
    × (read_pointer d.pending ≡ some v)
    × (is_empty v ≡ false)
    × (has_binary v d ≡ true)

abbrev pub Handing : Config → World → Ticked → Type 0
Handing c w t = HandingFrom c w t.disk t.handed

maybe_handoff-Handing :
    (c : Config) (w : World) (v : Text) (d : Disk)
    → read_pointer d.pending ≡ some v
    → is_empty v ≡ false
    → has_binary v d ≡ true
    → Handing c w (maybe_handoff c w.now v d)
unfolding maybe_handoff
maybe_handoff-Handing c w v d e full core = elim (Bool-cases c.supervised) [
  | inr s ↦ simp s tt
  | inl s ↦ elim (Bool-cases (c.window w.now)) [
    | inr n ↦ simp (s, n) tt
    | inl n ↦ simp (s, n) (refl, refl, e, full, core)
  ]
]

after_stage-Handing :
    (h : Sha256) (c : Config) (w : World) (rel : Release) (d : Disk) (p : Disk × Bool)
    → Staging h w rel d p
    → Handing c w (after_stage c w.now rel.version p)
after_stage-Handing h c w rel d (d', false) s = tt
after_stage-Handing h c w rel d (d', true) s =
    maybe_handoff-Handing c w rel.version d'
      (rw s.1.pending_now (holds-read rel.version s.1.is_valid))
      (valid-full rel.version s.1.is_valid) s.1.has_core

after_check-Handing :
    (h : Sha256) (c : Config) (w : World) (d : Disk) (o : Offer)
    → Handing c w (after_check h c w d o)
unfolding after_check
after_check-Handing h c w d nothing_new = tt
after_check-Handing h c w d check_failed = tt
after_check-Handing h c w d (offered rel) =
    after_stage-Handing h c w rel d (stage h w rel d) (stage-Staging h w rel d)

staged_version-some :
    (d : Disk) (v : Text)
    → staged_version d ≡ some v
    → (read_pointer d.pending ≡ some v) × (is_empty v ≡ false) × (has_binary v d ≡ true)
unfolding staged_version
staged_version-some d v h = named (read_pointer d.pending) refl h
  where
    named :
        (o : Option Text)
        → read_pointer d.pending ≡ o
        → elim o [
          | none ↦ none
          | some u ↦ if is_empty u then none else if has_binary u d then some u else none
        ]
          ≡ some v
        → (read_pointer d.pending ≡ some v) × (is_empty v ≡ false) × (has_binary v d ≡ true)
    named none e k = absurd (ground arith)
    named (some u) e k = ground arith

tick-Handing : (h : Sha256) (c : Config) (w : World) (d : Disk) → Handing c w (tick h c w d)
unfolding tick
tick-Handing h c w d = elim (Option-cases (staged_version d)) [
  | inl e ↦ rw (e, tick) (after_check-Handing h c w d (check h c d w.response))
  | inr (v, e) ↦
      let known = staged_version-some d v e in
      rw (e, tick) (maybe_handoff-Handing c w v d known.0 known.1 known.2)
]

-- Where a tick asks the launcher for a hand-over, the core is supervised and the window is open, and
-- the launcher, which runs a version with a valid name and is refused nothing by the operating system,
-- runs the version that the tick named next.
pub tick-handoff :
    (h : Sha256) (c : Config) (w : World) (d : Disk) (v : Text) (o : Options) (r : Round)
    (s : Supervisor)
    → (tick h c w d).handed ≡ some v
    → s.disk ≡ (tick h c w d).disk
    → valid s.current ≡ true
    → r.faults.write_previous ≡ false
    → r.faults.write_current ≡ false
    → r.faults.delete_pending ≡ false
    → (c.supervised ≡ true) × (c.window w.now ≡ true) × ((handoff o r s).current ≡ v)
tick-handoff h c w d v o r s asks same ok wp wc dp =
    let known : HandingFrom c w (tick h c w d).disk (some v) =
      subst (HandingFrom c w (tick h c w d).disk) asks (tick-Handing h c w d) in
    (
      known.0,
      known.1,
      handoff-switches o r s v (ap (λ x. read_pointer x.pending) same ∙ known.2) known.3
          (read_pointer-valid _ v known.2 known.3) ok (ap (has_binary v) same ∙ known.4) wp wc dp,
    )

-- ===== src/Launcher/Supervisor/Handoff.antt =====
-- internal/launcher/supervisor.go: the case of ExitCodeRequestRestart, with switchTo.
use fuelmind.Base.{
  ℕ, ◌+◌, ◌≡◌, refl, ◌⊎◌, inl, inr, Bool, true, false, some, [], arith, Text, Bool-cases,
  Option-cases, is_empty,
}
use fuelmind.Version.{valid}
use fuelmind.Launcher.Disk.{
  File, missing, broken, holds, Disk, Faults, read_pointer, write_pointer, delete_file, has_binary,
  switch_to, write_probation,
}
use fuelmind.Launcher.CrashLoop.{reset}
use fuelmind.Launcher.Supervisor.{
  Options, Round, Supervisor, handoff, switch, drop_pending, start, started,
}
use fuelmind.Launcher.Supervisor.Restart.{holds-read, start_named, started_outside}
use fuelmind.Launcher.Supervisor.Rollback.{read_pointer-valid}

-- The launcher at `s` has handed over to `new` and is at `t`.
pub record HandedOver (o : Options) (r : Round) (new : Text) (s t : Supervisor) : Type 0 where
  pub was_pending : read_pointer s.disk.pending ≡ some new
  pub is_valid : valid new ≡ true
  pub has_core : has_binary new s.disk ≡ true
  pub runs : t.current ≡ new
  pub current_now : t.disk.current ≡ holds new
  pub previous_now : t.disk.previous ≡ holds s.current
  pub pending_now : t.disk.pending ≡ missing
  pub versions_kept : t.disk.versions ≡ s.disk.versions
  pub window : t.probation_until ≡ r.ended + o.probation
  pub no_count : t.probation_crashes ≡ 0
  pub no_crashes : t.detector.timestamps ≡ []
  pub saved :
      r.faults.write_probation ≡ false
      → t.disk.probation
        ≡ holds (record { version = new; until = r.ended + o.probation; crashes = 0 })

-- Every other outcome keeps the running version and its probation.
pub record Stayed (f : Faults) (s t : Supervisor) : Type 0 where
  pub same_current : f.delete_pending ≡ false → t.disk.current ≡ s.disk.current
  pub runs : t.current ≡ s.current
  pub versions_kept : t.disk.versions ≡ s.disk.versions
  pub window : t.probation_until ≡ s.probation_until
  pub count : t.probation_crashes ≡ s.probation_crashes
  pub crashes : t.detector ≡ s.detector
  pub file : t.disk.probation ≡ s.disk.probation

delete_file-done {ℓ} :
    {A : Type ℓ} (b : Bool) (x : File A)
    → (delete_file b x).1 ≡ true
    → (delete_file b x).0 ≡ missing
unfolding delete_file
delete_file-done b missing h = refl
delete_file-done b broken h = ground arith
delete_file-done b (holds v) h = ground arith

-- The outcome of switchTo, by the call that the operating system refuses.
switch_to-done :
    (f : Faults) (new old : Text) (d : Disk)
    → (switch_to f new old d).1 ≡ true
    → let e = (switch_to f new old d).0 in
      (e.current ≡ holds new)
      × (e.previous ≡ holds old)
      × (e.pending ≡ missing)
      × (e.versions ≡ d.versions)
unfolding switch_to write_pointer
switch_to-done f new old d h = ground (arith, delete_file-done f.delete_pending d.pending)

delete_file-allowed {ℓ} :
    {A : Type ℓ} (b : Bool) (x : File A) → b ≡ false → (delete_file b x).1 ≡ true
unfolding delete_file
delete_file-allowed b missing h = refl
delete_file-allowed b broken h = rw h
delete_file-allowed b (holds v) h = rw h

switch_to-undone :
    (f : Faults) (new old : Text) (d : Disk)
    → (switch_to f new old d).1 ≡ false
    → f.delete_pending ≡ false
    → (switch_to f new old d).0.current ≡ d.current
unfolding switch_to write_pointer
switch_to-undone f new old d h q = ground (arith, delete_file-allowed f.delete_pending d.pending)

switch_to-keeps :
    (f : Faults) (new old : Text) (d : Disk)
    → ((switch_to f new old d).0.versions ≡ d.versions)
      × ((switch_to f new old d).0.probation ≡ d.probation)
unfolding switch_to
switch_to-keeps f new old d = ground arith

switch_cases :
    (o : Options) (r : Round) (new : Text) (s : Supervisor)
    → read_pointer s.disk.pending ≡ some new
    → is_empty new ≡ false
    → has_binary new s.disk ≡ true
    → Stayed r.faults s (switch o r new s) ⊎ HandedOver o r new s (switch o r new s)
unfolding switch write_probation reset
switch_cases o r new s was full core =
    elim (Bool-cases (switch_to r.faults new s.current s.disk).1) [
      | inr undone ↦ inl (
          rw undone (record {
            same_current = switch_to-undone r.faults new s.current s.disk undone;
            runs = refl;
            versions_kept = (switch_to-keeps r.faults new s.current s.disk).0;
            window = refl;
            count = refl;
            crashes = refl;
            file = (switch_to-keeps r.faults new s.current s.disk).1;
          }))
      | inl done ↦
          let facts = switch_to-done r.faults new s.current s.disk done in
          inr (
            rw done (record {
              was_pending = was;
              is_valid = read_pointer-valid s.disk.pending new was full;
              has_core = core;
              runs = refl;
              current_now = facts.0;
              previous_now = facts.1;
              pending_now = facts.2;
              versions_kept = facts.3;
              window = refl;
              no_count = refl;
              no_crashes = refl;
              saved = λ w. rw w;
            }))
    ]

drop_pending-Stayed : (f : Faults) (s : Supervisor) → Stayed f s (drop_pending f s)
unfolding drop_pending
drop_pending-Stayed f s = ground arith

-- When the core asks for a hand-over, the launcher goes on with the version it runs and the
-- probation of that, or it runs the pending version: one with a valid name and an installed binary,
-- which `current.json` names, with the old version as the way back and a fresh probation, which is
-- also on disk unless the operating system refuses it.
pub handoff_cases :
    (o : Options) (r : Round) (s : Supervisor)
    → Stayed r.faults s (handoff o r s) ⊎ ((new : Text) × HandedOver o r new s (handoff o r s))
unfolding handoff
handoff_cases o r s = elim (Option-cases (read_pointer s.disk.pending)) [
  | inl e ↦ inl (rw (e, handoff) (ground arith))
  | inr (new, e) ↦ elim (Bool-cases (is_empty new)) [
    | inl none_named ↦ inl (rw (e, handoff) (rw none_named (ground arith)))
    | inr full ↦ elim (Bool-cases (has_binary new s.disk)) [
      | inr bare ↦ inl (rw (e, handoff) (rw (full, bare) (drop_pending-Stayed r.faults s)))
      | inl core ↦
          rw (e, handoff) (rw (full, core) (named new (switch_cases o r new s e full core)))
    ]
  ]
]
  where
    named :
        (new : Text)
        → Stayed r.faults s (switch o r new s) ⊎ HandedOver o r new s (switch o r new s)
        → Stayed r.faults s (switch o r new s)
          ⊎ ((v : Text) × HandedOver o r v s (switch o r new s))
    named new (inl h) = inl h
    named new (inr h) = inr (new, h)

handoff_named :
    (o : Options) (r : Round) (s : Supervisor) (new : Text)
    → read_pointer s.disk.pending ≡ some new
    → is_empty new ≡ false
    → has_binary new s.disk ≡ true
    → handoff o r s ≡ switch o r new s
unfolding handoff
handoff_named o r s new e full core = rw (e, handoff) (rw (full, core))

switch_to-clean :
    (f : Faults) (new old : Text) (d : Disk)
    → valid new ≡ true
    → valid old ≡ true
    → f.write_previous ≡ false
    → f.write_current ≡ false
    → f.delete_pending ≡ false
    → (switch_to f new old d).1 ≡ true
unfolding switch_to write_pointer
switch_to-clean f new old d ok ok' w c p =
    ground (arith, ok, ok', w, c, delete_file-allowed f.delete_pending d.pending p)

-- Where the operating system refuses nothing, the pending version runs next.
pub handoff-switches :
    (o : Options) (r : Round) (s : Supervisor) (new : Text)
    → read_pointer s.disk.pending ≡ some new
    → is_empty new ≡ false
    → valid new ≡ true
    → valid s.current ≡ true
    → has_binary new s.disk ≡ true
    → r.faults.write_previous ≡ false
    → r.faults.write_current ≡ false
    → r.faults.delete_pending ≡ false
    → (handoff o r s).current ≡ new
unfolding switch
handoff-switches o r s new e full ok old core w c p =
    rw
      (
        handoff_named o r s new e full core,
        switch,
        switch_to-clean r.faults new s.current s.disk ok old w c p,
      )
      refl

switch_to_stranded :
    (f : Faults) (new old : Text) (d : Disk)
    → d.pending ≡ holds new
    → valid new ≡ true
    → valid old ≡ true
    → f.write_previous ≡ false
    → f.write_current ≡ false
    → f.delete_pending ≡ true
    → switch_to f new old d
      ≡ (record d { previous = holds old; current = holds new; pending = holds new }, false)
unfolding switch_to write_pointer delete_file
switch_to_stranded f new old d e v w p c q = rw (v, w, p, c, q) (rw (e, delete_file))

-- Where only the deletion of pending.json fails, the launcher goes on with the old version, although
-- `current.json` names the new one; with no probation on disk, the next start of the launcher runs
-- the new version outside any probation.
pub handoff_stranded :
    (o : Options) (r : Round) (s : Supervisor) (new : Text) (fault : Bool) (now : ℕ)
    → s.disk.pending ≡ holds new
    → s.disk.probation ≡ missing
    → valid new ≡ true
    → is_empty new ≡ false
    → valid s.current ≡ true
    → has_binary new s.disk ≡ true
    → r.faults.write_previous ≡ false
    → r.faults.write_current ≡ false
    → r.faults.delete_pending ≡ true
    → ((handoff o r s).current ≡ s.current)
      × ((t : Supervisor) × (start fault now (handoff o r s).disk ≡ some t)
          × (t.current ≡ new)
          × (t.probation_until ≡ 0))
unfolding switch started
handoff_stranded o r s new fault now e gone ok full old core wp wc dp =
    rw
      (
        handoff_named o r s new (rw e (holds-read new ok)) full core,
        switch,
        switch_to_stranded r.faults new s.current s.disk e ok old wp wc dp,
      )
      (
        refl,
        (
          started fault now new d,
          start_named fault now new d (holds-read new ok) full,
          refl,
          started_outside fault now new d gone,
        ),
      )
  where
    d : Disk
    d = record s.disk { previous = holds s.current; current = holds new; pending = holds new }

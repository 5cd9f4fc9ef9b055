-- ===== src/Launcher/Supervisor/Probation.antt =====
-- internal/launcher/supervisor.go: probation over any number of rounds, and across a restart.
use fuelmind.Base.{
  ℕ, ◌+◌, ◌≤◌, ◌<◌, ◌≡◌, ◌≢◌, refl, inl, inr, Bool, true, false, ◌&&◌, Option, none, some, List, [],
  ◌∷◌, arith, Text, Bool-cases, is_empty, codes, leb, ltb, sym, ◌∙◌, text_eq_refl,
}
use mathlib.Core.Path.{subst}
use mathlib.Core.Option.{some-injective}
use fuelmind.Launcher.Disk.{
  holds, Disk, has_binary, is_quarantined, broken, read_pointer, prune_versions, read_probation,
  Faults,
}
use fuelmind.Launcher.Supervisor.{
  Options, Round, Supervisor, Exit, killed, failed, exited, rollback, or_stay, after_exit, commit,
  round, started, start, after_child, probation_crash, after_count, count_crash, crash_loop,
}
use fuelmind.Launcher.Supervisor.Rollback.{RolledBack, rollback_cases, rollback_succeeds}
use fuelmind.Launcher.Supervisor.Restart.{holds-read, start_named, valid-full}
use fuelmind.Launcher.Supervisor.Tracks.{
  Tracks, IsQuiet, or_stay_rule, RolledBack-Tracks, after_exit-Tracks,
}

commit-current : (r : Round) (d : Disk) → ((commit r d).current ≡ d.current)
unfolding commit prune_versions
commit-current r d = refl

Tracks-mono : {now later : ℕ} {s : Supervisor} → now ≤ later → Tracks now s → Tracks later s
Tracks-mono le h = record {
  is_valid = h.is_valid;
  named = h.named;
  saved = λ open_window. h.saved (omega arith);
}

-- The state in which the child has ended.
after_child-Tracks :
    (now : ℕ) (watched : Bool) (r : Round) (s : Supervisor)
    → now ≤ r.ended
    → IsQuiet r s
    → Tracks now s
    → Tracks r.ended (record s { disk = after_child watched r s.disk })
unfolding after_child
after_child-Tracks now watched r s le q h = elim (Bool-cases (watched && r.survived)) [
  | inl through ↦ rw through (record {
    is_valid = h.is_valid;
    named = commit-current r (r.core s.disk) ∙ (q.same_current ∙ h.named);
    saved = λ open_window. absurd (omega (arith, q.ended_window (ground arith)));
  })
  | inr short ↦ rw short (record {
    is_valid = h.is_valid;
    named = q.same_current ∙ h.named;
    saved = λ open_window. q.same_probation ∙ h.saved (omega arith);
  })
]

pub round-Tracks :
    (now : ℕ) (o : Options) (r : Round) (s : Supervisor)
    → now ≤ r.started
    → r.started ≤ r.ended
    → IsQuiet r s
    → Tracks now s
    → Tracks r.ended (round o r s).0
unfolding round
round-Tracks now o r s le le' q h = elim (Bool-cases (has_binary s.current s.disk)) [
  | inl core ↦ rw core (
      after_exit-Tracks r.ended o _ r r.exit _ q.can_write q.can_delete
        (after_child-Tracks now _ r s (omega arith) q h))
  | inr bare ↦ rw bare (
      or_stay_rule (λ p. Tracks r.ended p.0) _ _ _ _ _ _
        (λ prev t. RolledBack-Tracks r.ended r.faults s.current prev _ t)
        (Tracks-mono {now = now} (omega arith) h))
]

-- The loop of Run over any number of rounds.
unfoldable pub run : Options → List Round → Supervisor → Supervisor
run o [] s = s
run o (r ∷ rs) s = run o rs (round o r s).0

-- Quiet rounds, in order of time, that end by `end`.
abbrev pub QuietRun : ℕ → Options → List Round → Supervisor → ℕ → Type 0
QuietRun now o [] s end = now ≤ end
QuietRun now o (r ∷ rs) s end =
    (now ≤ r.started)
    × (r.started ≤ r.ended)
    × IsQuiet r s
    × QuietRun r.ended o rs (round o r s).0 end

run-Tracks :
    (o : Options) (rs : List Round) (now end : ℕ) (s : Supervisor)
    → QuietRun now o rs s end
    → Tracks now s
    → Tracks end (run o rs s)
unfolding run
run-Tracks o [] now end s q h = Tracks-mono {now = now} q h
run-Tracks o (r ∷ rs) now end s q h =
    run-Tracks o rs r.ended end (round o r s).0 q.3 (round-Tracks now o r s q.0 q.1 q.2 h)

started_resumes :
    (fault : Bool) (now : ℕ) (s : Supervisor)
    → Tracks now s
    → now < s.probation_until
    → let t = started fault now s.current s.disk in
      (t.current ≡ s.current)
      × (t.probation_until ≡ s.probation_until)
      × (t.probation_crashes ≡ s.probation_crashes)
unfolding started read_probation
started_resumes fault now s h open_window =
    rw (h.saved open_window, read_probation) (ground (arith, text_eq_refl s.current))

-- A service restart does not end a probation. What the launcher knows is on disk at first, and in each
-- round probation.json can be written and pending.json deleted, the core leaves current.json and
-- probation.json alone, and a child that survives the window ends after it. Then starting the launcher
-- again after any such rounds, while the window is open, gives a launcher with the same version, the
-- same end of probation and the same count of crashes.
pub restart_resumes :
    (o : Options) (rs : List Round) (now end : ℕ) (s : Supervisor) (fault : Bool)
    → Tracks now s
    → QuietRun now o rs s end
    → end < (run o rs s).probation_until
    → (t : Supervisor) × (start fault end (run o rs s).disk ≡ some t)
      × (t.current ≡ (run o rs s).current)
      × (t.probation_until ≡ (run o rs s).probation_until)
      × (t.probation_crashes ≡ (run o rs s).probation_crashes)
restart_resumes o rs now end s fault h q open_window =
    let t = run o rs s in
    let known : Tracks end t = run-Tracks o rs now end s q h in
    let same = started_resumes fault end t known open_window in
    (
      started fault end t.current t.disk,
      start_named fault end t.current t.disk (rw known.named (holds-read t.current known.is_valid))
          (valid-full t.current known.is_valid),
      same.0,
      same.1,
      same.2,
    )

lt→ltb : (a b : ℕ) → a < b → ltb a b ≡ true
lt→ltb a b h = ground arith

rollback_done :
    (f : Faults) (now : ℕ) (bad reason prev : Text) (s : Supervisor)
    → (rollback f now bad reason s).1 ≡ some prev
    → RolledBack f bad prev s (rollback f now bad reason s).0
rollback_done f now bad reason prev s e = elim (rollback_cases f now bad reason s) [
  | inl same ↦ cc
  | inr (p, e', back) ↦
      subst (λ v. RolledBack f bad v s (rollback f now bad reason s).0)
        (some-injective p prev (sym e' ∙ e)) back
]

-- What a child reports when it has crashed.
abbrev pub IsCrash : Exit → Type 0
IsCrash (exited code) = (code ≢ 0) × (code ≢ 42)
IsCrash Exit.unhealthy = ⊥
IsCrash e = Unit

crash_exit :
    (o : Options) (r : Round) (e : Exit) (s : Supervisor)
    → IsCrash e
    → after_exit o true r e s ≡ probation_crash r s
unfolding after_exit
crash_exit o r (exited code) s h = ground arith
crash_exit o r killed s h = refl
crash_exit o r failed s h = refl
crash_exit o r Exit.unhealthy s h = absurd h

or_stay_back :
    (p : Supervisor × Option Text) (k : Supervisor → Supervisor × ℕ) (prev : Text)
    → p.1 ≡ some prev
    → or_stay p k ≡ (record p.0 { current = prev }, 0)
or_stay_back (t, none) k prev e = cc
or_stay_back (t, some q) k prev e = rw (some-injective q prev e)

after_child-short :
    (watched : Bool) (r : Round) (d : Disk)
    → r.survived ≡ false
    → after_child watched r d ≡ r.core d
unfolding after_child
after_child-short watched r d h = ground arith

-- A second crash in the probation of a version, before the window has passed, rolls it back, wherever
-- there is another previous version with a binary and current.json can be written: the next round runs
-- that version, current.json names it, and the bad one is quarantined if its list can be read and
-- written.
pub second_crash_rolls_back :
    (o : Options) (r : Round) (s : Supervisor) (prev : Text)
    → r.started < s.probation_until
    → 1 ≤ s.probation_crashes
    → IsCrash r.exit
    → r.survived ≡ false
    → has_binary s.current s.disk ≡ true
    → read_pointer (r.core s.disk).previous ≡ some prev
    → is_empty prev ≡ false
    → prev ≢ s.current
    → has_binary prev (r.core s.disk) ≡ true
    → r.faults.write_current ≡ false
    → let t = (round o r s).0 in
      (t.current ≡ prev)
      × (t.disk.current ≡ holds prev)
      × (r.faults.write_failed ≡ none
          → (r.core s.disk).failed ≢ broken
          → is_quarantined s.current t.disk.failed ≡ true)
unfolding round probation_crash after_count has_binary count_crash
second_crash_rolls_back o r s prev watched once crash short here was full ne core w =
    rw
      (
        here,
        lt→ltb _ _ watched,
        after_child-short true r s.disk short,
        crash_exit o r r.exit child crash,
        two,
      )
      (rw
        (or_stay_back (rollback r.faults r.ended s.current reason (count_crash r child))
          (crash_loop r) prev done)
        (refl, back.current_now, back.banned))
  where
    child : Supervisor
    child = record s { disk = r.core s.disk }

    two : leb 2 (s.probation_crashes + 1) ≡ true
    two = ground arith

    reason : Text
    reason = codes "crashed repeatedly during post-update probation"

    done : (rollback r.faults r.ended s.current reason (count_crash r child)).1 ≡ some prev
    done = rollback_succeeds r.faults r.ended s.current reason prev _ was full ne core w

    back :
        RolledBack r.faults s.current prev
          (count_crash r child)
          (rollback r.faults r.ended s.current reason (count_crash r child)).0
    back = rollback_done r.faults r.ended s.current reason prev _ done

-- ===== src/Launcher/Supervisor/Tracks.antt =====
-- internal/launcher/supervisor.go: what is known in memory stays known on disk, at each way in which
-- a round can end.
use fuelmind.Base.{
  ℕ, ◌≤◌, ◌<◌, ◌≡◌, inl, inr, Bool, true, false, Option, none, some, arith, Text, Bool-cases,
  if◌then◌else◌, leb, ◌==◌, ap, sym, ◌∙◌,
}
use fuelmind.Version.{valid}
use fuelmind.Launcher.Disk.{File, holds, Faults, write_probation, ProbationState}
use mathlib.Core.Option.{some-injective}
use fuelmind.Launcher.CrashLoop.{record_crash}
use fuelmind.Launcher.Supervisor.{
  Options, Round, Supervisor, Exit, exited, killed, failed, unhealthy, rollback, adopt, or_stay,
  settle, crash_loop, probation_crash, handoff, after_exit, count_crash, after_count,
  exit_code_request_restart,
}
use fuelmind.Launcher.Supervisor.Rollback.{RolledBack, rollback_cases}
use fuelmind.Launcher.Supervisor.Handoff.{Stayed, HandedOver, handoff_cases}

-- To prove something of what a round does behind a rollback, prove it of both outcomes.
module _ {ℓ} (P : Supervisor × ℕ → Type ℓ) where
  or_stay_some :
      (p : Supervisor × Option Text) (k : Supervisor → Supervisor × ℕ) (prev : Text)
      → p.1 ≡ some prev
      → P (record p.0 { current = prev }, 0)
      → P (or_stay p k)
  or_stay_some (t, none) k prev e h = cc
  or_stay_some (t, some q) k prev e h = rw (some-injective q prev e) h

  pub or_stay_rule :
      (f : Faults) (now : ℕ) (bad reason : Text) (s : Supervisor) (k : Supervisor → Supervisor × ℕ)
      → ((prev : Text) (t : Supervisor)
          → RolledBack f bad prev s t
          → P (record t { current = prev }, 0))
      → P (k s)
      → P (or_stay (rollback f now bad reason s) k)
  or_stay_rule f now bad reason s k back stay = elim (rollback_cases f now bad reason s) [
    | inl e ↦ rw e stay
    | inr (prev, e, h) ↦ or_stay_some (rollback f now bad reason s) k prev e (back prev _ h)
  ]

-- What the launcher knows at time `now` is also on disk: the version that it runs, and its probation
-- while the window is open.
pub record Tracks (now : ℕ) (s : Supervisor) : Type 0 where
  pub is_valid : valid s.current ≡ true
  pub named : s.disk.current ≡ holds s.current
  pub saved :
      now < s.probation_until
      → s.disk.probation
        ≡ holds (record {
          version = s.current;
          until = s.probation_until;
          crashes = s.probation_crashes;
        })

-- A round in which the pointer of a pending update can be deleted and the probation be written, the
-- core leaves the two files alone, and a window that is survived has ended.
pub record IsQuiet (r : Round) (s : Supervisor) : Type 0 where
  pub can_write : r.faults.write_probation ≡ false
  pub can_delete : r.faults.delete_pending ≡ false
  pub same_current : (r.core s.disk).current ≡ s.disk.current
  pub same_probation : (r.core s.disk).probation ≡ s.disk.probation
  pub ended_window : r.survived ≡ true → s.probation_until ≤ r.ended

pub RolledBack-Tracks :
    (now : ℕ) (f : Faults) (bad prev : Text) (s t : Supervisor)
    → RolledBack f bad prev s t
    → Tracks now (record t { current = prev })
RolledBack-Tracks now f bad prev s t h = record {
  is_valid = h.is_valid;
  named = h.current_now;
  saved = λ open_window. absurd (omega (arith, h.no_window));
}

settle-Tracks : (now : ℕ) (r : Round) (s : Supervisor) → Tracks now s → Tracks now (settle r s).0
unfolding settle
settle-Tracks now r s h = record { is_valid = h.is_valid; named = h.named; saved = h.saved }

crash_loop-Tracks :
    (now : ℕ) (r : Round) (s : Supervisor) → Tracks now s → Tracks now (crash_loop r s).0
unfolding crash_loop
crash_loop-Tracks now r s h = elim (Bool-cases (record_crash r.ended s.detector).1) [
  | inr calm ↦
      rw calm
        (settle-Tracks now r _ (record { is_valid = h.is_valid; named = h.named; saved = h.saved }))
  | inl looping ↦ rw looping (
      or_stay_rule (λ p. Tracks now p.0) _ _ _ _ _ _
        (λ prev t. RolledBack-Tracks now r.faults s.current prev _ t)
        (settle-Tracks now r _
          (record { is_valid = h.is_valid; named = h.named; saved = h.saved })))
]

write_probation-done :
    (b : Bool) (v : Text) (until crashes : ℕ) (f : File ProbationState)
    → b ≡ false
    → write_probation b v until crashes f
      ≡ holds (record { version = v; until = until; crashes = crashes })
unfolding write_probation
write_probation-done b v until crashes f h = rw h

count_crash-Tracks :
    (now : ℕ) (r : Round) (s : Supervisor)
    → r.faults.write_probation ≡ false
    → Tracks now s
    → Tracks now (count_crash r s)
unfolding count_crash
count_crash-Tracks now r s w h = record {
  is_valid = h.is_valid;
  named = h.named;
  saved = λ _. write_probation-done r.faults.write_probation _ _ _ _ w;
}

after_count-Tracks :
    (now : ℕ) (r : Round) (s : Supervisor) → Tracks now s → Tracks now (after_count r s).0
unfolding after_count
after_count-Tracks now r s h = elim (Bool-cases (leb 2 s.probation_crashes)) [
  | inr one ↦ rw one (crash_loop-Tracks now r s h)
  | inl two ↦ rw two (
      or_stay_rule (λ p. Tracks now p.0) _ _ _ _ _ _
        (λ prev t. RolledBack-Tracks now r.faults s.current prev _ t) (crash_loop-Tracks now r s h))
]

Stayed-Tracks :
    (now : ℕ) (f : Faults) (s t : Supervisor)
    → f.delete_pending ≡ false
    → Stayed f s t
    → Tracks now s
    → Tracks now t
Stayed-Tracks now f s t d stay h = record {
  is_valid = rw stay.runs h.is_valid;
  named = stay.same_current d ∙ (h.named ∙ ap holds (sym stay.runs));
  saved = λ open_window.
      stay.file ∙ (h.saved (omega (arith, stay.window)) ∙ cc (stay.runs, stay.window, stay.count));
}

HandedOver-Tracks :
    (now : ℕ) (o : Options) (r : Round) (new : Text) (s t : Supervisor)
    → r.faults.write_probation ≡ false
    → HandedOver o r new s t
    → Tracks now t
HandedOver-Tracks now o r new s t w over = record {
  is_valid = rw over.runs over.is_valid;
  named = over.current_now ∙ ap holds (sym over.runs);
  saved = λ _. over.saved w ∙ cc (over.runs, over.window, over.no_count);
}

handoff-Tracks :
    (now : ℕ) (o : Options) (r : Round) (s : Supervisor)
    → r.faults.write_probation ≡ false
    → r.faults.delete_pending ≡ false
    → Tracks now s
    → Tracks now (handoff o r s)
handoff-Tracks now o r s w d h = elim (handoff_cases o r s) [
  | inl stay ↦ Stayed-Tracks now r.faults s _ d stay h
  | inr (new, over) ↦ HandedOver-Tracks now o r new s _ w over
]

crashed-Tracks :
    (now : ℕ) (watched : Bool) (r : Round) (s : Supervisor)
    → r.faults.write_probation ≡ false
    → Tracks now s
    → Tracks now (if watched then probation_crash r s else crash_loop r s).0
unfolding probation_crash
crashed-Tracks now false r s w h = crash_loop-Tracks now r s h
crashed-Tracks now true r s w h =
    after_count-Tracks now r (count_crash r s) (count_crash-Tracks now r s w h)

adopt-Tracks :
    (now : ℕ) (f : Faults) (at : ℕ) (bad reason : Text) (s : Supervisor)
    → Tracks now s
    → Tracks now (adopt (rollback f at bad reason s))
adopt-Tracks now f at bad reason s h = elim (rollback_cases f at bad reason s) [
  | inl e ↦ rw e h
  | inr (prev, e, back) ↦ named (rollback f at bad reason s) e back
]
  where
    named :
        {prev : Text} (p : Supervisor × Option Text)
        → p.1 ≡ some prev
        → RolledBack f bad prev s p.0
        → Tracks now (adopt p)
    named (t, none) e back = cc
    named {prev} (t, some q) e back =
        rw (some-injective q prev e) (RolledBack-Tracks now f bad prev s t back)

pub after_exit-Tracks :
    (now : ℕ) (o : Options) (watched : Bool) (r : Round) (e : Exit) (s : Supervisor)
    → r.faults.write_probation ≡ false
    → r.faults.delete_pending ≡ false
    → Tracks now s
    → Tracks now (after_exit o watched r e s).0
unfolding after_exit
after_exit-Tracks now o false r unhealthy s w d h = crash_loop-Tracks now r s h
after_exit-Tracks now o true r unhealthy s w d h = adopt-Tracks now r.faults r.ended s.current _ s h
after_exit-Tracks now o watched r (exited code) s w d h =
    elim (Bool-cases (code == exit_code_request_restart)) [
      | inl restart ↦ rw restart (handoff-Tracks now o r s w d h)
      | inr other ↦ elim (Bool-cases (code == 0)) [
        | inl clean ↦ rw (other, clean) (settle-Tracks now r s h)
        | inr crash ↦ rw (other, crash) (crashed-Tracks now watched r s w h)
      ]
    ]
after_exit-Tracks now o watched r killed s w d h = crashed-Tracks now watched r s w h
after_exit-Tracks now o watched r failed s w d h = crashed-Tracks now watched r s w h

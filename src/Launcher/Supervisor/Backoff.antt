-- ===== src/Launcher/Supervisor/Backoff.antt =====
-- internal/launcher/supervisor.go: the pause between two runs of the core.
use fuelmind.Base.{
  ℕ, ◌≤◌, ◌≡◌, refl, inl, inr, Bool, true, false, Option, none, some, arith, Text, ◌==◌, leb,
  Bool-cases, Option-cases, ◌∙◌, if◌then◌else◌, ◌⊎◌,
}
use fuelmind.Launcher.Disk.{Faults, has_binary, read_pointer}
use fuelmind.Launcher.CrashLoop.{record_crash}
use fuelmind.Launcher.Supervisor.{
  Options, Round, Supervisor, Exit, exited, killed, failed, unhealthy, rollback, adopt, settle,
  crash_loop, probation_crash, after_count, count_crash, handoff, switch, drop_pending, after_exit,
  round, second, max_backoff, exit_code_request_restart,
}
use fuelmind.Launcher.Supervisor.Rollback.{RolledBack, rollback_cases}
use fuelmind.Launcher.Supervisor.Tracks.{or_stay_rule}

-- One second to one minute.
abbrev pub IsPause : ℕ → Type 0
IsPause n = (second ≤ n) × (n ≤ max_backoff)

-- The pause that comes next is in range, and so is the one just made, unless there was none.
abbrev pub Paced : Supervisor × ℕ → Type 0
Paced (s, pause) = IsPause s.backoff × ((pause ≡ 0) ⊎ IsPause pause)

settle-Paced : (r : Round) (s : Supervisor) → IsPause s.backoff → Paced (settle r s)
unfolding settle
settle-Paced r s h = ground arith

back-Paced :
    {f : Faults} {bad prev : Text} (s t : Supervisor)
    → IsPause s.backoff
    → RolledBack f bad prev s t
    → Paced (record t { current = prev }, 0)
back-Paced s t h back = (omega (arith, back.same_backoff), inl refl)

crash_loop-Paced : (r : Round) (s : Supervisor) → IsPause s.backoff → Paced (crash_loop r s)
unfolding crash_loop
crash_loop-Paced r s h = elim (Bool-cases (record_crash r.ended s.detector).1) [
  | inr calm ↦ rw calm (settle-Paced r _ h)
  | inl looping ↦
      rw looping (
        or_stay_rule Paced _ _ _ _ _ _ (λ prev t. back-Paced _ t h)
          (settle-Paced r _ (omega arith)))
]

after_count-Paced : (r : Round) (s : Supervisor) → IsPause s.backoff → Paced (after_count r s)
unfolding after_count
after_count-Paced r s h = elim (Bool-cases (leb 2 s.probation_crashes)) [
  | inr one ↦ rw one (crash_loop-Paced r s h)
  | inl two ↦
      rw two (or_stay_rule Paced _ _ _ _ _ _ (λ prev t. back-Paced _ t h) (crash_loop-Paced r s h))
]

crashed-Paced :
    (watched : Bool) (r : Round) (s : Supervisor)
    → IsPause s.backoff
    → Paced (if watched then probation_crash r s else crash_loop r s)
unfolding probation_crash count_crash
crashed-Paced false r s h = crash_loop-Paced r s h
crashed-Paced true r s h = after_count-Paced r _ h

switch-backoff :
    (o : Options) (r : Round) (new : Text) (s : Supervisor)
    → IsPause s.backoff
    → IsPause (switch o r new s).backoff
unfolding switch
switch-backoff o r new s h = ground arith

handoff-backoff :
    (o : Options) (r : Round) (s : Supervisor) → IsPause s.backoff → IsPause (handoff o r s).backoff
unfolding handoff drop_pending
handoff-backoff o r s h = elim (Option-cases (read_pointer s.disk.pending)) [
  | inl e ↦ rw (e, handoff) h
  | inr (new, e) ↦ rw (e, handoff) (ground (arith, switch-backoff o r new s))
]

adopt-backoff :
    (f : Faults) (now : ℕ) (bad reason : Text) (s : Supervisor)
    → (adopt (rollback f now bad reason s)).backoff ≡ s.backoff
adopt-backoff f now bad reason s = elim (rollback_cases f now bad reason s) [
  | inl e ↦ rw e
  | inr (prev, e, back) ↦ adopted (rollback f now bad reason s) e ∙ back.same_backoff
]
  where
    adopted :
        {prev : Text} (p : Supervisor × Option Text)
        → p.1 ≡ some prev
        → (adopt p).backoff ≡ p.0.backoff
    adopted (t, none) e = refl
    adopted (t, some q) e = refl

after_exit-Paced :
    (o : Options) (watched : Bool) (r : Round) (e : Exit) (s : Supervisor)
    → IsPause s.backoff
    → Paced (after_exit o watched r e s)
unfolding after_exit
after_exit-Paced o false r unhealthy s h = crash_loop-Paced r s h
after_exit-Paced o true r unhealthy s h =
    (rw (adopt-backoff r.faults r.ended s.current _ s) h, inl refl)
after_exit-Paced o watched r (exited code) s h =
    elim (Bool-cases (code == exit_code_request_restart)) [
      | inl restart ↦ rw restart (handoff-backoff o r s h, inl refl)
      | inr other ↦ elim (Bool-cases (code == 0)) [
        | inl clean ↦ rw (other, clean) (settle-Paced r s h)
        | inr crash ↦ rw (other, crash) (crashed-Paced watched r s h)
      ]
    ]
after_exit-Paced o watched r killed s h = crashed-Paced watched r s h
after_exit-Paced o watched r failed s h = crashed-Paced watched r s h

-- Whatever happens in a round, the launcher makes no pause in it or one between a second and a
-- minute, and the pause kept for the next crash stays between a second and a minute.
pub round-Paced :
    (o : Options) (r : Round) (s : Supervisor) → IsPause s.backoff → Paced (round o r s)
unfolding round
round-Paced o r s h = elim (Bool-cases (has_binary s.current s.disk)) [
  | inl core ↦ rw core (after_exit-Paced o _ r r.exit _ h)
  | inr bare ↦
      rw bare (or_stay_rule Paced _ _ _ _ _ _ (λ prev t. back-Paced _ t h) (h, inr (omega arith)))
]

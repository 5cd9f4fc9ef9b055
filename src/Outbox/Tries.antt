-- ===== src/Outbox/Tries.antt =====
-- internal/messaging/agent.go, Drain: the tries that are counted in the outbox.
use fuelmind.Base.{
  ℕ, suc, zero, ◌<◌, ◌≡◌, refl, ap, sym, ◌∙◌, Bool, true, false, not, ◌||◌, ◌&&◌, Option, none,
  some, List, [], ◌∷◌, Text, arith, any, All, if◌then◌else◌, ◌==◌, ==_iff, inl, inr, Bool-cases,
  leb, ltb, take, keep_if,
}
use mathlib.Core.Path.{subst}
use fuelmind.Outbox.{
  Message, is_queued, Outbox, update_message, outcome, mark_sent, mark_attempt, send_each, drain,
  pending_messages, max_send_attempts,
}

abbrev pub has_id : ℕ → Message → Bool
has_id i m = m.id == i

abbrev pub IsKeyed : List Message → Type 0
IsKeyed [] = Unit {0}
IsKeyed (m ∷ ms) = (any (has_id m.id) ms ≡ false) × IsKeyed ms

-- At most five tries, and fewer while the message is queued.
abbrev pub in_budget : Message → Bool
in_budget m =
    leb m.attempts max_send_attempts
    && (not (is_queued m.status) || ltb m.attempts max_send_attempts)

-- A message that is still to be sent has a try left.
abbrev may_try : List Message → Message → Bool
may_try ms r = not (any (has_id r.id) ms) || ltb r.attempts max_send_attempts

pub any_id-keep_if :
    (i : ℕ) (p : Message → Bool) (ms : List Message)
    → any (has_id i) ms ≡ false
    → any (has_id i) (keep_if p ms) ≡ false
any_id-keep_if i p [] h = refl
any_id-keep_if i p (m ∷ ms) h = ground (arith, any_id-keep_if i p ms)

pub any_id-take :
    (i n : ℕ) (ms : List Message) → any (has_id i) ms ≡ false → any (has_id i) (take n ms) ≡ false
any_id-take i zero ms h = refl
any_id-take i (suc n) [] h = refl
any_id-take i (suc n) (m ∷ ms) h = ground (arith, any_id-take i n ms)

pub keep_if-IsKeyed : (p : Message → Bool) (ms : List Message) → IsKeyed ms → IsKeyed (keep_if p ms)
keep_if-IsKeyed p [] h = tt
keep_if-IsKeyed p (m ∷ ms) h =
    ground (arith, keep_if-IsKeyed p ms h.1, any_id-keep_if m.id p ms h.0)

pub take-IsKeyed : (n : ℕ) (ms : List Message) → IsKeyed ms → IsKeyed (take n ms)
take-IsKeyed zero ms h = tt
take-IsKeyed (suc n) [] h = tt
take-IsKeyed (suc n) (m ∷ ms) h = (any_id-take m.id n ms h.0, take-IsKeyed n ms h.1)

-- The rows, and what is still to be sent of them.
abbrev pub Ready : List Message → List Message → Type 0
Ready ms rows = All (λ r. (in_budget r && may_try ms r) ≡ true) rows

try_left :
    (m : Message) (ms : List Message) (r : Message)
    → (r.id == m.id) ≡ true
    → (in_budget r && may_try (m ∷ ms) r) ≡ true
    → r.attempts < 5
try_left m ms r same h = ground (arith, (==_iff m.id r.id).1 (sym ((==_iff r.id m.id).0 same)))

outcome-in_budget :
    (e : Option Text) (m : Message) (ms : List Message) (r : Message)
    → any (has_id m.id) ms ≡ false
    → (r.id == m.id) ≡ true
    → (in_budget r && may_try (m ∷ ms) r) ≡ true
    → (in_budget (outcome e r) && may_try ms (outcome e r)) ≡ true
unfolding outcome mark_sent mark_attempt
outcome-in_budget none m ms r new same h =
    let gone : any (has_id r.id) ms ≡ false =
      ap (λ i. any (has_id i) ms) ((==_iff r.id m.id).0 same) ∙ new in
    ground (arith, gone, try_left m ms r same h)
outcome-in_budget (some e) m ms r new same h =
    let gone : any (has_id r.id) ms ≡ false =
      ap (λ i. any (has_id i) ms) ((==_iff r.id m.id).0 same) ∙ new in
    ground (arith, gone, try_left m ms r same h)

update_message-Ready :
    (e : Option Text) (m : Message) (ms rows : List Message)
    → any (has_id m.id) ms ≡ false
    → Ready (m ∷ ms) rows
    → Ready ms (update_message m.id (outcome e) rows)
unfolding update_message
update_message-Ready e m ms [] new h = tt
update_message-Ready e m ms (r ∷ rows) new h = elim (Bool-cases (r.id == m.id)) [
  | inl same ↦ (
    ap (λ x. in_budget x && may_try ms x) (chosen same) ∙ outcome-in_budget e m ms r new same h.0,
    update_message-Ready e m ms rows new h.1,
  )
  | inr other ↦ (
    ap (λ x. in_budget x && may_try ms x) (kept other) ∙ ground arith,
    update_message-Ready e m ms rows new h.1,
  )
]
  where
    chosen : (r.id == m.id) ≡ true → (if r.id == m.id then outcome e r else r) ≡ outcome e r
    chosen same = rw same refl

    kept : (r.id == m.id) ≡ false → (if r.id == m.id then outcome e r else r) ≡ r
    kept other = rw other refl

send_each-Ready :
    (send : Message → Option Text) (ms rows : List Message)
    → IsKeyed ms
    → Ready ms rows
    → Ready [] (send_each send ms rows)
unfolding send_each
send_each-Ready send [] rows k h = h
send_each-Ready send (m ∷ ms) rows k h =
    send_each-Ready send ms _ k.1 (update_message-Ready (send m) m ms rows k.0 h)

==_comm : (a b : ℕ) → (a == b) ≡ (b == a)
==_comm a b = ground arith

-- What holds of a message alone holds when a message with another id is to be sent first.
Ready-cons :
    (m : Message) (ms rows : List Message)
    → any (has_id m.id) rows ≡ false
    → Ready ms rows
    → Ready (m ∷ ms) rows
Ready-cons m ms [] new h = tt
Ready-cons m ms (r ∷ rows) new h =
    (ground (arith, h.0, ==_comm m.id r.id), Ready-cons m ms rows (ground arith) h.1)

Ready-pending :
    (rows : List Message)
    → IsKeyed rows
    → Ready [] rows
    → Ready (keep_if (λ m. is_queued m.status) rows) rows
Ready-pending [] k h = tt
Ready-pending (m ∷ ms) k h = elim (Bool-cases (is_queued m.status)) [
  | inl e ↦
      subst (λ q. Ready q (m ∷ ms)) (sym (taken e))
        (
          ground (arith, h.0, e),
          Ready-cons m (keep_if (λ x. is_queued x.status) ms) ms k.0 (Ready-pending ms k.1 h.1),
        )
  | inr e ↦
      subst (λ q. Ready q (m ∷ ms)) (sym (passed e))
        (
          ground (arith, h.0, any_id-keep_if m.id (λ x. is_queued x.status) ms k.0),
          Ready-pending ms k.1 h.1,
        )
]
  where
    taken :
        is_queued m.status ≡ true
        → keep_if (λ x. is_queued x.status) (m ∷ ms) ≡ m ∷ keep_if (λ x. is_queued x.status) ms
    taken e = rw e refl

    passed :
        is_queued m.status ≡ false
        → keep_if (λ x. is_queued x.status) (m ∷ ms) ≡ keep_if (λ x. is_queued x.status) ms
    passed e = rw e refl

Ready-take : (n : ℕ) (ms rows : List Message) → Ready ms rows → Ready (take n ms) rows
Ready-take n ms [] h = tt
Ready-take n ms (r ∷ rows) h = elim (Bool-cases (any (has_id r.id) ms)) [
  | inl e ↦ (ground (arith, h.0, e), Ready-take n ms rows h.1)
  | inr e ↦ (ground (arith, h.0, any_id-take r.id n ms e), Ready-take n ms rows h.1)
]

-- However the sender answers, the count of tries of a message stays at most five, and below it while the
-- message is queued, in an outbox in which this holds and no two messages have one id.
pub drain-Ready :
    (ready : Bool) (send : Message → Option Text) (o : Outbox)
    → IsKeyed o.messages
    → Ready [] o.messages
    → Ready [] (drain ready send o).messages
unfolding drain pending_messages
drain-Ready false send o k h = h
drain-Ready true send o k h =
    send_each-Ready send (take 20 (keep_if (λ m. is_queued m.status) o.messages)) o.messages
      (take-IsKeyed 20 _ (keep_if-IsKeyed (λ m. is_queued m.status) o.messages k))
      (Ready-take 20 _ o.messages (Ready-pending o.messages k h))

-- ===== src/Outbox/Budget.antt =====
-- internal/messaging/agent.go, Drain: how often the sender gets a message, over a whole run.
use fuelmind.Base.{
  ℕ, suc, zero, ◌+◌, ◌-◌, ◌≤◌, ◌≡◌, refl, ap, sym, ◌∙◌, true, false, Option, none, some, List, [],
  ◌∷◌, ◌++◌, Text, text_eq, arith, any, if◌then◌else◌, ◌==◌, ==_iff, inl, inr, Bool-cases, take,
  keep_if,
}
use fuelmind.Outbox.{
  Message, is_queued, Outbox, update_message, outcome, mark_sent, mark_attempt, send_each, drain,
  pending_messages, queue_message, queued,
}
use fuelmind.Outbox.Once.{Event, queue, flush, step}
use fuelmind.Outbox.Tries.{has_id, IsKeyed, Ready, any_id-keep_if, keep_if-IsKeyed, take-IsKeyed}
use fuelmind.Outbox.Sound.{IsOutbox, outcome-id, any_id-update, step-IsOutbox}

-- How many messages of the list have the id.
unfoldable pub count_id : ℕ → List Message → ℕ
count_id i [] = 0
count_id i (m ∷ ms) = let rest = count_id i ms in if m.id == i then suc rest else rest

-- How often the sender gets the message `i` in an event, and in a run.
unfoldable pub handed_by : ℕ → Event → Outbox → ℕ
unfolding count_id
handed_by i (queue kind dedup channel recipient body) o = 0
handed_by i (flush false send) o = 0
handed_by i (flush true send) o = count_id i (pending_messages 20 o.messages)

unfoldable pub handed : ℕ → List Event → Outbox → ℕ
unfolding handed_by
handed i [] o = 0
handed i (e ∷ es) o = handed_by i e o + handed i es (step e o)

-- The tries that a message has left, all five where there is none yet.
unfoldable left_of : Message → ℕ
left_of m = if is_queued m.status then 5 - m.attempts else 0

unfoldable left : ℕ → List Message → ℕ
unfolding left_of
left i [] = 5
left i (m ∷ ms) = let rest = left i ms in if m.id == i then left_of m else rest

left-outcome :
    (e : Option Text) (m : Message) → 1 ≤ left_of m → suc (left_of (outcome e m)) ≤ left_of m
unfolding left_of outcome mark_sent mark_attempt
left-outcome none m h = h
left-outcome (some e) m h = ground arith

left-update_other :
    (i j : ℕ) (e : Option Text) (rows : List Message)
    → (j == i) ≡ false
    → left i (update_message j (outcome e) rows) ≡ left i rows
unfolding left update_message
left-update_other i j e [] h = refl
left-update_other i j e (r ∷ rows) h = elim (Bool-cases (r.id == j)) [
  | inr other ↦ rw (other, left-update_other i j e rows h) refl
  | inl same ↦
      let away : (r.id == i) ≡ false = ap (λ k. k == i) ((==_iff r.id j).0 same) ∙ h in
      let gone : ((outcome e r).id == i) ≡ false = ap (λ k. k == i) (outcome-id e r) ∙ away in
      rw (same, gone, away, left-update_other i j e rows h) refl
]

left-update_same :
    (i : ℕ) (e : Option Text) (rows : List Message)
    → any (has_id i) rows ≡ true
    → 1 ≤ left i rows
    → suc (left i (update_message i (outcome e) rows)) ≤ left i rows
unfolding left update_message
left-update_same i e [] h l = absurd (ground arith)
left-update_same i e (r ∷ rows) h l = elim (Bool-cases (r.id == i)) [
  | inl same ↦
      let kept : ((outcome e r).id == i) ≡ true = ap (λ k. k == i) (outcome-id e r) ∙ same in
      rw (same, kept) (left-outcome e r (rw same at l))
  | inr other ↦ rw (other, other) (left-update_same i e rows (rw other at h) (rw other at l))
]

left-send_each_other :
    (i : ℕ) (send : Message → Option Text) (ms rows : List Message)
    → any (has_id i) ms ≡ false
    → left i (send_each send ms rows) ≡ left i rows
unfolding send_each
left-send_each_other i send [] rows h = refl
left-send_each_other i send (m ∷ ms) rows h =
    left-send_each_other i send ms _ (ground arith)
    ∙ left-update_other i m.id (send m) rows (ground arith)

count_id-none : (i : ℕ) (ms : List Message) → any (has_id i) ms ≡ false → count_id i ms ≡ 0
unfolding count_id
count_id-none i [] h = refl
count_id-none i (m ∷ ms) h = ground (arith, count_id-none i ms)

-- Each message that is handed over uses up a try.
left-send_each :
    (i : ℕ) (send : Message → Option Text) (ms rows : List Message)
    → IsKeyed ms
    → (any (has_id i) ms ≡ true → (any (has_id i) rows ≡ true) × (1 ≤ left i rows))
    → count_id i ms + left i (send_each send ms rows) ≤ left i rows
unfolding send_each count_id
left-send_each i send [] rows k h = omega arith
left-send_each i send (m ∷ ms) rows k h = elim (Bool-cases (m.id == i)) [
  | inl same ↦
      let e : m.id ≡ i = (==_iff m.id i).0 same in
      let gone : any (has_id i) ms ≡ false = ap (λ j. any (has_id j) ms) (sym e) ∙ k.0 in
      let (there, try) = h (rw same refl) in
      let used = left-update_same i (send m) rows there try in
      let same_key : left i (update_message m.id (outcome (send m)) rows)
          ≡ left i (update_message i (outcome (send m)) rows) =
        ap (λ j. left i (update_message j (outcome (send m)) rows)) e in
      rw (same, count_id-none i ms gone)
        (omega (
          arith,
          used,
          same_key,
          left-send_each_other i send ms (update_message m.id (outcome (send m)) rows) gone,
        ))
  | inr other ↦
      let rows' = update_message m.id (outcome (send m)) rows in
      let same_left = left-update_other i m.id (send m) rows other in
      let rest = left-send_each i send ms rows' k.1 (λ t.
        let (there, try) = h (rw (other, t) refl) in
        (any_id-update i m.id (send m) rows ∙ there, omega (arith, try, same_left))) in
      rw other (omega (arith, rest, same_left))
]

any_id-untake :
    (i n : ℕ) (ms : List Message) → any (has_id i) (take n ms) ≡ true → any (has_id i) ms ≡ true
any_id-untake i zero ms h = absurd (ground arith)
any_id-untake i (suc n) [] h = h
any_id-untake i (suc n) (m ∷ ms) h = ground (arith, any_id-untake i n ms)

-- A message that is to be sent is in the table, with a try left.
try_pending :
    (i : ℕ) (rows : List Message)
    → IsKeyed rows
    → Ready [] rows
    → any (has_id i) (keep_if (λ m. is_queued m.status) rows) ≡ true
    → (any (has_id i) rows ≡ true) × (1 ≤ left i rows)
unfolding left left_of
try_pending i [] k r h = absurd (ground arith)
try_pending i (m ∷ ms) k r h = elim (Bool-cases (m.id == i)) [
  | inl same ↦ elim (Bool-cases (is_queued m.status)) [
    | inl q ↦ rw (same, q) (refl, ground (arith, r.0))
    | inr q ↦
        let gone =
          any_id-keep_if i (λ x. is_queued x.status) ms
            (ap (λ j. any (has_id j) ms) (sym ((==_iff m.id i).0 same)) ∙ k.0) in
        let there : any (has_id i) (keep_if (λ x. is_queued x.status) ms) ≡ true = rw q at h in
        absurd (ground arith)
  ]
  | inr other ↦ elim (Bool-cases (is_queued m.status)) [
    | inl q ↦ rw other (try_pending i ms k.1 r.1 (rw (q, other) at h))
    | inr q ↦ rw other (try_pending i ms k.1 r.1 (rw q at h))
  ]
]

left-append :
    (i : ℕ) (m : Message) (rows : List Message)
    → left_of m ≡ 5
    → left i (rows ++ (m ∷ [])) ≡ left i rows
unfolding left
left-append i m [] h = ground (arith, h)
left-append i m (r ∷ rows) h = ground (arith, left-append i m rows h)

handed_by-flush :
    (i : ℕ) (send : Message → Option Text) (o : Outbox)
    → IsOutbox o
    → count_id i (pending_messages 20 o.messages) + left i (drain true send o).messages
      ≤ left i o.messages
unfolding drain pending_messages
handed_by-flush i send o s =
    left-send_each i send (take 20 (keep_if (λ m. is_queued m.status) o.messages)) o.messages
      (take-IsKeyed 20 _ (keep_if-IsKeyed (λ m. is_queued m.status) o.messages s.keyed))
      (λ h. try_pending i o.messages s.keyed s.ready (any_id-untake i 20 _ h))

left_new : (m : Message) → m.status ≡ queued → m.attempts ≡ 0 → left_of m ≡ 5
unfolding left_of
left_new m q z = rw (q, z) refl

left-step :
    (i : ℕ) (e : Event) (o : Outbox)
    → IsOutbox o
    → handed_by i e o + left i (step e o).messages ≤ left i o.messages
unfolding handed_by step queue_message drain
left-step i (flush false send) o s = omega arith
left-step i (flush true send) o s = handed_by-flush i send o s
left-step i (queue kind dedup channel recipient body) o s =
    elim (Bool-cases (any (λ m. text_eq m.dedup_key dedup) o.messages)) [
      | inl old ↦ rw old (omega arith)
      | inr new ↦ rw new (omega (arith, left-append i _ o.messages (left_new _ refl refl)))
    ]

handed-left :
    (i : ℕ) (es : List Event) (o : Outbox) → IsOutbox o → handed i es o ≤ left i o.messages
unfolding handed
handed-left i [] o s = omega arith
handed-left i (e ∷ es) o s =
    omega (arith, left-step i e o s, handed-left i es (step e o) (step-IsOutbox e o s))

-- The sender gets a message of an outbox that was empty at the start at most five times, whatever it
-- answers, and whatever is queued and sent.
pub handed_at_most :
    (i n : ℕ) (es : List Event) → handed i es (record { messages = []; next_id = n }) ≤ 5
unfolding left
handed_at_most i n es =
    handed-left i es (record { messages = []; next_id = n })
      (record { keyed = tt; below = tt; ready = tt })

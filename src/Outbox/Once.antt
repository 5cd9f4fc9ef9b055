-- ===== src/Outbox/Once.antt =====
-- The outbox holds one message for each key.
use fuelmind.Base.{
  ◌∙◌, ℕ, ◌≡◌, refl, Bool, true, false, Option, none, some, List, [], ◌∷◌, ◌++◌, Text, text_eq,
  text_eq_iff, text_eq_refl, arith, any, any-append, inl, inr, Bool-cases,
}
use fuelmind.Outbox.{
  Message, Outbox, queue_message, update_message, outcome, send_each, drain, pending_messages,
}

-- No key twice.
abbrev pub IsOnce : List Message → Type 0
IsOnce [] = Unit {0}
IsOnce (m ∷ ms) = (any (λ x. text_eq x.dedup_key m.dedup_key) ms ≡ false) × IsOnce ms

outcome-dedup_key : (e : Option Text) (m : Message) → (outcome e m).dedup_key ≡ m.dedup_key
unfolding outcome
outcome-dedup_key none m = refl
outcome-dedup_key (some e) m = refl

any_key-update_message :
    (k : Text) (i : ℕ) (e : Option Text) (ms : List Message)
    → any (λ x. text_eq x.dedup_key k) (update_message i (outcome e) ms)
      ≡ any (λ x. text_eq x.dedup_key k) ms
unfolding update_message
any_key-update_message k i e [] = refl
any_key-update_message k i e (m ∷ ms) =
    ground (arith, any_key-update_message k i e ms, outcome-dedup_key e m)

update_message-IsOnce :
    (i : ℕ) (e : Option Text) (ms : List Message)
    → IsOnce ms
    → IsOnce (update_message i (outcome e) ms)
unfolding update_message
update_message-IsOnce i e [] h = h
update_message-IsOnce i e (m ∷ ms) h = ground (
  arith,
  any_key-update_message m.dedup_key i e ms,
  outcome-dedup_key e m,
  update_message-IsOnce i e ms h.1,
)

send_each-IsOnce :
    (send : Message → Option Text) (ms rows : List Message)
    → IsOnce rows
    → IsOnce (send_each send ms rows)
unfolding send_each
send_each-IsOnce send [] rows h = h
send_each-IsOnce send (m ∷ ms) rows h =
    send_each-IsOnce send ms _ (update_message-IsOnce m.id (send m) rows h)

any_key-send_each :
    (k : Text) (send : Message → Option Text) (ms rows : List Message)
    → any (λ x. text_eq x.dedup_key k) (send_each send ms rows)
      ≡ any (λ x. text_eq x.dedup_key k) rows
unfolding send_each
any_key-send_each k send [] rows = refl
any_key-send_each k send (m ∷ ms) rows =
    any_key-send_each k send ms _ ∙ any_key-update_message k m.id (send m) rows

-- What happens to the outbox: a message is queued, or the queue is sent.
pub data Event : Type 0 where
  queue : Text → Text → Text → Text → Text → Event
  flush : Bool → (Message → Option Text) → Event

abbrev pub or_same : Outbox → Option Outbox → Outbox
or_same o none = o
or_same o (some o') = o'

unfoldable pub step : Event → Outbox → Outbox
step (queue kind dedup channel recipient body) o =
    or_same o (queue_message kind dedup channel recipient body o)
step (flush ready send) o = drain ready send o

unfoldable pub work : List Event → Outbox → Outbox
work [] o = o
work (e ∷ es) o = work es (step e o)

text_eq_comm : (a b : Text) → text_eq a b ≡ false → text_eq b a ≡ false
text_eq_comm a b h = elim (Bool-cases (text_eq b a)) [
  | inl e ↦ ground (arith, (text_eq_iff b a).0 e, text_eq_refl a)
  | inr e ↦ e
]

append-IsOnce :
    (ms : List Message) (m : Message)
    → IsOnce ms
    → any (λ x. text_eq x.dedup_key m.dedup_key) ms ≡ false
    → IsOnce (ms ++ m ∷ [])
append-IsOnce [] m h new = (refl, tt)
append-IsOnce (x ∷ ms) m h new = (
  ground (
    arith,
    any-append (λ y. text_eq y.dedup_key x.dedup_key) ms (m ∷ []),
    h.0,
    text_eq_comm x.dedup_key m.dedup_key (ground arith),
  ),
  append-IsOnce ms m h.1 (ground arith),
)

step-IsOnce : (e : Event) (o : Outbox) → IsOnce o.messages → IsOnce (step e o).messages
unfolding step queue_message drain
step-IsOnce (queue kind dedup channel recipient body) o h =
    elim (Bool-cases (any (λ m. text_eq m.dedup_key dedup) o.messages)) [
      | inl old ↦ rw old h
      | inr new ↦ rw new (append-IsOnce o.messages _ h new)
    ]
step-IsOnce (flush false send) o h = h
step-IsOnce (flush true send) o h =
    send_each-IsOnce send (pending_messages 20 o.messages) o.messages h

-- Whatever is queued and sent, no two messages of the outbox have one key.
pub work-IsOnce : (es : List Event) (o : Outbox) → IsOnce o.messages → IsOnce (work es o).messages
unfolding work
work-IsOnce [] o h = h
work-IsOnce (e ∷ es) o h = work-IsOnce es (step e o) (step-IsOnce e o h)

step-known :
    (k : Text) (e : Event) (o : Outbox)
    → any (λ x. text_eq x.dedup_key k) o.messages ≡ true
    → any (λ x. text_eq x.dedup_key k) (step e o).messages ≡ true
unfolding step queue_message drain
step-known k (queue kind dedup channel recipient body) o h =
    elim (Bool-cases (any (λ m. text_eq m.dedup_key dedup) o.messages)) [
      | inl old ↦ rw old h
      | inr new ↦ rw (new, any-append (λ x. text_eq x.dedup_key k) o.messages _, h) refl
    ]
step-known k (flush false send) o h = h
step-known k (flush true send) o h =
    any_key-send_each k send (pending_messages 20 o.messages) o.messages ∙ h

work-known :
    (k : Text) (es : List Event) (o : Outbox)
    → any (λ x. text_eq x.dedup_key k) o.messages ≡ true
    → any (λ x. text_eq x.dedup_key k) (work es o).messages ≡ true
unfolding work
work-known k [] o h = h
work-known k (e ∷ es) o h = work-known k es (step e o) (step-known k e o h)

known_now :
    (k kind channel recipient body : Text) (o : Outbox)
    → any (λ x. text_eq x.dedup_key k) (step (queue kind k channel recipient body) o).messages
      ≡ true
unfolding step queue_message
known_now k kind channel recipient body o =
    elim (Bool-cases (any (λ m. text_eq m.dedup_key k) o.messages)) [
      | inl old ↦ rw old old
      | inr new ↦
          rw (new, any-append (λ x. text_eq x.dedup_key k) o.messages _, new)
            (ground (arith, text_eq_refl k))
    ]

-- A key that has been queued is never queued again, whatever is queued and sent in between, even after
-- its message has been sent or has failed.
pub queued_once :
    (k : Text) (kind channel recipient body kind' channel' recipient' body' : Text) (o : Outbox)
    (es : List Event)
    → queue_message kind' k channel' recipient' body'
        (work es (step (queue kind k channel recipient body) o))
      ≡ none
unfolding queue_message
queued_once k kind channel recipient body kind' channel' recipient' body' o es =
    rw
      (work-known k es (step (queue kind k channel recipient body) o)
        (known_now k kind channel recipient body o))
      refl

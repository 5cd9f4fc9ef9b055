-- ===== src/Outbox/Sound.antt =====
-- internal/storage/messages.go: ids and tries, after any event.
use fuelmind.Base.{
  ℕ, ◌+◌, ◌<◌, ◌≡◌, refl, true, false, Option, none, some, List, [], ◌∷◌, ◌++◌, Text, text_eq,
  arith, any, any-append, All, All-append, inl, inr, Bool-cases,
}
use fuelmind.Outbox.{
  Message, Outbox, update_message, outcome, mark_sent, mark_attempt, send_each, drain,
  pending_messages, queue_message,
}
use fuelmind.Outbox.Once.{Event, queue, flush, step}
use fuelmind.Outbox.Tries.{has_id, IsKeyed, in_budget, Ready, drain-Ready}

pub outcome-id : (e : Option Text) (m : Message) → (outcome e m).id ≡ m.id
unfolding outcome mark_sent mark_attempt
outcome-id none m = refl
outcome-id (some e) m = refl

pub any_id-update :
    (i j : ℕ) (e : Option Text) (rows : List Message)
    → any (has_id i) (update_message j (outcome e) rows) ≡ any (has_id i) rows
unfolding update_message
any_id-update i j e [] = refl
any_id-update i j e (r ∷ rows) = ground (arith, any_id-update i j e rows, outcome-id e r)

-- No two messages have one id, new ids are new, and what is queued has a try left.
pub record IsOutbox (o : Outbox) : Type 0 where
  pub keyed : IsKeyed o.messages
  pub below : All (λ (m : Message). m.id < o.next_id) o.messages
  pub ready : Ready [] o.messages

update_message-IsKeyed :
    (j : ℕ) (e : Option Text) (rows : List Message)
    → IsKeyed rows
    → IsKeyed (update_message j (outcome e) rows)
unfolding update_message
update_message-IsKeyed j e [] k = tt
update_message-IsKeyed j e (r ∷ rows) k =
    ground
      (arith, any_id-update r.id j e rows, outcome-id e r, k.0, update_message-IsKeyed j e rows k.1)

update_message-below :
    (j n : ℕ) (e : Option Text) (rows : List Message)
    → All (λ (m : Message). m.id < n) rows
    → All (λ (m : Message). m.id < n) (update_message j (outcome e) rows)
unfolding update_message
update_message-below j n e [] h = tt
update_message-below j n e (r ∷ rows) h =
    (ground (arith, outcome-id e r, h.0), update_message-below j n e rows h.1)

send_each-IsKeyed :
    (send : Message → Option Text) (ms rows : List Message)
    → IsKeyed rows
    → IsKeyed (send_each send ms rows)
unfolding send_each
send_each-IsKeyed send [] rows k = k
send_each-IsKeyed send (m ∷ ms) rows k =
    send_each-IsKeyed send ms _ (update_message-IsKeyed m.id (send m) rows k)

send_each-below :
    (n : ℕ) (send : Message → Option Text) (ms rows : List Message)
    → All (λ (m : Message). m.id < n) rows
    → All (λ (m : Message). m.id < n) (send_each send ms rows)
unfolding send_each
send_each-below n send [] rows h = h
send_each-below n send (m ∷ ms) rows h =
    send_each-below n send ms _ (update_message-below m.id n (send m) rows h)

no_id_below :
    (n : ℕ) (rows : List Message)
    → All (λ (m : Message). m.id < n) rows
    → any (has_id n) rows ≡ false
no_id_below n [] h = refl
no_id_below n (r ∷ rows) h = ground (arith, h.0, no_id_below n rows h.1)

append-IsKeyed :
    (m : Message) (rows : List Message)
    → IsKeyed rows
    → any (has_id m.id) rows ≡ false
    → IsKeyed (rows ++ (m ∷ []))
append-IsKeyed m [] k new = (refl, tt)
append-IsKeyed m (r ∷ rows) k new = (
  ground (arith, any-append (has_id r.id) rows (m ∷ []), k.0),
  append-IsKeyed m rows k.1 (ground arith),
)

below_next :
    (n : ℕ) (rows : List Message)
    → All (λ (m : Message). m.id < n) rows
    → All (λ (m : Message). m.id < n + 1) rows
below_next n [] h = tt
below_next n (r ∷ rows) h = (omega (arith, h.0), below_next n rows h.1)

Ready-append :
    (m : Message) (rows : List Message)
    → in_budget m ≡ true
    → Ready [] rows
    → Ready [] (rows ++ (m ∷ []))
Ready-append m [] b h = (ground arith, tt)
Ready-append m (r ∷ rows) b h = (h.0, Ready-append m rows b h.1)

pub step-IsOutbox : (e : Event) (o : Outbox) → IsOutbox o → IsOutbox (step e o)
unfolding step drain queue_message
step-IsOutbox (flush false send) o s = s
step-IsOutbox (flush true send) o s = record {
  keyed = send_each-IsKeyed send (pending_messages 20 o.messages) o.messages s.keyed;
  below = send_each-below o.next_id send (pending_messages 20 o.messages) o.messages s.below;
  ready = drain-Ready true send o s.keyed s.ready;
}
step-IsOutbox (queue kind dedup channel recipient body) o s =
    elim (Bool-cases (any (λ m. text_eq m.dedup_key dedup) o.messages)) [
      | inl old ↦ rw old s
      | inr new ↦ rw new (record {
        keyed = append-IsKeyed _ o.messages s.keyed (no_id_below o.next_id o.messages s.below);
        below =
            All-append (λ (m : Message). m.id < o.next_id + 1) o.messages _
              (below_next o.next_id o.messages s.below) (omega arith, tt);
        ready = Ready-append _ o.messages refl s.ready;
      })
    ]

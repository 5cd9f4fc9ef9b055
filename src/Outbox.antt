-- ===== src/Outbox.antt =====
-- internal/storage/messages.go and internal/messaging/agent.go: the outbox of the station, as the table
-- messages, and the sending of what is queued.
pub mod Once
pub mod Tries
pub mod Sound
pub mod Budget
mod Tests
use fuelmind.Base.{
  ℕ, suc, ◌+◌, ◌≡◌, Bool, true, false, not, ◌&&◌, Option, none, some, List, [], ◌∷◌, ◌++◌, Text,
  codes, text_eq, is_empty, leb, ◌==◌, any, keep_if, take, if◌then◌else◌,
}

pub data Status : Type 0 where
  queued : Status
  sent : Status
  failed : Status

abbrev pub is_queued : Status → Bool
is_queued queued = true
is_queued sent = false
is_queued failed = false

-- A row of messages.
pub record Message : Type 0 where
  pub id : ℕ
  pub kind : Text
  pub dedup_key : Text
  pub channel : Text
  pub recipient : Text
  pub body : Text
  pub status : Status
  pub attempts : ℕ
  pub last_error : Option Text

pub record Outbox : Type 0 where
  pub messages : List Message
  pub next_id : ℕ

abbrev pub max_send_attempts : ℕ
max_send_attempts = 5

-- QueueMessage; `none` is ErrDuplicateMessage.
unfoldable pub queue_message : Text → Text → Text → Text → Text → Outbox → Option Outbox
queue_message kind dedup channel recipient body o =
    if any (λ m. text_eq m.dedup_key dedup) o.messages
    then none
    else some (record o {
      messages =
          o.messages
          ++ record {
            id = o.next_id;
            kind = kind;
            dedup_key = dedup;
            channel = if is_empty channel then codes "whatsapp" else channel;
            recipient = recipient;
            body = body;
            status = queued;
            attempts = 0;
            last_error = none;
          }
            ∷ [];
      next_id = o.next_id + 1;
    })

-- The row of MarkMessageSent.
unfoldable pub mark_sent : Message → Message
mark_sent m = record m { status = sent; attempts = m.attempts + 1; last_error = none }

-- The row of MarkMessageAttempt.
unfoldable pub mark_attempt : Text → Message → Message
mark_attempt e m = record m {
  attempts = m.attempts + 1;
  last_error = some e;
  status = if leb max_send_attempts (m.attempts + 1) then failed else queued;
}

-- UPDATE messages ... WHERE id = ?
unfoldable pub update_message : ℕ → (Message → Message) → List Message → List Message
update_message i f [] = []
update_message i f (m ∷ ms) = (if m.id == i then f m else m) ∷ update_message i f ms

-- PendingMessages
unfoldable pub pending_messages : ℕ → List Message → List Message
pending_messages limit ms = take limit (keep_if (λ m. is_queued m.status) ms)

-- What becomes of a message that is handed to the sender, which answers `none` or an error.
unfoldable pub outcome : Option Text → Message → Message
unfolding mark_sent mark_attempt
outcome none m = mark_sent m
outcome (some e) m = mark_attempt e m

-- The loop of Drain.
unfoldable pub send_each : (Message → Option Text) → List Message → List Message → List Message
unfolding update_message outcome
send_each send [] rows = rows
send_each send (m ∷ ms) rows = send_each send ms (update_message m.id (outcome (send m)) rows)

-- Drain, where the sender is ready.
unfoldable pub drain : Bool → (Message → Option Text) → Outbox → Outbox
unfolding send_each pending_messages
drain ready send o =
    if not ready
    then o
    else record o { messages = send_each send (pending_messages 20 o.messages) o.messages }

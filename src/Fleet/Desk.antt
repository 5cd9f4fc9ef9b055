-- ===== src/Fleet/Desk.antt =====
-- internal/cloudctl/messages.go: the questions that wait for a station, and their answers.
pub mod Asking
pub mod Bounded
pub mod Own
use fuelmind.Base.{
  ℕ, zero, suc, ◌-◌, Bool, true, false, not, ◌&&◌, Option, none, some, List, [], ◌∷◌, ◌++◌, Text,
  text_eq, is_empty, trim_space, byte_len, utf8_len, ltb, leb, length, drop, lookup, insert, erase,
  codes, if◌then◌else◌,
}
use fuelmind.Fleet.{
  Server, Message, Reply, refused, pending, message, Auth, granted, denied, station_for,
  admin_authorized,
}

abbrev pub max_message_length : ℕ
max_message_length = 300

abbrev pub max_queue : ℕ
max_queue = 500

-- The bytes that are left of a character which is cut in two, as JSON shows them.
abbrev pub broken_bytes : ℕ → Text
broken_bytes zero = []
broken_bytes (suc n) = 0xfffd ∷ broken_bytes n

-- text[:n], by bytes
unfoldable pub cut_text : ℕ → Text → Text
cut_text n [] = []
cut_text n (c ∷ s) =
    let rest = cut_text (n - utf8_len c) s in
    if leb (utf8_len c) n then c ∷ rest else broken_bytes n

-- What Enqueue keeps of a question.
unfoldable pub question_text : Text → Text
unfolding trim_space byte_len cut_text
question_text text =
    let t = trim_space text in
    if ltb max_message_length (byte_len t) then cut_text max_message_length t else t

-- `if len(s.order) > 500`: the oldest question goes.
unfoldable pub drop_oldest : List Text → Server → Server
unfolding erase
drop_oldest [] s = s
drop_oldest (first ∷ rest) s =
    if ltb max_queue (length (first ∷ rest))
    then record s { messages = erase first s.messages; order = rest }
    else s

unfoldable pub add_message : Message → Server → Server
unfolding insert
add_message m s = record s { messages = insert m.id m s.messages; order = s.order ++ m.id ∷ [] }

abbrev pub new_message : ℕ → Text → Text → Text → Text → Text → Message
new_message now id station_id sender text channel = record {
  id = id;
  station_id = station_id;
  sender = sender;
  text = text;
  channel = channel;
  received_at = now;
  answer = [];
  answered_at = none;
}

-- The end of Enqueue, where the station is known and the question is not empty.
unfoldable pub put_question : ℕ → Text → Text → Text → Text → Text → Server → Message × Server
unfolding drop_oldest add_message
put_question now id station_id sender text channel s =
    let m = new_message now id station_id sender text channel in
    let s' = add_message m s in (m, drop_oldest s'.order s')

abbrev pub is_some {ℓ} : {A : Type ℓ} → Option A → Bool
is_some none = false
is_some (some a) = true

-- Enqueue; `rand` is the new id, none where no random bytes can be read. `none` is its error.
unfoldable pub enqueue :
    ℕ → Option Text → Text → Text → Text → Text → Server → Option (Message × Server)
unfolding question_text put_question lookup
enqueue now rand station_id sender text channel s =
    if not (is_some (lookup station_id s.stations))
    then none
    else if is_empty (trim_space text)
    then none
    else elim rand [
      | none ↦ none
      | some id ↦ some (put_question now id station_id sender (question_text text) channel s)
    ]

abbrev pub answered : Message → Bool
answered m = is_some m.answered_at

-- What one id of the order adds to the answer of handlePendingMessages.
unfoldable pub pending_of : Text → Option Message → List Message → List Message
pending_of station_id none rest = rest
pending_of station_id (some m) rest =
    if text_eq m.station_id station_id && not (answered m) then m ∷ rest else rest

-- The loop of handlePendingMessages.
unfoldable pub pending_messages : Text → List Text → Server → List Message
unfolding pending_of lookup
pending_messages station_id [] s = []
pending_messages station_id (id ∷ ids) s =
    pending_of station_id (lookup id s.messages) (pending_messages station_id ids s)

-- handlePendingMessages behind the test of the method
unfoldable pub handle_pending_messages : Text → Text → Server → Reply
unfolding station_for pending_messages
handle_pending_messages authorization station_id s = elim (station_for authorization station_id s) [
  | denied code ↦ refused code
  | granted st ↦ pending (pending_messages station_id s.order s)
]

abbrev pub with_answer : ℕ → Text → Message → Message
with_answer now answer m = record m { answer = answer; answered_at = some now }

-- The end of handleMessageReply, where the message is known.
unfoldable pub reply_to : ℕ → Text → Text → Text → Message → Server → Reply × Server
unfolding station_for insert
reply_to now authorization id answer m s = elim (station_for authorization m.station_id s) [
  | denied code ↦ (refused code, s)
  | granted st ↦ (
    message (some (with_answer now answer m)),
    record s { messages = insert id (with_answer now answer m) s.messages },
  )
]

-- handleMessageReply behind the test of the method; none is a body that is not JSON.
unfoldable pub handle_message_reply : ℕ → Text → Text → Option Text → Server → Reply × Server
unfolding reply_to lookup
handle_message_reply now authorization id none s = (refused 400, s)
handle_message_reply now authorization id (some answer) s = elim (lookup id s.messages) [
  | none ↦ (refused 404, s)
  | some m ↦ reply_to now authorization id answer m s
]

-- GET of handleAdminMessages
unfoldable pub admin_read : Text → Text → Server → Reply
unfolding admin_authorized lookup
admin_read authorization id s =
    if not (admin_authorized authorization s)
    then refused 401
    else elim (lookup id s.messages) [ none ↦ refused 404 | some m ↦ message (some m) ]

-- POST of handleAdminMessages without waiting; the body is the station, the sender and the text.
unfoldable pub admin_ask :
    ℕ → Option Text → Text → Option (Text × Text × Text) → Server → Reply × Server
unfolding admin_authorized enqueue
admin_ask now rand authorization none s =
    if not (admin_authorized authorization s) then (refused 401, s) else (refused 400, s)
admin_ask now rand authorization (some (station_id, sender, text)) s =
    if not (admin_authorized authorization s)
    then (refused 401, s)
    else elim (enqueue now rand station_id sender text (codes "admin") s) [
      | none ↦ (refused 400, s)
      | some (m, s') ↦ (message (some m), s')
    ]

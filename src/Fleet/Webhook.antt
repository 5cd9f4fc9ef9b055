-- ===== src/Fleet/Webhook.antt =====
-- internal/cloudctl/messages.go: the webhook of the WhatsApp or SMS gateway, which resolves the station
-- from the sender's number, and the wait for the station's answer.
pub mod Routing
pub mod Events
pub mod Queue
pub mod Waiting
pub mod Privacy
use fuelmind.Base.{
  ℕ, Bool, true, false, not, ◌&&◌, Option, none, some, List, [], ◌∷◌, Text, codes, text_eq,
  is_empty, trim_space, any, lookup, ◌==◌, if◌then◌else◌,
}
use fuelmind.Limits.{allow}
use fuelmind.Phone.{normalize}
use fuelmind.Fleet.{
  Server, Station, UpdateRelease, LicenseChange, Message, active, add_station, add_release,
  set_heartbeat_cap, handle_heartbeat, handle_admin_station_license,
}
use fuelmind.Fleet.Desk.{enqueue, answered, is_some, handle_message_reply, admin_ask}

-- ownsNumber
unfoldable pub owns_number : Text → Station → Bool
unfolding normalize
owns_number from st =
    let want = normalize from in
    if is_empty want then false else any (λ n. text_eq (normalize n) want) st.owner_numbers

-- from[strings.LastIndex(from, ":")+1:], and `from` where there is no colon
unfoldable pub after_last_colon : Text → Text
after_last_colon [] = []
after_last_colon (c ∷ s) =
    let rest = after_last_colon s in
    if any (λ d. d == b':') (c ∷ s) then (if any (λ d. d == b':') s then rest else s) else c ∷ s

-- senderNumber
unfoldable pub sender_number : Text → Text
unfolding after_last_colon trim_space
sender_number from = trim_space (after_last_colon (trim_space from))

-- firstNonEmpty
unfoldable pub first_non_empty : List Text → Text
unfolding trim_space
first_non_empty [] = []
first_non_empty (v ∷ vs) =
    if not (is_empty (trim_space v)) then trim_space v else first_non_empty vs

-- The test of the loop of stationForNumber.
abbrev pub answers_to : Text → Station → Bool
answers_to from st = text_eq st.status active && owns_number from st

-- The loop of stationForNumber, with what is found so far.
unfoldable pub search_stations : Text → List (Text × Station) → Option Station → Option Station
search_stations from [] found = found
search_stations from ((k, st) ∷ rest) found =
    let next = search_stations from rest found in
    let first = search_stations from rest (some st) in
    if not (answers_to from st) then next else if is_some found then none else first

-- stationForNumber
unfoldable pub station_for_number : Text → Server → Option Station
unfolding search_stations
station_for_number from s =
    if is_empty (trim_space from) then none else search_stations from s.stations none

-- The form and the query of a message from the gateway.
pub record Inbound : Type 0 where
  pub token : Text
  pub claimed : Text
  pub from_values : List Text
  pub body_values : List Text

-- What the webhook writes. The texts of the notices say no more than their constructor.
pub data Twiml : Type 0 where
  http_error : ℕ → Twiml
  too_many : Twiml
  not_registered : Twiml
  unreachable : Twiml
  offline : Twiml
  said : Text → Twiml

-- What the webhook does before it waits: it answers, or the question with an id is queued.
pub data Received : Type 0 where
  done : Twiml → Received
  queued : Message → Received

abbrev pub sender_of : Inbound → Text
sender_of r = sender_number (first_non_empty r.from_values)

-- The webhook from the station on that the number resolves to.
unfoldable pub ask_station : ℕ → Option Text → Inbound → Station → Server → Received × Server
unfolding enqueue first_non_empty
ask_station now rand r st s =
    let claimed = trim_space r.claimed in
    if not (is_empty claimed) && not (text_eq claimed st.station_id)
    then (done (http_error 403), s)
    else elim (enqueue now rand st.station_id (sender_of r) (first_non_empty r.body_values)
        (codes "whatsapp") s) [ none ↦ (done unreachable, s) | some (m, s') ↦ (queued m, s') ]

-- The webhook behind the rate limit.
unfoldable pub route_question : ℕ → Option Text → Inbound → Server → Received × Server
unfolding station_for_number ask_station
route_question now rand r s = elim (station_for_number (sender_of r) s) [
  | none ↦ (done not_registered, s)
  | some st ↦ ask_station now rand r st s
]

-- handleWhatsAppWebhook up to its wait, behind the test of the method; the form can be parsed.
unfoldable pub receive : ℕ → Option Text → Inbound → Server → Received × Server
unfolding route_question allow
receive now rand r s =
    if is_empty s.webhook_token
    then (done (http_error 404), s)
    else if not (text_eq r.token s.webhook_token)
    then (done (http_error 401), s)
    else let (admitted, l) = allow now (normalize (sender_of r)) s.limiter in
      if not admitted
      then (done too_many, record s { limiter = l })
      else route_question now rand r (record s { limiter = l })

-- What else the server does while a handler waits.
pub data Event : Type 0 where
  station_added : Station → Event
  release_added : UpdateRelease → Event
  cap_set : ℕ → Event
  beat : ℕ → Text → Option (Text × Text) → Event
  licensed : Text → Text → Option LicenseChange → Event
  answer : ℕ → Text → Text → Option Text → Event
  admin_asked : ℕ → Option Text → Text → Option (Text × Text × Text) → Event
  inbound : ℕ → Option Text → Inbound → Event

unfoldable pub step : Event → Server → Server
unfolding add_station add_release set_heartbeat_cap handle_heartbeat handle_admin_station_license
    handle_message_reply admin_ask receive
step (station_added st) s = add_station st s
step (release_added r) s = add_release r s
step (cap_set n) s = set_heartbeat_cap n s
step (beat now authorization body) s = (handle_heartbeat now authorization body s).1
step (licensed authorization id req) s = (handle_admin_station_license authorization id req s).1
step (answer now authorization id body) s = (handle_message_reply now authorization id body s).1
step (admin_asked now rand authorization body) s = (admin_ask now rand authorization body s).1
step (inbound now rand r) s = (receive now rand r s).1

unfoldable pub run : List Event → Server → Server
unfolding step
run [] s = s
run (e ∷ es) s = run es (step e s)

-- WaitForAnswer: before each look at the message, the server handles the events of one round.
unfoldable pub wait_for_answer : Text → List (List Event) → Server → Option Message × Bool × Server
unfolding run lookup
wait_for_answer id [] s = (lookup id s.messages, false, s)
wait_for_answer id (es ∷ rounds) s =
    let s' = run es s in
    let rest = wait_for_answer id rounds s' in
    elim (lookup id s'.messages) [
      | none ↦ rest
      | some m ↦ if answered m then (some m, true, s') else rest
    ]

-- The end of handleWhatsAppWebhook.
abbrev pub say : Option Message × Bool × Server → Twiml × Server
say (some m, true, s) = (said m.answer, s)
say (some m, false, s) = (offline, s)
say (none, b, s) = (offline, s)

-- handleWhatsAppWebhook from its wait on
unfoldable pub await : List (List Event) → Received × Server → Twiml × Server
unfolding wait_for_answer
await rounds (done t, s) = (t, s)
await rounds (queued m, s) = say (wait_for_answer m.id rounds s)

-- handleWhatsAppWebhook
unfoldable pub handle_whatsapp_webhook :
    ℕ → Option Text → Inbound → List (List Event) → Server → Twiml × Server
unfolding receive await
handle_whatsapp_webhook now rand r rounds s = await rounds (receive now rand r s)

-- ===== src/Fleet/Webhook/Events.antt =====
-- internal/cloudctl: what one request does to a question that is queued.
use fuelmind.Base.{
  ℕ, ◌≡◌, ◌≢◌, refl, ap, ◌∙◌, false, Option, none, some, List, [], ◌∷◌, ◌⊎◌, inl, inr, Bool-cases,
  Option-cases, Text, codes, text_eq, text_eq_iff, is_empty, lookup, lookup-insert, lookup-erase,
  length, ltb, ◌++◌,
}
use mathlib.Core.Path.{subst}
use fuelmind.Fleet.{
  Server, Station, Message, LicenseChange, Auth-cases, station_for, add_station, add_release,
  set_heartbeat_cap, handle_heartbeat, keep_beat, admin_authorized, handle_admin_station_license,
}
use fuelmind.Fleet.Desk.{
  with_answer, enqueue, put_question, add_message, drop_oldest, question_text, reply_to,
  handle_message_reply, admin_ask,
}
use fuelmind.Fleet.Desk.Asking.{AfterEnqueue, enqueue_keeps, admin_ask_keeps}
use fuelmind.Fleet.Desk.Own.{HoldsKey, station_for-HoldsKey}
use fuelmind.Fleet.Webhook.{
  Event, station_added, release_added, cap_set, beat, licensed, answer, admin_asked, inbound, step,
  receive,
}
use fuelmind.Fleet.Webhook.Routing.{receive_keeps}

-- The random id that a request uses.
abbrev pub minted : Event → Option Text
minted (admin_asked now rand authorization body) = rand
minted (inbound now rand r) = rand
minted e = none

-- The messages and their order are as before.
abbrev pub SameDesk : Server → Server → Type 0
SameDesk s t = (t.messages ≡ s.messages) × (t.order ≡ s.order)

pub handle_heartbeat-desk :
    (now : ℕ) (authorization : Text) (body : Option (Text × Text)) (s : Server)
    → SameDesk s (handle_heartbeat now authorization body s).1
unfolding handle_heartbeat keep_beat
handle_heartbeat-desk now authorization none s = (refl, refl)
handle_heartbeat-desk now authorization (some (station_id, payload)) s =
    elim (Bool-cases (is_empty station_id)) [
      | inl e ↦ rw (e, handle_heartbeat) (refl, refl)
      | inr e ↦ elim (Auth-cases (station_for authorization station_id s)) [
        | inl (code, f) ↦ rw (e, handle_heartbeat, f) (refl, refl)
        | inr (st, f) ↦ rw (e, handle_heartbeat, f) (refl, refl)
      ]
    ]

pub handle_admin-desk :
    (authorization id : Text) (req : Option LicenseChange) (s : Server)
    → SameDesk s (handle_admin_station_license authorization id req s).1
unfolding handle_admin_station_license
handle_admin-desk authorization id none s = elim (Bool-cases (admin_authorized authorization s)) [
  | inl e ↦ rw e (refl, refl)
  | inr e ↦ rw e (refl, refl)
]
handle_admin-desk authorization id (some req) s =
    elim (Bool-cases (admin_authorized authorization s)) [
      | inr e ↦ rw e (refl, refl)
      | inl e ↦ elim (Bool-cases (is_empty id)) [
        | inl f ↦ rw (e, f) (refl, refl)
        | inr f ↦ elim (Option-cases (lookup id s.stations)) [
          | inl g ↦ rw (e, handle_admin_station_license, f, g) (refl, refl)
          | inr (st, g) ↦ rw (e, handle_admin_station_license, f, g) (refl, refl)
        ]
      ]
    ]

-- The request posts the answer `a` to the question `id`, with the key of the station.
abbrev pub Answers : Text → Text → Text → Event → Server → Type 0
Answers station_id id a e s =
    (now : ℕ) × (authorization : Text) × (st : Station) × (e ≡ answer now authorization id (some a))
    × HoldsKey authorization station_id st s

-- A question goes, or stays, or is answered by its station.
abbrev pub Changed : Text → Event → Server → Option Message → Option Message → Type 0
Changed id e s o none = Unit
Changed id e s none (some m) = ⊥
Changed id e s (some m) (some m') =
    (m' ≡ m)
    ⊎ ((m'.station_id ≡ m.station_id)
        × (is_empty m.station_id ≡ false → Answers m.station_id id m'.answer e s))

Changed-same : (id : Text) (e : Event) (s : Server) (o : Option Message) → Changed id e s o o
Changed-same id e s none = tt
Changed-same id e s (some m) = inl refl

-- The question is as before, or gone.
abbrev pub Spared : Text → Server → Server → Type 0
Spared id s t = (lookup id t.messages ≡ lookup id s.messages) ⊎ (lookup id t.messages ≡ none)

Spared-Changed :
    (id : Text) (e : Event) (s t : Server)
    → Spared id s t
    → Changed id e s (lookup id s.messages) (lookup id t.messages)
Spared-Changed id e s t (inl h) = rw h (Changed-same id e s (lookup id s.messages))
Spared-Changed id e s t (inr h) = rw h tt

other_text : (a b : Text) → a ≢ b → text_eq a b ≡ false
other_text a b ne = elim (Bool-cases (text_eq a b)) [
  | inl e ↦ absurd (ne ((text_eq_iff a b).0 e))
  | inr e ↦ e
]

pub drop_oldest-Spared :
    (id : Text) (o : List Text) (s t : Server)
    → lookup id t.messages ≡ lookup id s.messages
    → Spared id s (drop_oldest o t)
unfolding drop_oldest
drop_oldest-Spared id [] s t h = inl h
drop_oldest-Spared id (first ∷ rest) s t h = elim (Bool-cases (ltb 500 (length (first ∷ rest)))) [
  | inr e ↦ rw e (inl h)
  | inl e ↦ elim (Bool-cases (text_eq first id)) [
    | inl f ↦ rw e (inr (rw (lookup-erase first id t.messages, f) refl))
    | inr f ↦ rw e (inl (rw (lookup-erase first id t.messages, f) h))
  ]
]

put_question-Spared :
    (id : Text) (s : Server) (now : ℕ) (i station_id sender text channel : Text) (t : Server)
    → text_eq i id ≡ false
    → t.messages ≡ s.messages
    → Spared id s (put_question now i station_id sender text channel t).1
unfolding put_question add_message
put_question-Spared id s now i station_id sender text channel t other h =
    drop_oldest-Spared id (t.order ++ i ∷ []) s _
      (rw (lookup-insert i id _ t.messages, other, h) refl)

enqueue-Spared :
    (id : Text) (s : Server) (now : ℕ) (rand : Option Text) (station_id sender text channel : Text)
    (t : Server)
    → rand ≢ some id
    → t.messages ≡ s.messages
    → AfterEnqueue (Spared id s) (enqueue now rand station_id sender text channel t)
enqueue-Spared id s now rand station_id sender text channel t ne h =
    enqueue_keeps (Spared id s) now rand station_id sender text channel t (λ i e.
      put_question-Spared id s now i station_id sender (question_text text) channel t
        (other_text i id (λ f. ne (e ∙ ap some f))) h)

reply_to-Changed :
    (now : ℕ) (authorization id i a : Text) (m : Message) (s : Server)
    → lookup i s.messages ≡ some m
    → Changed id
        (answer now authorization i (some a))
        s
        (lookup id s.messages)
        (lookup id (reply_to now authorization i a m s).1.messages)
unfolding reply_to
reply_to-Changed now authorization id i a m s row =
    elim (Auth-cases (station_for authorization m.station_id s)) [
      | inl (code, e) ↦ rw (e, reply_to) (Changed-same id _ s (lookup id s.messages))
      | inr (st, e) ↦ elim (Bool-cases (text_eq i id)) [
        | inr f ↦
            rw (e, reply_to, lookup-insert i id (with_answer now a m) s.messages, f)
              (Changed-same id _ s (lookup id s.messages))
        | inl f ↦
            let same : i ≡ id = (text_eq_iff i id).0 f in
            rw
              (
                e,
                reply_to,
                lookup-insert i id (with_answer now a m) s.messages,
                f,
                subst (λ j. lookup j s.messages ≡ some m) same row,
              )
              (inr (
                refl,
                λ full. (
                  now,
                  authorization,
                  st,
                  ap (λ j. answer now authorization j (some a)) same,
                  station_for-HoldsKey authorization m.station_id s st e full,
                ),
              ))
      ]
    ]

reply-Changed :
    (now : ℕ) (authorization id i : Text) (body : Option Text) (s : Server)
    → Changed id
        (answer now authorization i body)
        s
        (lookup id s.messages)
        (lookup id (handle_message_reply now authorization i body s).1.messages)
unfolding handle_message_reply
reply-Changed now authorization id i none s = Changed-same id _ s (lookup id s.messages)
reply-Changed now authorization id i (some a) s = elim (Option-cases (lookup i s.messages)) [
  | inl e ↦ rw (e, handle_message_reply) (Changed-same id _ s (lookup id s.messages))
  | inr (m, e) ↦ rw (e, handle_message_reply) (reply_to-Changed now authorization id i a m s e)
]

-- What one request does to a question whose id it does not use anew.
pub step-Changed :
    (id : Text) (e : Event) (s : Server)
    → minted e ≢ some id
    → Changed id e s (lookup id s.messages) (lookup id (step e s).messages)
unfolding step add_station add_release set_heartbeat_cap
step-Changed id (station_added st) s ne = Changed-same id _ s (lookup id s.messages)
step-Changed id (release_added r) s ne = Changed-same id _ s (lookup id s.messages)
step-Changed id (cap_set n) s ne = Changed-same id _ s (lookup id s.messages)
step-Changed id (beat now authorization body) s ne =
    rw ((handle_heartbeat-desk now authorization body s).0)
      (Changed-same id _ s (lookup id s.messages))
step-Changed id (licensed authorization i req) s ne =
    rw ((handle_admin-desk authorization i req s).0) (Changed-same id _ s (lookup id s.messages))
step-Changed id (answer now authorization i body) s ne = reply-Changed now authorization id i body s
step-Changed id (admin_asked now rand authorization body) s ne =
    Spared-Changed id _ s (admin_ask now rand authorization body s).1 (
      admin_ask_keeps (Spared id s) now rand authorization body s (inl refl)
        (λ st sender text. enqueue-Spared id s now rand st sender text (codes "admin") s ne refl))
step-Changed id (inbound now rand r) s ne = Spared-Changed id _ s (receive now rand r s).1 (
    receive_keeps (Spared id s) now rand r s (inl refl) (λ l. inl refl)
      (λ l st sender text channel.
        enqueue-Spared id s now rand st sender text channel (record s { limiter = l }) ne refl))

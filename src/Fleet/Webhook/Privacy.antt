-- ===== src/Fleet/Webhook/Privacy.antt =====
-- internal/cloudctl/messages.go, handleWhatsAppWebhook: whose answer a sender is given.
use fuelmind.Base.{
  ℕ, ◌≡◌, ◌≢◌, refl, ap, ◌∙◌, Bool, true, false, not, ◌&&◌, Option, none, some, List, [], ◌∷◌, ◌++◌,
  inl, inr, arith, Bool-cases, Option-cases, Text, codes, text_eq, text_eq_iff, is_empty,
  trim_space, lookup, lookup-insert_self, Contains,
}
use mathlib.Core.Path.{subst, sym}
use fuelmind.Limits.{allow}
use fuelmind.Phone.{normalize}
use fuelmind.Fleet.{Server, Station, Message}
use fuelmind.Fleet.Desk.{answered, new_message, enqueue, put_question, add_message, question_text}
use fuelmind.Fleet.Desk.Own.{claim_checked}
use fuelmind.Fleet.Webhook.{
  Event, Inbound, Twiml, said, done, queued, Received, http_error, too_many, not_registered,
  unreachable, offline, sender_of, ask_station, route_question, receive, station_for_number,
  first_non_empty, wait_for_answer, say, await, handle_whatsapp_webhook,
}
use fuelmind.Fleet.Webhook.Routing.{IsOnlyOwner, station_for_number-IsOnlyOwner}
use fuelmind.Fleet.Webhook.Waiting.{
  SaidBy, Avoids, Later, run-Later, all_of, SaidBy-append, Avoids-front, Sees, wait_for_answer-Sees,
}
use fuelmind.Fleet.Webhook.Events.{drop_oldest-Spared}

-- A question to the station that waits for its answer, or none.
abbrev Asked : Text → Option Message → Type 0
Asked station_id none = Unit
Asked station_id (some m) = (m.station_id ≡ station_id) × (answered m ≡ false)

put_question-Asked :
    (now : ℕ) (id station_id sender text channel : Text) (s : Server)
    → Asked station_id (lookup id (put_question now id station_id sender text channel s).1.messages)
unfolding put_question add_message
put_question-Asked now id station_id sender text channel s =
    let m = new_message now id station_id sender text channel in
    elim (drop_oldest-Spared id (s.order ++ id ∷ []) (add_message m s) (add_message m s) refl) [
      | inl e ↦ rw (e, lookup-insert_self id m s.messages) (refl, refl)
      | inr e ↦ rw e tt
    ]

-- Where the webhook queues a question, it is one to the station.
abbrev Puts : Option Text → Text → Option (Message × Server) → Type 0
Puts rand station_id none = Unit
Puts rand station_id (some (m, s)) = (rand ≡ some m.id) × Asked station_id (lookup m.id s.messages)

put_question-Puts :
    (now : ℕ) (id station_id sender text channel : Text) (s : Server)
    → Puts (some id) station_id (some (put_question now id station_id sender text channel s))
unfolding put_question
put_question-Puts now id station_id sender text channel s =
    (refl, put_question-Asked now id station_id sender text channel s)

enqueue-Puts :
    (now : ℕ) (rand : Option Text) (station_id sender text channel : Text) (s : Server)
    → Puts rand station_id (enqueue now rand station_id sender text channel s)
unfolding enqueue
enqueue-Puts now none station_id sender text channel s = ground arith
enqueue-Puts now (some id) station_id sender text channel s =
    ground (arith, put_question-Puts now id station_id sender (question_text text) channel s)

-- What the first half of the webhook leaves: a notice, or a question to the sender's own station.
abbrev Got : Option Text → Inbound → Server → Received × Server → Type 0
Got rand r s (done t, s') = (a : Text) → t ≢ said a
Got rand r s (queued m, s') =
    (st : Station) × IsOnlyOwner (sender_of r) st s.stations
    × (is_empty (trim_space r.claimed) ≡ false → trim_space r.claimed ≡ st.station_id)
    × (rand ≡ some m.id)
    × Asked st.station_id (lookup m.id s'.messages)

ask_station-Got :
    (now : ℕ) (rand : Option Text) (r : Inbound) (st : Station) (s : Server)
    → IsOnlyOwner (sender_of r) st s.stations
    → Got rand r s (ask_station now rand r st s)
unfolding ask_station
ask_station-Got now rand r st s own =
    elim (Bool-cases (
      not (is_empty (trim_space r.claimed))
      && not (text_eq (trim_space r.claimed) st.station_id))) [
        | inl e ↦ rw (e, ask_station) (λ a h. cc)
        | inr e ↦
            elim (Option-cases (
              enqueue now rand st.station_id (sender_of r) (first_non_empty r.body_values)
                (codes "whatsapp") s)) [
                  | inl f ↦ rw (e, ask_station, f) (λ a h. cc)
                  | inr ((m, s'), f) ↦
                      let (id, asked) = subst (Puts rand st.station_id) f (
                        enqueue-Puts now rand st.station_id (sender_of r)
                          (first_non_empty r.body_values) (codes "whatsapp") s) in
                      rw (e, ask_station, f)
                        (st, own, claim_checked (trim_space r.claimed) st.station_id e, id, asked)
                ]
      ]

route_question-Got :
    (now : ℕ) (rand : Option Text) (r : Inbound) (s : Server)
    → Got rand r s (route_question now rand r s)
unfolding route_question
route_question-Got now rand r s = elim (Option-cases (station_for_number (sender_of r) s)) [
  | inl e ↦ rw (e, route_question) (λ a h. cc)
  | inr (st, e) ↦
      rw (e, route_question)
        (ask_station-Got now rand r st s (station_for_number-IsOnlyOwner (sender_of r) s st e))
]

-- The gateway's token is right wherever a question is queued.
abbrev HasToken : Inbound → Server → Received × Server → Type 0
HasToken r s (done t, s') = Unit
HasToken r s (queued m, s') = (is_empty s.webhook_token ≡ false) × (r.token ≡ s.webhook_token)

HasToken-any :
    (r : Inbound) (s : Server) (x : Received × Server)
    → is_empty s.webhook_token ≡ false
    → r.token ≡ s.webhook_token
    → HasToken r s x
HasToken-any r s (done t, s') e f = tt
HasToken-any r s (queued m, s') e f = (e, f)

receive-Got :
    (now : ℕ) (rand : Option Text) (r : Inbound) (s : Server)
    → HasToken r s (receive now rand r s) × Got rand r s (receive now rand r s)
unfolding receive
receive-Got now rand r s = elim (Bool-cases (is_empty s.webhook_token)) [
  | inl e ↦ simp e (tt, λ a h. cc)
  | inr e ↦ elim (Bool-cases (text_eq r.token s.webhook_token)) [
    | inr f ↦ simp (e, f) (tt, λ a h. cc)
    | inl f ↦ elim (Bool-cases (allow now (normalize (sender_of r)) s.limiter).0) [
      | inr g ↦ simp (e, f, g) (tt, λ a h. cc)
      | inl g ↦
          simp (e, f, g)
            (
              HasToken-any r s _ e ((text_eq_iff r.token s.webhook_token).0 f),
              route_question-Got now rand r _,
            )
    ]
  ]
]

-- A question that later has an answer was answered by its station.
Later-said :
    (station_id id : Text) (es : List Event) (s : Server) (o : Option Message) (m : Message)
    → Asked station_id o
    → is_empty station_id ≡ false
    → answered m ≡ true
    → Later id es s o (some m)
    → SaidBy station_id id m.answer es s
Later-said station_id id es s none m asked full done_now l = absurd l
Later-said station_id id es s (some x) m (st, open_yet) full done_now (same, inl e) =
    absurd (ground (arith, ap answered e))
Later-said station_id id es s (some x) m (st, open_yet) full done_now (same, inr by) =
    subst (λ i. SaidBy i id m.answer es s) st (by (ap is_empty st ∙ full))

-- The end of the webhook that says an answer.
abbrev Ends : List (List Event) → Inbound → Option Text → Server → Server → Twiml × Server → Type 0
Ends rounds r rand s t (said a, s') =
    (is_empty s.webhook_token ≡ false)
    × (r.token ≡ s.webhook_token)
    × ((st : Station) × IsOnlyOwner (sender_of r) st s.stations
        × (is_empty (trim_space r.claimed) ≡ false → trim_space r.claimed ≡ st.station_id)
        × ((id : Text) × (rand ≡ some id) × SaidBy st.station_id id a (all_of rounds) t))
Ends rounds r rand s t (x, s') = Unit

module _ (rounds : List (List Event)) (r : Inbound) (rand : Option Text) (s : Server)
    (named : (k : Text) (st : Station)
      → Contains (k, st) s.stations
      → is_empty st.station_id ≡ false)
    (unused : (id : Text) → rand ≡ some id → Avoids id (all_of rounds)) where
  say-Ends :
      (m : Message) (t : Server) (w : Option Message × Bool × Server)
      → HasToken r s (queued m, t)
      → Got rand r s (queued m, t)
      → Sees m.id rounds t w
      → Ends rounds r rand s t (say w)
  say-Ends m t (some x, true, s') token (st, own, claim, id, asked) (seen, rest, e, l, a) = (
    token.0,
    token.1,
    (
      st,
      own,
      claim,
      (
        m.id,
        id,
        subst (λ es. SaidBy st.station_id m.id x.answer es t) (sym e)
            (SaidBy-append st.station_id m.id x.answer seen rest t (
              Later-said st.station_id m.id seen t (lookup m.id t.messages) x asked
                (named own.key st own.registered) a
                (subst (Later m.id seen t (lookup m.id t.messages)) l (
                  run-Later m.id seen t
                    (Avoids-front m.id seen rest (subst (Avoids m.id) e (unused m.id id))))))),
      ),
    ),
  )
  say-Ends m t (some x, false, s') token got w = tt
  say-Ends m t (none, b, s') token got w = tt

  await-Ends :
      (x : Received × Server)
      → HasToken r s x
      → Got rand r s x
      → Ends rounds r rand s x.1 (await rounds x)
  unfolding await
  await-Ends (queued m, t) token got =
      say-Ends m t (wait_for_answer m.id rounds t) token got (wait_for_answer-Sees m.id rounds t)
  await-Ends (done (said a), t) token got = absurd (got a refl)
  await-Ends (done (http_error n), t) token got = tt
  await-Ends (done too_many, t) token got = tt
  await-Ends (done not_registered, t) token got = tt
  await-Ends (done unreachable, t) token got = tt
  await-Ends (done offline, t) token got = tt

  -- Whoever is told an answer by the webhook writes from a number that exactly one active station has
  -- registered, through a gateway with the right token, and the answer was posted with that station's
  -- own key to the question that he asked, whatever else happened while the webhook waited. A station
  -- that the request names is that one. Stations have ids, and no other question gets the random id.
  pub webhook_private :
      (now : ℕ) (a : Text) (s' : Server)
      → handle_whatsapp_webhook now rand r rounds s ≡ (said a, s')
      → (is_empty s.webhook_token ≡ false)
        × (r.token ≡ s.webhook_token)
        × ((st : Station) × IsOnlyOwner (sender_of r) st s.stations
            × (is_empty (trim_space r.claimed) ≡ false → trim_space r.claimed ≡ st.station_id)
            × ((id : Text) × (rand ≡ some id)
                × SaidBy st.station_id id a (all_of rounds) (receive now rand r s).1))
  unfolding handle_whatsapp_webhook
  webhook_private now a s' e =
      subst (Ends rounds r rand s (receive now rand r s).1) e (
        await-Ends (receive now rand r s) (receive-Got now rand r s).0 (receive-Got now rand r s).1)

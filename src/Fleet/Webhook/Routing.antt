-- ===== src/Fleet/Webhook/Routing.antt =====
-- internal/cloudctl/messages.go, stationForNumber and the first half of the webhook: which station a
-- message from a phone number reaches.
use fuelmind.Base.{
  ℕ, ap, codes, ◌≡◌, refl, true, false, not, ◌&&◌, Option, none, some, List, [], ◌∷◌, inl, inr,
  arith, Bool-cases, Option-cases, Text, text_eq, text_eq_iff, is_empty, trim_space, Contains,
}
use mathlib.Core.Path.{subst, sym}
use fuelmind.Limits.{RateLimiter, allow}
use fuelmind.Phone.{normalize}
use fuelmind.Fleet.{Server, Station, active}
use fuelmind.Fleet.Desk.{enqueue}
use fuelmind.Fleet.Desk.Asking.{AfterEnqueue}
use fuelmind.Fleet.Webhook.{
  owns_number, answers_to, search_stations, station_for_number, sender_of, Inbound, ask_station,
  route_question, receive, first_non_empty,
}

-- The active station that has registered the number, and no other active one has.
pub record IsOnlyOwner (from : Text) (st : Station) (stations : List (Text × Station))
    : Type 0 where
  pub key : Text
  pub registered : Contains (key, st) stations
  pub is_active : st.status ≡ active
  pub owns : owns_number from st ≡ true
  pub only :
      (k : Text) (x : Station)
      → Contains (k, x) stations
      → x.status ≡ active
      → owns_number from x ≡ true
      → x ≡ st

answers_split :
    (from : Text) (st : Station)
    → answers_to from st ≡ true
    → (st.status ≡ active) × (owns_number from st ≡ true)
answers_split from st e = ((text_eq_iff st.status active).0 (ground arith), ground arith)

answers_join :
    (from : Text) (st : Station)
    → st.status ≡ active
    → owns_number from st ≡ true
    → answers_to from st ≡ true
answers_join from st e f = ground (arith, (text_eq_iff st.status active).1 e)

-- Where one station is found already: no other answers to the number.
abbrev Sole : Text → List (Text × Station) → Station → Option Station → Type 0
Sole from ss c none = Unit
Sole from ss c (some st) =
    (st ≡ c) × ((k : Text) (x : Station) → Contains (k, x) ss → answers_to from x ≡ true → x ≡ c)

Sole-skip :
    (from k : Text) (st c : Station) (ss : List (Text × Station)) (o : Option Station)
    → answers_to from st ≡ false
    → Sole from ss c o
    → Sole from ((k, st) ∷ ss) c o
Sole-skip from k st c ss none e h = tt
Sole-skip from k st c ss (some x) e h = (
  h.0,
  λ j y m f. elim m [
    | inl q ↦ absurd (ground (arith, ap (λ p. answers_to from p.1) q))
    | inr n ↦ h.1 j y n f
  ],
)

search-Sole :
    (from : Text) (ss : List (Text × Station)) (c : Station)
    → Sole from ss c (search_stations from ss (some c))
unfolding search_stations
search-Sole from [] c = (refl, λ k x m f. absurd m)
search-Sole from ((k, st) ∷ ss) c = elim (Bool-cases (answers_to from st)) [
  | inl e ↦ rw e tt
  | inr e ↦ rw e (Sole-skip from k st c ss _ e (search-Sole from ss c))
]

abbrev Only : Text → List (Text × Station) → Option Station → Type 0
Only from ss none = Unit
Only from ss (some st) = IsOnlyOwner from st ss

Only-skip :
    (from k : Text) (st : Station) (ss : List (Text × Station)) (o : Option Station)
    → answers_to from st ≡ false
    → Only from ss o
    → Only from ((k, st) ∷ ss) o
Only-skip from k st ss none e h = tt
Only-skip from k st ss (some x) e h = record {
  key = h.key;
  registered = inr h.registered;
  is_active = h.is_active;
  owns = h.owns;
  only = λ j y m f g. elim m [
    | inl q ↦ absurd (ground (arith, ap (λ p. answers_to from p.1) q, answers_join from y f g))
    | inr n ↦ h.only j y n f g
  ];
}

Only-take :
    (from k : Text) (st : Station) (ss : List (Text × Station)) (o : Option Station)
    → answers_to from st ≡ true
    → Sole from ss st o
    → Only from ((k, st) ∷ ss) o
Only-take from k st ss none e h = tt
Only-take from k st ss (some x) e h =
    subst (λ y. IsOnlyOwner from y ((k, st) ∷ ss)) (sym h.0)
      (record {
        key = k;
        registered = inl refl;
        is_active = (answers_split from st e).0;
        owns = (answers_split from st e).1;
        only = λ j y m f g. elim m [
          | inl q ↦ ap (λ p. p.1) q
          | inr n ↦ h.1 j y n (answers_join from y f g)
        ];
      })

search-Only :
    (from : Text) (ss : List (Text × Station)) → Only from ss (search_stations from ss none)
unfolding search_stations
search-Only from [] = tt
search-Only from ((k, st) ∷ ss) = elim (Bool-cases (answers_to from st)) [
  | inl e ↦ rw e (Only-take from k st ss _ e (search-Sole from ss st))
  | inr e ↦ rw e (Only-skip from k st ss _ e (search-Only from ss))
]

pub station_for_number-IsOnlyOwner :
    (from : Text) (s : Server) (st : Station)
    → station_for_number from s ≡ some st
    → IsOnlyOwner from st s.stations
unfolding station_for_number
station_for_number-IsOnlyOwner from s st e = elim (Bool-cases (is_empty (trim_space from))) [
  | inl f ↦ absurd (ground arith)
  | inr f ↦
      subst (Only from s.stations)
        (let g : search_stations from s.stations none ≡ some st = ground arith in g)
        (search-Only from s.stations)
]

module _ (P : Server → Type 0) (now : ℕ) (rand : Option Text) (r : Inbound) where
  -- Whatever is queued from the state `s`, what results is as `P` says.
  abbrev Queues : Server → Type 0
  Queues s =
      (station_id sender text channel : Text)
      → AfterEnqueue P (enqueue now rand station_id sender text channel s)

  ask_station_keeps :
      (st : Station) (s : Server) → P s → Queues s → P (ask_station now rand r st s).1
  unfolding ask_station
  ask_station_keeps st s h k =
      elim (Bool-cases (
        not (is_empty (trim_space r.claimed))
        && not (text_eq (trim_space r.claimed) st.station_id))) [
          | inl e ↦ rw (e, ask_station) h
          | inr e ↦
              elim (Option-cases (
                enqueue now rand st.station_id (sender_of r) (first_non_empty r.body_values)
                  (codes "whatsapp") s)) [
                    | inl f ↦ rw (e, ask_station, f) h
                    | inr ((m, s'), f) ↦
                        rw (e, ask_station, f)
                          (subst (AfterEnqueue P) f (
                            k st.station_id (sender_of r) (first_non_empty r.body_values)
                              (codes "whatsapp")))
                  ]
        ]

  route_question_keeps : (s : Server) → P s → Queues s → P (route_question now rand r s).1
  unfolding route_question
  route_question_keeps s h k = elim (Option-cases (station_for_number (sender_of r) s)) [
    | inl e ↦ rw (e, route_question) h
    | inr (st, e) ↦ rw (e, route_question) (ask_station_keeps st s h k)
  ]

  pub receive_keeps :
      (s : Server)
      → P s
      → ((l : RateLimiter) → P (record s { limiter = l }))
      → ((l : RateLimiter) → Queues (record s { limiter = l }))
      → P (receive now rand r s).1
  unfolding receive
  receive_keeps s h hl k = elim (Bool-cases (is_empty s.webhook_token)) [
    | inl e ↦ simp e h
    | inr e ↦ elim (Bool-cases (text_eq r.token s.webhook_token)) [
      | inr f ↦ simp (e, f) h
      | inl f ↦ elim (Bool-cases (allow now (normalize (sender_of r)) s.limiter).0) [
        | inr g ↦ simp (e, f, g) (hl _)
        | inl g ↦ simp (e, f, g) (route_question_keeps _ (hl _) (k _))
      ]
    ]
  ]

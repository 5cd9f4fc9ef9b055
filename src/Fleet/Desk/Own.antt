-- ===== src/Fleet/Desk/Own.antt =====
-- internal/cloudctl: what the key of a station is good for: its own questions and no others.
use fuelmind.Base.{
  ◌≡◌, refl, false, not, ◌&&◌, Option, none, some, List, [], ◌∷◌, inl, inr, Bool-cases,
  Option-cases, arith, Text, text_eq, text_eq_iff, text_eq_refl, is_empty, All, Contains, lookup,
}
use mathlib.Core.Path.{subst, sym}
use fuelmind.Fleet.{
  Server, Station, Message, Reply, pending, active, bearer, Auth, Auth-cases, granted, denied,
  station_for, station_of_key, admit_station,
}
use fuelmind.Fleet.Desk.{answered, pending_of, pending_messages, handle_pending_messages}

-- The request carries the key of the station `id`, which is registered and active.
pub record HoldsKey (authorization id : Text) (st : Station) (s : Server) : Type 0 where
  pub key : Text
  pub given : bearer authorization ≡ some key
  pub owned : lookup key s.keys ≡ some id
  pub known : lookup id s.stations ≡ some st
  pub is_active : st.status ≡ active

abbrev Grants : Text → Text → Server → Auth → Type 0
Grants authorization claimed s (denied code) = Unit
Grants authorization claimed s (granted st) =
    (id : Text) × HoldsKey authorization id st s × (is_empty claimed ≡ false → claimed ≡ id)

admit_station-Grants :
    (authorization claimed key id : Text) (s : Server)
    → bearer authorization ≡ some key
    → lookup key s.keys ≡ some id
    → (is_empty claimed ≡ false → claimed ≡ id)
    → Grants authorization claimed s (admit_station id s)
unfolding admit_station
admit_station-Grants authorization claimed key id s b k c =
    elim (Option-cases (lookup id s.stations)) [
      | inl e ↦ rw (e, admit_station) tt
      | inr (st, e) ↦ elim (Bool-cases (text_eq st.status active)) [
        | inr f ↦ rw (e, admit_station, f) tt
        | inl f ↦
            rw (e, admit_station, f)
              (
                id,
                record {
                  key = key;
                  given = b;
                  owned = k;
                  known = e;
                  is_active = (text_eq_iff st.status active).0 f;
                },
                c,
              )
      ]
    ]

pub claim_checked :
    (claimed id : Text)
    → (not (is_empty claimed) && not (text_eq claimed id)) ≡ false
    → is_empty claimed ≡ false
    → claimed ≡ id
claim_checked claimed id e f = (text_eq_iff claimed id).0 (ground arith)

station_of_key-Grants :
    (authorization claimed key : Text) (s : Server)
    → bearer authorization ≡ some key
    → Grants authorization claimed s (station_of_key key claimed s)
unfolding station_of_key
station_of_key-Grants authorization claimed key s b = elim (Option-cases (lookup key s.keys)) [
  | inl e ↦ rw (e, station_of_key) tt
  | inr (id, e) ↦ elim (Bool-cases (not (is_empty claimed) && not (text_eq claimed id))) [
    | inl f ↦ rw (e, station_of_key, f) tt
    | inr f ↦
        rw (e, station_of_key, f)
          (admit_station-Grants authorization claimed key id s b e (claim_checked claimed id f))
  ]
]

station_for-Grants :
    (authorization claimed : Text) (s : Server)
    → Grants authorization claimed s (station_for authorization claimed s)
unfolding station_for
station_for-Grants authorization claimed s = elim (Option-cases (bearer authorization)) [
  | inl e ↦ rw (e, station_for) tt
  | inr (key, e) ↦ rw (e, station_for) (station_of_key-Grants authorization claimed key s e)
]

-- Whoever passes for a station holds the key of an active station, and of the one that he claims to be.
pub station_for-HoldsKey :
    (authorization claimed : Text) (s : Server) (st : Station)
    → station_for authorization claimed s ≡ granted st
    → is_empty claimed ≡ false
    → HoldsKey authorization claimed st s
station_for-HoldsKey authorization claimed s st e f =
    let (id, h, c) =
      subst (Grants authorization claimed s) e (station_for-Grants authorization claimed s) in
    subst (λ i. HoldsKey authorization i st s) (sym (c f)) h

-- A question that waits for the station.
abbrev pub WaitsFor : Text → Message → Type 0
WaitsFor station_id m = (m.station_id ≡ station_id) × (answered m ≡ false)

pending_of-All :
    (station_id : Text) (o : Option Message) (rest : List Message)
    → All (WaitsFor station_id) rest
    → All (WaitsFor station_id) (pending_of station_id o rest)
unfolding pending_of
pending_of-All station_id none rest h = h
pending_of-All station_id (some m) rest h = elim (Bool-cases (text_eq m.station_id station_id)) [
  | inr e ↦ rw e h
  | inl e ↦ elim (Bool-cases (answered m)) [
    | inl f ↦ rw (e, f) h
    | inr f ↦ rw (e, f) (((text_eq_iff m.station_id station_id).0 e, f), h)
  ]
]

pending_messages-All :
    (station_id : Text) (ids : List Text) (s : Server)
    → All (WaitsFor station_id) (pending_messages station_id ids s)
unfolding pending_messages
pending_messages-All station_id [] s = tt
pending_messages-All station_id (id ∷ ids) s =
    pending_of-All station_id (lookup id s.messages) _ (pending_messages-All station_id ids s)

pending_of-new :
    (station_id : Text) (m : Message) (o : Option Message) (rest : List Message)
    → o ≡ some m
    → WaitsFor station_id m
    → Contains m (pending_of station_id o rest)
unfolding pending_of
pending_of-new station_id m o rest e w =
    rw (e, pending_of, w.0, text_eq_refl station_id, w.1) (inl refl)

pending_of-keeps :
    (station_id : Text) (m : Message) (o : Option Message) (rest : List Message)
    → Contains m rest
    → Contains m (pending_of station_id o rest)
unfolding pending_of
pending_of-keeps station_id m none rest h = h
pending_of-keeps station_id m (some x) rest h =
    elim (Bool-cases (text_eq x.station_id station_id && not (answered x))) [
      | inl e ↦ rw e (inr h)
      | inr e ↦ rw e h
    ]

pending_messages_complete :
    (station_id id : Text) (m : Message) (ids : List Text) (s : Server)
    → Contains id ids
    → lookup id s.messages ≡ some m
    → WaitsFor station_id m
    → Contains m (pending_messages station_id ids s)
unfolding pending_messages
pending_messages_complete station_id id m (i ∷ ids) s (inl e) l w =
    pending_of-new station_id m _ _ (subst (λ j. lookup j s.messages ≡ some m) e l) w
pending_messages_complete station_id id m (i ∷ ids) s (inr h) l w =
    pending_of-keeps station_id m _ _ (pending_messages_complete station_id id m ids s h l w)
pending_messages_complete station_id id m [] s h l w = absurd h

-- The answers of handlePendingMessages.
abbrev Shown : Text → Text → Server → Reply → Type 0
Shown authorization station_id s (pending ms) =
    ((st : Station) × HoldsKey authorization station_id st s)
    × All (WaitsFor station_id) ms
    × ((id : Text) (m : Message)
        → Contains id s.order
        → lookup id s.messages ≡ some m
        → WaitsFor station_id m
        → Contains m ms)
Shown authorization station_id s answer = Unit

handle_pending_messages-Shown :
    (authorization station_id : Text) (s : Server)
    → is_empty station_id ≡ false
    → Shown authorization station_id s (handle_pending_messages authorization station_id s)
unfolding handle_pending_messages
handle_pending_messages-Shown authorization station_id s full =
    elim (Auth-cases (station_for authorization station_id s)) [
      | inl (code, e) ↦ rw (e, handle_pending_messages) tt
      | inr (st, e) ↦
          rw (e, handle_pending_messages)
            (
              (st, station_for-HoldsKey authorization station_id s st e full),
              pending_messages-All station_id s.order s,
              λ id m h l w. pending_messages_complete station_id id m s.order s h l w,
            )
    ]

-- A poll for the questions of a station is answered to the holder of that station's key only, with
-- questions to that station that are not answered, and with every one of them that is in the queue.
pub poll_exact :
    (authorization station_id : Text) (s : Server) (ms : List Message)
    → is_empty station_id ≡ false
    → handle_pending_messages authorization station_id s ≡ pending ms
    → ((st : Station) × HoldsKey authorization station_id st s)
      × All (WaitsFor station_id) ms
      × ((id : Text) (m : Message)
          → Contains id s.order
          → lookup id s.messages ≡ some m
          → WaitsFor station_id m
          → Contains m ms)
poll_exact authorization station_id s ms full e =
    subst (Shown authorization station_id s) e
      (handle_pending_messages-Shown authorization station_id s full)

-- ===== src/Fleet/Webhook/Waiting.antt =====
-- internal/cloudctl/messages.go, WaitForAnswer: where an answer comes from that the wait ends with.
use fuelmind.Base.{
  ◌≡◌, ◌≢◌, refl, ap, ◌∙◌, Bool, true, false, Option, none, some, List, [], ◌∷◌, ◌++◌, ◌⊎◌, inl,
  inr, Bool-cases, Option-cases, Text, is_empty, All, lookup,
}
use mathlib.Core.Path.{subst, sym}
use mathlib.Core.List.{append_assoc}
use fuelmind.Fleet.{Server, Message}
use fuelmind.Fleet.Desk.{answered}
use fuelmind.Fleet.Webhook.{Event, step, run, wait_for_answer}
use fuelmind.Fleet.Webhook.Events.{minted, Answers, Changed, step-Changed}

-- Somewhere in the run the answer `a` is posted with the key of the station.
abbrev pub SaidBy : Text → Text → Text → List Event → Server → Type 0
SaidBy station_id id a [] s = ⊥
SaidBy station_id id a (e ∷ es) s =
    Answers station_id id a e s ⊎ SaidBy station_id id a es (step e s)

-- No request of the run uses the id anew.
abbrev pub Avoids : Text → List Event → Type 0
Avoids id = All (λ e. minted e ≢ some id)

-- From the question `o`, what is found later.
abbrev pub Later : Text → List Event → Server → Option Message → Option Message → Type 0
Later id es s o none = Unit
Later id es s none (some m) = ⊥
Later id es s (some m) (some m') =
    (m'.station_id ≡ m.station_id)
    × ((m' ≡ m) ⊎ (is_empty m.station_id ≡ false → SaidBy m.station_id id m'.answer es s))

Later-step :
    (id : Text) (e : Event) (es : List Event) (s : Server) (o p q : Option Message)
    → Changed id e s o p
    → Later id es (step e s) p q
    → Later id (e ∷ es) s o q
Later-step id e es s o p none c l = tt
Later-step id e es s none none (some m) c l = absurd l
Later-step id e es s none (some x) (some m) c l = absurd c
Later-step id e es s (some x) none (some m) c l = absurd l
Later-step id e es s (some x) (some y) (some m) (inl c) (st, inl l) =
    (st ∙ ap (λ z. z.station_id) c, inl (l ∙ c))
Later-step id e es s (some x) (some y) (some m) (inl c) (st, inr l) =
    subst (λ z. Later id (e ∷ es) s (some z) (some m)) c (st, inr (λ f. inr (l f)))
Later-step id e es s (some x) (some y) (some m) (inr (c, by)) (st, inl l) =
    (st ∙ c, inr (λ f. inl (subst (λ z. Answers x.station_id id z.answer e s) (sym l) (by f))))
Later-step id e es s (some x) (some y) (some m) (inr (c, by)) (st, inr l) = (
  st ∙ c,
  inr (λ f. inr (subst (λ i. SaidBy i id m.answer es (step e s)) c (l (ap is_empty c ∙ f)))),
)

Later-self : (id : Text) (s : Server) (o : Option Message) → Later id [] s o o
Later-self id s none = tt
Later-self id s (some m) = (refl, inl refl)

pub run-Later :
    (id : Text) (es : List Event) (s : Server)
    → Avoids id es
    → Later id es s (lookup id s.messages) (lookup id (run es s).messages)
unfolding run
run-Later id [] s h = Later-self id s (lookup id s.messages)
run-Later id (e ∷ es) s h =
    Later-step id e es s (lookup id s.messages) (lookup id (step e s).messages) _
      (step-Changed id e s h.0) (run-Later id es (step e s) h.1)

-- The events of all rounds of the wait.
abbrev pub all_of : List (List Event) → List Event
all_of [] = []
all_of (es ∷ rounds) = es ++ all_of rounds

run-append : (xs ys : List Event) (s : Server) → run (xs ++ ys) s ≡ run ys (run xs s)
unfolding run
run-append [] ys s = refl
run-append (e ∷ xs) ys s = run-append xs ys (step e s)

pub SaidBy-append :
    (station_id id a : Text) (xs ys : List Event) (s : Server)
    → SaidBy station_id id a xs s
    → SaidBy station_id id a (xs ++ ys) s
SaidBy-append station_id id a [] ys s h = absurd h
SaidBy-append station_id id a (e ∷ xs) ys s (inl h) = inl h
SaidBy-append station_id id a (e ∷ xs) ys s (inr h) =
    inr (SaidBy-append station_id id a xs ys (step e s) h)

pub Avoids-front : (id : Text) (xs ys : List Event) → Avoids id (xs ++ ys) → Avoids id xs
Avoids-front id [] ys h = tt
Avoids-front id (e ∷ xs) ys h = (h.0, Avoids-front id xs ys h.1)

-- An answer that the wait ends with is in the store after some of the events.
abbrev pub Sees : Text → List (List Event) → Server → Option Message × Bool × Server → Type 0
Sees id rounds s (some m, true, s') =
    (seen : List Event) × (rest : List Event) × (all_of rounds ≡ seen ++ rest)
    × (lookup id (run seen s).messages ≡ some m)
    × (answered m ≡ true)
Sees id rounds s (some m, false, s') = Unit
Sees id rounds s (none, b, s') = Unit

Sees-later :
    (id : Text) (es : List Event) (rounds : List (List Event)) (s : Server)
    (w : Option Message × Bool × Server)
    → Sees id rounds (run es s) w
    → Sees id (es ∷ rounds) s w
Sees-later id es rounds s (some m, true, s') (seen, rest, e, l, a) = (
  es ++ seen,
  rest,
  ap (λ xs. es ++ xs) e ∙ sym (append_assoc es seen rest),
  ap (λ t. lookup id t.messages) (run-append es seen s) ∙ l,
  a,
)
Sees-later id es rounds s (some m, false, s') h = tt
Sees-later id es rounds s (none, b, s') h = tt

pub wait_for_answer-Sees :
    (id : Text) (rounds : List (List Event)) (s : Server)
    → Sees id rounds s (wait_for_answer id rounds s)
unfolding wait_for_answer
wait_for_answer-Sees id [] s = elim (Option-cases (lookup id s.messages)) [
  | inl e ↦ rw (e, wait_for_answer) tt
  | inr (m, e) ↦ rw (e, wait_for_answer) tt
]
wait_for_answer-Sees id (es ∷ rounds) s = elim (Option-cases (lookup id (run es s).messages)) [
  | inl e ↦
      rw (e, wait_for_answer)
        (Sees-later id es rounds s _ (wait_for_answer-Sees id rounds (run es s)))
  | inr (m, e) ↦ elim (Bool-cases (answered m)) [
    | inl f ↦ rw (e, wait_for_answer, f) (es, all_of rounds, refl, e, f)
    | inr f ↦
        rw (e, wait_for_answer, f)
          (Sees-later id es rounds s _ (wait_for_answer-Sees id rounds (run es s)))
  ]
]

-- ===== src/Relay/Trail.antt =====
-- internal/relay/relay.go: the trail of what was answered.
use fuelmind.Base.{
  ℕ, zero, suc, ◌≡◌, ◌≤◌, refl, ap, Bool, true, false, Option, some, List, [], ◌∷◌, Text, text_eq,
  any-append, text_eq_refl, if◌then◌else◌, ◌∙◌, All, take, arith, inl, inr, Bool-cases,
}
use mathlib.Core.Path.{subst, sym}
use fuelmind.Relay.{
  Waiting, TrailRow, Tick, Answerer, has_row, record_remote_question, row_of, answer_each, tick,
}

-- The trail with the rows of the questions, in their order.
abbrev pub with_rows : Answerer → List Waiting → List TrailRow → List TrailRow
with_rows answerer [] rows = rows
with_rows answerer (m ∷ ms) rows =
    with_rows answerer ms (record_remote_question (row_of answerer m) rows)

record-has_row :
    (id : Text) (row : TrailRow) (rows : List TrailRow)
    → has_row id rows ≡ true
    → has_row id (record_remote_question row rows) ≡ true
unfolding record_remote_question
record-has_row id row rows h = elim (Bool-cases (has_row row.message_id rows)) [
  | inl e ↦ rw e h
  | inr e ↦ rw (e, any-append (λ r. text_eq r.message_id id) rows (row ∷ []), h) refl
]

recorded-has_row :
    (row : TrailRow) (rows : List TrailRow)
    → has_row row.message_id (record_remote_question row rows) ≡ true
unfolding record_remote_question
recorded-has_row row rows = elim (Bool-cases (has_row row.message_id rows)) [
  | inl e ↦ rw (e, e) refl
  | inr e ↦
      rw
        (
          e,
          any-append (λ r. text_eq r.message_id row.message_id) rows (row ∷ []),
          e,
          text_eq_refl row.message_id,
        )
        refl
]

with_rows-has_row :
    (answerer : Answerer) (id : Text) (ms : List Waiting) (rows : List TrailRow)
    → has_row id rows ≡ true
    → has_row id (with_rows answerer ms rows) ≡ true
with_rows-has_row answerer id [] rows h = h
with_rows-has_row answerer id (m ∷ ms) rows h =
    with_rows-has_row answerer id ms _ (record-has_row id (row_of answerer m) rows h)

All-has_row :
    (answerer : Answerer) (ms : List Waiting) (rows : List TrailRow)
    → All (λ m. has_row m.id (with_rows answerer ms rows) ≡ true) ms
unfolding row_of
All-has_row answerer [] rows = tt
All-has_row answerer (m ∷ ms) rows = (
  with_rows-has_row answerer m.id ms _ (recorded-has_row (row_of answerer m) rows),
  All-has_row answerer ms _,
)

-- The control plane after it was sent the answers to the questions, each under its own id.
abbrev pub after_replies :
    {W : Type 0} → Answerer → (Text → Text → W → Bool × W) → List Waiting → W → W
after_replies answerer reply [] w = w
after_replies answerer reply (m ∷ ms) w =
    after_replies answerer reply ms (reply m.id (answerer m.text).0 w).1

-- Of the questions, the first ones were answered, at most `left`, these are what the trail has more than
-- `rows`, and without an error there were no others to answer. The control plane was sent just these
-- answers and, after an error, the one that it refused.
pub record IsTrail {W : Type 0} (answerer : Answerer) (reply : Text → Text → W → Bool × W)
    (left : ℕ) (ms : List Waiting) (w : W) (rows : List TrailRow) (t : Tick W) : Type 0 where
  pub bounded : t.answered ≤ left
  pub trail : t.rows ≡ with_rows answerer (take t.answered ms) rows
  pub complete : t.is_ok ≡ true → take t.answered ms ≡ take left ms
  pub posted :
      t.cloud
      ≡ after_replies answerer reply (take (if t.is_ok then t.answered else suc t.answered) ms) w

one_more :
    {W : Type 0} (ok : Bool) (n : ℕ) (answerer : Answerer) (reply : Text → Text → W → Bool × W)
    (m : Waiting) (ms : List Waiting) (w : W)
    → after_replies answerer reply
        (take (if ok then n else suc n) ms)
        (reply m.id (answerer m.text).0 w).1
      ≡ after_replies answerer reply (take (if ok then suc n else suc (suc n)) (m ∷ ms)) w
one_more true n answerer reply m ms w = refl
one_more false n answerer reply m ms w = refl

answer_each-IsTrail :
    {W : Type 0} (answerer : Answerer) (reply : Text → Text → W → Bool × W) (left : ℕ)
    (ms : List Waiting) (w : W) (rows : List TrailRow)
    → IsTrail answerer reply left ms w rows (answer_each answerer reply left ms w rows)
unfolding answer_each
answer_each-IsTrail answerer reply zero [] w rows = record {
  bounded = omega arith;
  trail = refl;
  complete = λ h. refl;
  posted = refl;
}
answer_each-IsTrail answerer reply (suc left) [] w rows = record {
  bounded = omega arith;
  trail = refl;
  complete = λ h. refl;
  posted = refl;
}
answer_each-IsTrail answerer reply zero (m ∷ ms) w rows = record {
  bounded = omega arith;
  trail = refl;
  complete = λ h. refl;
  posted = refl;
}
answer_each-IsTrail answerer reply (suc left) (m ∷ ms) w rows =
    elim (Bool-cases (reply m.id (answerer m.text).0 w).0) [
      | inl e ↦
          let i =
            answer_each-IsTrail answerer reply left ms (reply m.id (answerer m.text).0 w).1
              (record_remote_question (row_of answerer m) rows) in
          rw e (record {
            bounded = omega (arith, i.bounded);
            trail = i.trail;
            complete = λ h. ap (λ x. m ∷ x) (i.complete h);
            posted = i.posted ∙ one_more _ _ answerer reply m ms w;
          })
      | inr e ↦ rw e (record {
        bounded = omega arith;
        trail = refl;
        complete = λ h. absurd (ground arith);
        posted = refl;
      })
    ]

-- Where the poll gives the waiting questions, a tick answers the first of them, at most ten, and without
-- an error no fewer. The control plane is sent just their answers, each under the id of its question, and
-- after an error the one that it refused; what is added to the trail are the rows of just those that were
-- answered, in their order, and each of them is in the trail.
pub tick-IsTrail :
    {W : Type 0} (answerer : Answerer) (reply : Text → Text → W → Bool × W)
    (pending : W → Option (List Waiting) × W) (w : W) (ms : List Waiting) (rows : List TrailRow)
    → (pending w).0 ≡ some ms
    → IsTrail answerer reply 10 ms (pending w).1 rows (tick answerer reply pending w rows)
      × All
          (λ m. has_row m.id (tick answerer reply pending w rows).rows ≡ true)
          (take (tick answerer reply pending w rows).answered ms)
unfolding tick
tick-IsTrail answerer reply pending w ms rows e =
    let i = answer_each-IsTrail answerer reply 10 ms (pending w).1 rows in
    let n = (answer_each answerer reply 10 ms (pending w).1 rows).answered in
    rw (tick, e)
      (
        i,
        subst (λ t. All (λ m. has_row m.id t ≡ true) (take n ms)) (sym i.trail)
            (All-has_row answerer (take n ms) rows),
      )

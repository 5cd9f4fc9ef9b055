-- ===== src/Relay.antt =====
-- internal/relay/relay.go: the questions that wait at the control plane, and internal/storage/entry.go,
-- RecordRemoteQuestion. What the control plane is and does, `W`, and the answerer are arguments.
pub mod Trail
pub mod Tests
use fuelmind.Base.{
  ℕ, zero, suc, ◌≡◌, Bool, true, false, Option, none, some, List, [], ◌∷◌, ◌++◌, Text, codes,
  text_eq, to_lower, any, if◌then◌else◌,
}

-- A question that waits for the station.
pub record Waiting : Type 0 where
  pub id : Text
  pub from : Text
  pub text : Text

-- A row of remote_questions.
pub record TrailRow : Type 0 where
  pub message_id : Text
  pub asked_by : Text
  pub question : Text
  pub answer : Text
  pub route : Text

abbrev pub max_per_poll : ℕ
max_per_poll = 10

-- Enabled, of the value of remote_ask
unfoldable pub enabled : Text → Bool
unfolding to_lower
enabled v = text_eq (to_lower v) (codes "on")

-- SetEnabled
unfoldable pub enabled_value : Bool → Text
enabled_value on = if on then codes "on" else codes "off"

abbrev pub has_row : Text → List TrailRow → Bool
has_row id rows = any (λ r. text_eq r.message_id id) rows

-- INSERT OR IGNORE, with a unique message_id
unfoldable pub record_remote_question : TrailRow → List TrailRow → List TrailRow
record_remote_question row rows = if has_row row.message_id rows then rows else rows ++ (row ∷ [])

-- What becomes of a tick: whether it ended without an error, how many questions it answered, the
-- control plane and the trail after it.
pub record Tick (W : Type 0) : Type 0 where
  pub is_ok : Bool
  pub answered : ℕ
  pub cloud : W
  pub rows : List TrailRow

-- The answer and its path, by the question.
abbrev pub Answerer : Type 0
Answerer = Text → Text × Text

unfoldable pub row_of : Answerer → Waiting → TrailRow
row_of answerer m = record {
  message_id = m.id;
  asked_by = m.from;
  question = m.text;
  answer = (answerer m.text).0;
  route = (answerer m.text).1;
}

module _ {W : Type 0} (answerer : Answerer) (reply : Text → Text → W → Bool × W) where
  abbrev count_one : Tick W → Tick W
  count_one t = record t { answered = suc t.answered }

  -- The loop of Tick, with at most `left` questions to go.
  unfoldable pub answer_each : ℕ → List Waiting → W → List TrailRow → Tick W
  unfolding record_remote_question row_of
  answer_each left [] w rows = record { is_ok = true; answered = 0; cloud = w; rows = rows }
  answer_each zero (m ∷ ms) w rows = record { is_ok = true; answered = 0; cloud = w; rows = rows }
  answer_each (suc left) (m ∷ ms) w rows =
      let (ok, v) = reply m.id (answerer m.text).0 w in
      let rest = answer_each left ms v (record_remote_question (row_of answerer m) rows) in
      if ok then count_one rest else record { is_ok = false; answered = 0; cloud = v; rows = rows }

  -- Tick; `pending` is the poll, none where it fails.
  unfoldable pub tick : (W → Option (List Waiting) × W) → W → List TrailRow → Tick W
  unfolding answer_each
  tick pending w rows =
      let (found, v) = pending w in
      elim found [
        | none ↦ record { is_ok = false; answered = 0; cloud = v; rows = rows }
        | some ms ↦ answer_each max_per_poll ms v rows
      ]

  -- A round of Run, by the value of remote_ask.
  unfoldable pub round_of_run :
      Text → (W → Option (List Waiting) × W) → W → List TrailRow → W × List TrailRow
  unfolding enabled tick
  round_of_run remote_ask pending w rows =
      let t = tick pending w rows in if enabled remote_ask then (t.cloud, t.rows) else (w, rows)

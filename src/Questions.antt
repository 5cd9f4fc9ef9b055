-- ===== src/Questions.antt =====
-- internal/messaging/inbound.go: the questions that reach the station over WhatsApp.
pub mod Silence
mod Tests
use fuelmind.Base.{
  ℕ, ◌+◌, ◌*◌, ◌≡◌, Bool, true, false, not, Option, none, some, List, [], ◌∷◌, ◌++◌, Text, codes,
  text_eq, is_empty, trim_space, to_lower, leb, if◌then◌else◌,
}
use fuelmind.Limits.{Window, find_window, set_window, is_live}
use fuelmind.Phone.{normalize}

abbrev pub inbound_burst : ℕ
inbound_burst = 12

abbrev pub inbound_window : ℕ
inbound_window = 5 * 60 * 1000000000

-- A row of the station's log of remote questions.
pub record RemoteQuestion : Type 0 where
  pub asked_by : Text
  pub question : Text
  pub answer : Text
  pub route : Text

-- The responder, the settings that it reads and the log that it writes.
pub record Inbound : Type 0 where
  pub answer_questions : Text
  pub recipient : Text
  pub recent : List Window
  pub log : List RemoteQuestion

-- AnswerQuestionsEnabled
unfoldable pub answer_questions_enabled : Inbound → Bool
answer_questions_enabled s = not (text_eq (to_lower s.answer_questions) (codes "off"))

unfoldable pub is_owner : Text → Inbound → Bool
is_owner from s =
    if is_empty (trim_space s.recipient)
    then false
    else text_eq (normalize s.recipient) (normalize from)

-- The count of a question in the window of its sender.
unfoldable pub count_question : ℕ → Text → Inbound → Option Window → Bool × Inbound
count_question now k s none =
    (true, record s { recent = set_window k (record { key = k; start = now; n = 1 }) s.recent })
count_question now k s (some w) =
    if is_live inbound_window now w
    then (
      leb (w.n + 1) inbound_burst,
      record s { recent = set_window k (record w { n = w.n + 1 }) s.recent },
    )
    else (
      true,
      record s { recent = set_window k (record { key = k; start = now; n = 1 }) s.recent },
    )

-- allow
unfoldable pub allow_question : ℕ → Text → Inbound → Bool × Inbound
unfolding count_question
allow_question now from s =
    count_question now (normalize from) s (find_window (normalize from) s.recent)

unfoldable pub record_question : Text → Text → Text → Text → Inbound → Inbound
record_question from question answer path s =
    let kept = if is_empty (trim_space answer) then codes "(no reply sent)" else answer in
    record s {
      log =
          s.log
          ++ record {
            asked_by = normalize from;
            question = question;
            answer = kept;
            route = codes "whatsapp:" ++ path;
          }
            ∷ [];
    }

abbrev pub too_many : Text
too_many = codes "That is a lot of questions at once — give me a few minutes."

abbrev pub no_answer : Text
no_answer = codes "I could not work that out just now."

-- Handle behind the rate limit; `reply` is what the answerer gives.
unfoldable pub answer_question : Text → Text → Text × Text → Bool × Inbound → Text × Inbound
unfolding record_question
answer_question from text reply (false, s) =
    (too_many, record_question from text [] (codes "rate-limited") s)
answer_question from text (answer, path) (true, s) =
    let said = if is_empty (trim_space answer) then no_answer else answer in
    (said, record_question from text said path s)

-- Handle: the reply, "" to stay silent, and the responder after it.
unfoldable pub handle : ℕ → Text → Text → Text × Text → Inbound → Text × Inbound
unfolding is_owner allow_question answer_question record_question answer_questions_enabled
handle now from text reply s =
    if not (answer_questions_enabled s)
    then ([], s)
    else if not (is_owner from s)
    then ([], record_question from text [] (codes "ignored-unknown-sender") s)
    else answer_question from text reply (allow_question now from s)

-- ===== src/Questions/Tests.antt =====
-- The owner's question, in another spelling of the owner's number.
use fuelmind.Base.{
  ◌↔◌, ◌≢◌, trim_space, ◌≡◌, refl, true, false, [], codes, text_eq, to_lower, is_empty,
}
use fuelmind.Questions.{Inbound, handle, answer_questions_enabled}
use fuelmind.Phone.{normalize}
use fuelmind.Questions.Silence.{handle_replies}

abbrev station : Inbound
station = record {
  answer_questions = codes "on";
  recipient = codes "0300 1234567";
  recent = [];
  log = [];
}

switched_on : answer_questions_enabled station ≡ true
unfolding answer_questions_enabled text_eq to_lower
switched_on = refl

handle_replies_example :
    (is_empty
        (handle 5
          (codes "+92 300 1234567")
          (codes "sales?")
          (codes "Rs 500", codes "facts")
          station).0
      ≡ false)
    ↔ ((to_lower station.answer_questions ≢ codes "off")
        × (is_empty (trim_space station.recipient) ≡ false)
        × (normalize station.recipient ≡ normalize (codes "+92 300 1234567")))
handle_replies_example =
    handle_replies 5 (codes "+92 300 1234567") (codes "sales?") (codes "Rs 500", codes "facts")
      station

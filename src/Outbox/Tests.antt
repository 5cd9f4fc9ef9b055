-- ===== src/Outbox/Tests.antt =====
-- A summary that is queued, sent and not queued again.
use fuelmind.Base.{◌≡◌, refl, true, none, some, List, [], ◌∷◌, Text, codes, ◌≤◌}
use fuelmind.Outbox.{Outbox, queue_message, pending_messages, drain}
use fuelmind.Outbox.Budget.{handed, handed_at_most}
use fuelmind.Outbox.Once.{Event, queue, flush, step, work, queued_once}

abbrev empty : Outbox
empty = record { messages = []; next_id = 1 }

abbrev day : Text
day = codes "daily_summary:2026-09-13"

abbrev sends : List Event
sends = flush true (λ m. none) ∷ flush true (λ m. some (codes "offline")) ∷ []

queued_once_example :
    queue_message (codes "daily_summary") day [] (codes "+92") (codes "Rs 700") (
      work sends (step (queue (codes "daily_summary") day [] (codes "+92") (codes "Rs 500")) empty))
    ≡ none
queued_once_example =
    queued_once day (codes "daily_summary") [] (codes "+92") (codes "Rs 500")
      (codes "daily_summary") [] (codes "+92") (codes "Rs 700") empty sends

abbrev offline : Event
offline = flush true (λ m. some (codes "offline"))

-- The sixth time there is nothing to hand over.
abbrev tries : List Event
tries =
    queue (codes "daily_summary") day [] (codes "+92") (codes "Rs 500")
    ∷ offline
    ∷ offline
    ∷ offline
    ∷ offline
    ∷ offline
    ∷ offline
    ∷ []

five_tries : handed 1 tries empty ≡ 5
unfolding handed pending_messages step queue_message drain
five_tries = refl

handed_at_most_example : handed 1 tries (record { messages = []; next_id = 1 }) ≤ 5
handed_at_most_example = handed_at_most 1 1 tries

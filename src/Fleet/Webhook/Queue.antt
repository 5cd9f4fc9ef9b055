-- ===== src/Fleet/Webhook/Queue.antt =====
-- internal/cloudctl/messages.go: the queue of questions over any run of the server.
use fuelmind.Base.{◌≡◌, refl, Option, none, some, List, [], ◌∷◌, Text, codes}
use fuelmind.Limits.{RateLimiter}
use fuelmind.Fleet.{Server, add_station, add_release, set_heartbeat_cap}
use fuelmind.Fleet.Desk.Asking.{admin_ask_keeps}
use fuelmind.Fleet.Desk.Bounded.{IsQueue, IsNew, enqueue-IsQueue, handle_message_reply-IsQueue}
use fuelmind.Fleet.Webhook.{
  Event, station_added, release_added, cap_set, beat, licensed, answer, admin_asked, inbound, step,
  run,
}
use fuelmind.Fleet.Webhook.Routing.{receive_keeps}
use fuelmind.Fleet.Webhook.Events.{minted, handle_heartbeat-desk, handle_admin-desk}

same_desk-IsQueue :
    (s t : Server) → t.messages ≡ s.messages → t.order ≡ s.order → IsQueue s → IsQueue t
same_desk-IsQueue s t e f q = record {
  ordered = rw (e, f) q.ordered;
  distinct = rw f q.distinct;
  bounded = rw f q.bounded;
}

step-IsQueue : (e : Event) (s : Server) → IsQueue s → IsNew (minted e) s → IsQueue (step e s)
unfolding step add_station add_release set_heartbeat_cap
step-IsQueue (station_added st) s q new = same_desk-IsQueue s _ refl refl q
step-IsQueue (release_added r) s q new = same_desk-IsQueue s _ refl refl q
step-IsQueue (cap_set n) s q new = same_desk-IsQueue s _ refl refl q
step-IsQueue (beat now authorization body) s q new =
    let (e, f) = handle_heartbeat-desk now authorization body s in same_desk-IsQueue s _ e f q
step-IsQueue (licensed authorization id req) s q new =
    let (e, f) = handle_admin-desk authorization id req s in same_desk-IsQueue s _ e f q
step-IsQueue (answer now authorization id body) s q new =
    handle_message_reply-IsQueue now authorization id body s q
step-IsQueue (admin_asked now rand authorization body) s q new =
    admin_ask_keeps IsQueue now rand authorization body s q
      (λ st sender text. enqueue-IsQueue now rand st sender text (codes "admin") s q new)
step-IsQueue (inbound now rand r) s q new =
    receive_keeps IsQueue now rand r s q (λ l. limited s l q)
      (λ l st sender text channel.
        enqueue-IsQueue now rand st sender text channel (record s { limiter = l }) (limited s l q)
          (limited_new rand s l new))
  where
    limited : (s : Server) (l : RateLimiter) → IsQueue s → IsQueue (record s { limiter = l })
    limited s l q = same_desk-IsQueue s _ refl refl q

    limited_new :
        (o : Option Text) (s : Server) (l : RateLimiter)
        → IsNew o s
        → IsNew o (record s { limiter = l })
    limited_new none s l h = tt
    limited_new (some id) s l h = h

-- Each question of the run gets an id that is not in use then.
abbrev pub MintsNew : List Event → Server → Type 0
MintsNew [] s = Unit {0}
MintsNew (e ∷ es) s = IsNew (minted e) s × MintsNew es (step e s)

-- Whatever the server is asked, in any order, the questions that it holds are those of its order, each
-- once, and at most 500, as long as the random ids of new questions are not in use.
pub run-IsQueue : (es : List Event) (s : Server) → IsQueue s → MintsNew es s → IsQueue (run es s)
unfolding run
run-IsQueue [] s q new = q
run-IsQueue (e ∷ es) s q new = run-IsQueue es (step e s) (step-IsQueue e s q new.0) new.1

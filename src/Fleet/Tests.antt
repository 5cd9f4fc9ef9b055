-- ===== src/Fleet/Tests.antt =====
-- One station with one owner: a question over the webhook, a poll, and a release.
use fuelmind.Base.{
  ap, lookup, text_eq, byte_len, ◌≡◌, refl, true, false, none, some, List, [], ◌∷◌, Text, codes,
  inl, inr, Contains, is_empty, trim_space, All, arith,
}
use fuelmind.Version.Numeric.{IsRelease}
use fuelmind.Version.{pos, split, before, stripped, atoi, or_zero, after, valid}
use fuelmind.Launcher.Disk.{is_quarantined}
use fuelmind.Launcher.Scenario.{before_update}
use fuelmind.Update.{Sha256, Config, check, manifest, offered}
use fuelmind.Phone.{normalize_cc}
use fuelmind.Fleet.{
  Server, Station, Message, UpdateRelease, new_server, add_station, add_release, bearer,
}
use fuelmind.Fleet.Desk.{new_message, handle_pending_messages}
use fuelmind.Fleet.Desk.Own.{HoldsKey, WaitsFor, poll_exact}
use fuelmind.Fleet.Desk.Bounded.{IsQueue}
use fuelmind.Fleet.Releases.{best_release}
use fuelmind.Fleet.Releases.Best.{IsChosen, best_release-IsChosen, as_manifest, best_release-check}
use fuelmind.Fleet.Webhook.{
  Event, answer, inbound, Inbound, receive, run, sender_of, sender_number, owns_number,
  handle_whatsapp_webhook,
}
use fuelmind.Fleet.Webhook.Routing.{IsOnlyOwner}
use fuelmind.Fleet.Webhook.Queue.{run-IsQueue}
use fuelmind.Fleet.Webhook.Waiting.{SaidBy}
use fuelmind.Fleet.Webhook.Privacy.{webhook_private}

abbrev pump : Station
pump = record {
  station_id = codes "FM-1";
  api_key = codes "k1";
  tier = codes "connected";
  features_json = none;
  status = codes "active";
  valid_from = 0;
  valid_until = none;
  owner_numbers = codes "0300 1234567" ∷ [];
}

abbrev cloud : Server
cloud = add_station pump (new_server (codes "admin") (codes "gate"))

abbrev question : Inbound
question = record {
  token = codes "gate";
  claimed = [];
  from_values = codes "whatsapp:+923001234567" ∷ [] ∷ [];
  body_values = codes "sales?" ∷ [];
}

abbrev id : Text
id = codes "q1"

abbrev rounds : List (List Event)
rounds = [] ∷ (answer 7 (codes "Bearer k1") id (some (codes "Rs 500")) ∷ []) ∷ []

abbrev answered_cloud : Server
answered_cloud = (handle_whatsapp_webhook 5 (some id) question rounds cloud).1

webhook_private_example :
    (is_empty cloud.webhook_token ≡ false)
    × (question.token ≡ cloud.webhook_token)
    × ((st : Station) × IsOnlyOwner (sender_of question) st cloud.stations
        × (is_empty (trim_space question.claimed) ≡ false
            → trim_space question.claimed ≡ st.station_id)
        × ((i : Text) × (some id ≡ some i)
            × SaidBy st.station_id i
                (codes "Rs 500")
                (answer 7 (codes "Bearer k1") id (some (codes "Rs 500")) ∷ [])
                (receive 5 (some id) question cloud).1))
unfolding handle_whatsapp_webhook add_station new_server text_eq sender_number owns_number
    normalize_cc
webhook_private_example =
    webhook_private rounds question (some id) cloud
      (λ k st m. elim m [ inl e ↦ ground (arith, ap (λ p. p.1) e) | inr n ↦ absurd n ])
      (λ i e. (λ f. cc, tt)) 5 (codes "Rs 500") answered_cloud refl

run-IsQueue_example : IsQueue (run (inbound 5 (some id) question ∷ []) cloud)
unfolding add_station new_server
run-IsQueue_example =
    run-IsQueue (inbound 5 (some id) question ∷ []) cloud
      (record { ordered = refl; distinct = tt; bounded = omega arith }) (refl, tt)

abbrev asked : Message
asked = new_message 5 id (codes "FM-1") (codes "+923001234567") (codes "sales?") (codes "whatsapp")

abbrev asked_cloud : Server
asked_cloud = (receive 5 (some id) question cloud).1

poll_exact_example :
    ((st : Station) × HoldsKey (codes "Bearer k1") (codes "FM-1") st asked_cloud)
    × All (WaitsFor (codes "FM-1")) (asked ∷ [])
    × ((i : Text) (m : Message)
        → Contains i asked_cloud.order
        → lookup i asked_cloud.messages ≡ some m
        → WaitsFor (codes "FM-1") m
        → Contains m (asked ∷ []))
unfolding receive add_station new_server handle_pending_messages bearer text_eq trim_space
    sender_number owns_number normalize_cc
poll_exact_example =
    poll_exact (codes "Bearer k1") (codes "FM-1") asked_cloud (asked ∷ []) refl refl

abbrev newer : UpdateRelease
newer = record {
  version = codes "1.2.0";
  release_notes = [];
  artifact_url = [];
  checksum_sha256 = codes "0123456789abcdef0123456789abcdef0123456789abcdef0123456789abcdef";
  min_hardware_tier = codes "basic";
  rollout_pct = 100;
}

abbrev digest : Sha256
digest = record { bytes = λ t. 0 ∷ 0 ∷ 0 ∷ 7 ∷ []; hex = λ t. t }

abbrev published : Server
published = add_release newer cloud

numbers_parse : All (λ r. IsRelease r.version) (newer ∷ [])
unfolding split before stripped atoi or_zero after
numbers_parse =
    (record { parts = ((pos 1, refl), ((pos 2, refl), ((pos 0, refl), tt))); no_pre = refl }, tt)

best_release-IsChosen_example :
    IsChosen digest.bytes
      (codes "FM-1")
      (codes "1.1.0")
      (codes "pro")
      (newer ∷ [])
      (best_release digest.bytes (codes "FM-1") (codes "1.1.0") (codes "pro") published)
unfolding add_station new_server add_release
best_release-IsChosen_example =
    best_release-IsChosen digest.bytes (codes "FM-1") (codes "1.1.0") (codes "pro") published
      numbers_parse

abbrev config : Config
config = record {
  station_id = codes "FM-1";
  version = codes "1.1.0";
  supervised = true;
  window = λ t. true;
}

best_release-check_example :
    check digest config before_update.disk (manifest (as_manifest newer))
    ≡ offered (as_manifest newer)
unfolding add_station new_server add_release best_release is_quarantined valid byte_len
best_release-check_example =
    best_release-check digest config before_update.disk (codes "pro") published newer numbers_parse
      refl refl refl refl

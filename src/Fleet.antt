-- ===== src/Fleet.antt =====
-- internal/cloudctl/cloudctl.go: the control plane of the station fleet. Its state, the check of a
-- station's key, heartbeats and licences; the JSON values of a request come decoded.
pub mod Desk
pub mod Webhook
pub mod Releases
mod Tests
use fuelmind.Base.{
  ℕ, ◌-◌, ◌*◌, ◌≡◌, refl, ◌⊎◌, inl, inr, Bool, true, false, not, ◌&&◌, Option, none, some, List, [],
  ◌∷◌, ◌++◌, Text, codes, text_eq, is_empty, trim_space, has_prefix, ltb, length, drop, lookup,
  insert, if◌then◌else◌,
}
use fuelmind.Limits.{RateLimiter, new_rate_limiter, webhook_burst}

-- A row of the stations; `features_json` is the text of the object, none where it is nil.
pub record Station : Type 0 where
  pub station_id : Text
  pub api_key : Text
  pub tier : Text
  pub features_json : Option Text
  pub status : Text
  pub valid_from : ℕ
  pub valid_until : Option ℕ
  pub owner_numbers : List Text

pub record UpdateRelease : Type 0 where
  pub version : Text
  pub release_notes : Text
  pub artifact_url : Text
  pub checksum_sha256 : Text
  pub min_hardware_tier : Text
  pub rollout_pct : ℕ

pub record HeartbeatRecord : Type 0 where
  pub received_at : ℕ
  pub station_id : Text
  pub payload : Text

-- One question that is routed to a station, and the answer that it sent back.
pub record Message : Type 0 where
  pub id : Text
  pub station_id : Text
  pub sender : Text
  pub text : Text
  pub channel : Text
  pub received_at : ℕ
  pub answer : Text
  pub answered_at : Option ℕ

pub record Server : Type 0 where
  pub stations : List (Text × Station)
  pub keys : List (Text × Text)
  pub beats : List HeartbeatRecord
  pub max_beats : ℕ
  pub releases : List UpdateRelease
  pub admin_token : Text
  pub webhook_token : Text
  pub messages : List (Text × Message)
  pub order : List Text
  pub limiter : RateLimiter

pub record LicenseBlock : Type 0 where
  pub station_id : Text
  pub tier : Text
  pub features_json : Option Text
  pub valid_from : ℕ
  pub valid_until : Option ℕ
  pub status : Text

-- What a handler writes: an HTTP error with its status, or a value.
pub data Reply : Type 0 where
  refused : ℕ → Reply
  no_content : Reply
  license : LicenseBlock → Reply
  release : UpdateRelease → Reply
  pending : List Message → Reply
  message : Option Message → Reply

abbrev pub active : Text
active = codes "active"

-- New, with the tokens of the configuration and the limiter of the webhook.
unfoldable pub new_server : Text → Text → Server
unfolding new_rate_limiter
new_server admin webhook = record {
  stations = [];
  keys = [];
  beats = [];
  max_beats = 0;
  releases = [];
  admin_token = admin;
  webhook_token = webhook;
  messages = [];
  order = [];
  limiter = new_rate_limiter webhook_burst (60 * 1000000000);
}

unfoldable pub add_station : Station → Server → Server
unfolding insert
add_station st s = record s {
  stations = insert st.station_id st s.stations;
  keys = insert st.api_key st.station_id s.keys;
}

-- NewWithStations
unfoldable pub add_stations : List Station → Server → Server
add_stations [] s = s
add_stations (st ∷ sts) s = add_stations sts (add_station st s)

unfoldable pub add_release : UpdateRelease → Server → Server
add_release r s = record s { releases = s.releases ++ r ∷ [] }

-- The newest `n` of the heartbeats; 0 keeps them all.
unfoldable pub capped : ℕ → List HeartbeatRecord → List HeartbeatRecord
capped n beats = if ltb 0 n && ltb n (length beats) then drop (length beats - n) beats else beats

unfoldable pub set_heartbeat_cap : ℕ → Server → Server
unfolding capped
set_heartbeat_cap n s = record s { max_beats = n; beats = capped n s.beats }

-- bearer
unfoldable pub bearer : Text → Option Text
unfolding has_prefix
bearer h = if has_prefix h (codes "Bearer ") then some (trim_space (drop 7 h)) else none

-- The station of a request, or the status of the error.
pub data Auth : Type 0 where
  granted : Station → Auth
  denied : ℕ → Auth

-- To split on a check of a key and keep the equation.
pub Auth-cases : (a : Auth) → ((code : ℕ) × (a ≡ denied code)) ⊎ ((st : Station) × (a ≡ granted st))
Auth-cases (granted st) = inr (st, refl)
Auth-cases (denied code) = inl (code, refl)

-- The end of stationFor, where the key belongs to the station `id`.
unfoldable pub admit_station : Text → Server → Auth
admit_station id s = elim (lookup id s.stations) [
  | none ↦ denied 404
  | some st ↦ if not (text_eq st.status active) then denied 403 else granted st
]

-- The middle of stationFor: the key is looked up and compared with the claimed station.
unfoldable pub station_of_key : Text → Text → Server → Auth
unfolding admit_station
station_of_key key claimed s = elim (lookup key s.keys) [
  | none ↦ denied 401
  | some id ↦
      if not (is_empty claimed) && not (text_eq claimed id) then denied 403 else admit_station id s
]

-- stationFor
unfoldable pub station_for : Text → Text → Server → Auth
unfolding station_of_key
station_for authorization claimed s = elim (bearer authorization) [
  | none ↦ denied 401
  | some key ↦ station_of_key key claimed s
]

abbrev pub license_view : Station → LicenseBlock
license_view st = record {
  station_id = st.station_id;
  tier = st.tier;
  features_json = st.features_json;
  valid_from = st.valid_from;
  valid_until = st.valid_until;
  status = st.status;
}

unfoldable pub keep_beat : ℕ → Text → Text → Server → Server
unfolding capped
keep_beat now station_id payload s = record s {
  beats =
      capped s.max_beats
        (s.beats ++ record { received_at = now; station_id = station_id; payload = payload } ∷ []);
}

-- handleHeartbeat behind the test of the method: the station_id of the payload, and the payload; none
-- is a body that is not JSON.
unfoldable pub handle_heartbeat : ℕ → Text → Option (Text × Text) → Server → Reply × Server
unfolding station_for keep_beat
handle_heartbeat now authorization none s = (refused 400, s)
handle_heartbeat now authorization (some (station_id, payload)) s =
    if is_empty station_id
    then (refused 400, s)
    else elim (station_for authorization station_id s) [
      | denied code ↦ (refused code, s)
      | granted st ↦ (license (license_view st), keep_beat now station_id payload s)
    ]

-- handleLicense behind the test of the method
unfoldable pub handle_license : Text → Text → Server → Reply
unfolding station_for
handle_license authorization id s =
    if is_empty id then refused 400 else elim (station_for authorization id s) [
      | denied code ↦ refused code
      | granted st ↦ license (license_view st)
    ]

-- adminAuthorized
unfoldable pub admin_authorized : Text → Server → Bool
unfolding bearer
admin_authorized authorization s =
    not (is_empty s.admin_token)
    && (elim (bearer authorization) [ none ↦ false | some tok ↦ text_eq tok s.admin_token ])

-- The body of a change of licence.
pub record LicenseChange : Type 0 where
  pub features_json : Option Text
  pub tier : Text
  pub status : Text

unfoldable pub change_license : LicenseChange → Station → Station
change_license req st = record st {
  features_json = elim req.features_json [ none ↦ st.features_json | some f ↦ some f ];
  tier = if is_empty req.tier then st.tier else req.tier;
  status = if is_empty req.status then st.status else req.status;
}

-- handleAdminStationLicense behind the test of the method; `id` is the path without its ends.
unfoldable pub handle_admin_station_license :
    Text → Text → Option LicenseChange → Server → Reply × Server
unfolding admin_authorized change_license insert
handle_admin_station_license authorization id none s =
    if not (admin_authorized authorization s) then (refused 401, s) else (refused 400, s)
handle_admin_station_license authorization id (some req) s =
    if not (admin_authorized authorization s)
    then (refused 401, s)
    else if is_empty id
    then (refused 400, s)
    else elim (lookup id s.stations) [
      | none ↦ (refused 404, s)
      | some st ↦ (
        license (license_view (change_license req st)),
        record s { stations = insert id (change_license req st) s.stations },
      )
    ]

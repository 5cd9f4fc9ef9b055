-- ===== src/Accounts/Login.antt =====
-- internal/auth (auth.go, users.go) over the login functions of internal/storage/storage.go. The
-- random bytes are arguments, `none` where rand.Read fails; base64 and PBKDF2 are parameters.
mod Store
pub mod Lockout
pub mod Sessions
pub mod Leftover
pub mod Admission
unfoldable pub use Store.*
use fuelmind.Base.{
  ℕ, ◌+◌, ◌*◌, ◌≡◌, Bool, true, false, not, ◌&&◌, ◌||◌, Option, none, some, List, [], ◌∷◌, ◌++◌,
  Text, codes, text_eq, is_empty, byte_len, is_digit, is_lower, trim_space, to_lower, ltb, leb,
  ◌==◌, any, length, keep_if, if◌then◌else◌,
}
use fuelmind.Accounts.{
  User, Session, Database, Error, Result, ok, err, bad_name, bad_role, not_found, pin_too_short,
  bad_random, wrong_pin, same_pin, bad_row, has_name, first_user, update_where, user_by_id,
  create_user, delete_user, delete_sessions_for_user, valid_role,
}

-- Verify
unfoldable pub verify : ℕ → Text → Database → Option ℕ
verify now sid db = if is_empty sid then none else lookup_session now sid db

-- Logout
unfoldable pub logout : Text → Database → Database
logout sid db =
    if is_empty sid
    then db
    else record db { sessions = keep_if (λ s. not (text_eq s.id sid)) db.sessions }

-- CurrentUser; `none` is ErrInvalidSession.
unfoldable pub current_user : ℕ → Text → Database → Option User
unfolding user_by_id
current_user now sid db = elim (verify now sid db) [
  | none ↦ none
  | some i ↦ elim (user_by_id i db) [ none ↦ none | some u ↦ if u.is_active then some u else none ]
]

abbrev name_start : ℕ → Bool
name_start c = is_lower c || is_digit c

abbrev name_char : ℕ → Bool
name_char c = name_start c || c == 46 || c == 95 || c == 45

-- usernamePattern
unfoldable pub valid_username : Text → Bool
valid_username [] = false
valid_username (c ∷ cs) =
    name_start c && not (any (λ d. not (name_char d)) cs) && leb 1 (length cs) && leb (length cs) 31

-- What LoginAs answers.
pub data Login : Type 0 where
  signed_in : Text → User → Login
  switched_off : Login
  no_pin : Login
  locked : ℕ → Login
  invalid_pin : Login
  bad_record : Login
  no_random : Login

-- The libraries that the package calls.
pub record Crypto : Type 0 where
  pub pbkdf2 : Text → Text → ℕ → Text
  pub encode : Text → Text
  pub decode : Text → Option Text

unfoldable pub is_locked : ℕ → User → Bool
is_locked now u = elim u.lock_until [ none ↦ false | some t ↦ ltb now t ]

-- The comparison of a PIN with a row; `none` is a row that does not decode.
unfoldable pub check_pin : Crypto → Text → User → Option Bool
check_pin c pin u = elim (c.decode u.pin_salt) [
  | none ↦ none
  | some salt ↦ elim (c.decode u.pin_hash) [
    | none ↦ none
    | some want ↦ some (text_eq want (c.pbkdf2 pin salt u.pin_iters))
  ]
]

-- LoginAs behind a wrong PIN.
unfoldable pub refuse : ℕ → Text → User → Database → Login × Database
unfolding record_login_failure
refuse now name u db = (
  if locks u then locked (now + lockout_duration) else invalid_pin,
  record_login_failure now name db,
)

-- The user that LoginAs returns.
unfoldable pub full_user : User → Database → User
unfolding user_by_id
full_user u db = elim (user_by_id u.id db) [
  | none ↦ record u { role = codes "owner" }
  | some full ↦ full
]

-- LoginAs behind the right PIN.
unfoldable pub admit : ℕ → Option Text → Text → User → Database → Login × Database
unfolding record_login_success create_session full_user
admit now none name u db = (no_random, record_login_success now name db)
admit now (some sid) name u db =
    let db' = create_session now sid u.id (now + session_ttl) (record_login_success now name db) in
    (signed_in sid (full_user u db'), db')

-- LoginAs behind the guards of the row.
unfoldable pub decide : Crypto → ℕ → Option Text → Text → Text → User → Database → Login × Database
unfolding check_pin refuse admit
decide c now sid name pin u db = elim (check_pin c pin u) [
  | none ↦ (bad_record, db)
  | some right ↦ if right then admit now sid name u db else refuse now name u db
]

abbrev pub locked_until : User → ℕ
locked_until u = elim u.lock_until [ none ↦ 0 | some t ↦ t ]

-- LoginAs behind the lookup of the name.
unfoldable pub login_row :
    Crypto → ℕ → Option Text → Text → Text → User → Database → Login × Database
unfolding is_locked decide
login_row c now sid name pin u db =
    if not u.is_active
    then (switched_off, db)
    else if is_empty u.pin_hash
    then (no_pin, db)
    else if is_locked now u
    then (locked (locked_until u), db)
    else decide c now sid name pin u db

-- LoginAs
unfoldable pub login_as : Crypto → ℕ → Option Text → Text → Text → Database → Login × Database
unfolding get_dashboard_user login_row
login_as c now sid username pin db =
    let name = to_lower (trim_space username) in
    elim (get_dashboard_user name db) [
      | none ↦ (invalid_pin, db)
      | some u ↦ login_row c now sid name pin u db
    ]

-- SetPINFor, with the salt that rand.Read gives.
unfoldable pub set_pin_for : Crypto → Option Text → Text → Text → Database → Result Database
unfolding set_dashboard_user_pin get_dashboard_user delete_sessions_for_user
set_pin_for c salt username pin db =
    if ltb (byte_len pin) min_pin_length then err pin_too_short else elim salt [
      | none ↦ err bad_random
      | some bytes ↦
          elim (set_dashboard_user_pin (to_lower (trim_space username))
            (c.encode (c.pbkdf2 pin bytes default_iterations)) (c.encode bytes) default_iterations
            db) [
              | none ↦ err not_found
              | some db' ↦ elim (get_dashboard_user username db') [
                | none ↦ ok db'
                | some u ↦ ok (delete_sessions_for_user u.id db')
              ]
            ]
    ]

-- AddUser behind CreateUser: the account goes again where the PIN cannot be set.
unfoldable pub first_pin :
    Crypto → Option Text → Text → Text → ℕ → Database → Result User × Database
unfolding set_pin_for delete_user user_by_id
first_pin c salt name pin i db = elim (set_pin_for c salt name pin db) [
  | err e ↦ (err e, elim (delete_user i db) [ ok db' ↦ db' | err e' ↦ db ])
  | ok db' ↦ (elim (user_by_id i db') [ none ↦ err not_found | some u ↦ ok u ], db')
]

-- AddUser: the new user, and the tables.
unfoldable pub add_user :
    Crypto → Option Text → Text → Text → Text → Text → Database → Result User × Database
unfolding create_user first_pin valid_username
add_user c salt username display_name role pin db =
    let name = to_lower (trim_space username) in
    if not (valid_username name)
    then (err bad_name, db)
    else if ltb (byte_len pin) min_pin_length
    then (err pin_too_short, db)
    else if not (valid_role role)
    then (err bad_role, db)
    else elim (create_user name display_name role db) [
      | err e ↦ (err e, db)
      | ok made ↦ first_pin c salt name pin made.0 made.1
    ]

-- ChangeOwnPIN behind the comparison with the row.
unfoldable pub replace_pin :
    Crypto → ℕ → Option Text → Text → Text → Option Bool → Database → Option Error × Database
unfolding set_pin_for record_login_failure
replace_pin c now salt name new none db = (some bad_row, db)
replace_pin c now salt name new (some false) db = (some wrong_pin, record_login_failure now name db)
replace_pin c now salt name new (some true) db = elim (set_pin_for c salt name new db) [
  | ok db' ↦ (none, db')
  | err e ↦ (some e, db)
]

-- ChangeOwnPIN: the error, and the tables.
unfoldable pub change_own_pin :
    Crypto → ℕ → Option Text → ℕ → Text → Text → Database → Option Error × Database
unfolding user_by_id get_dashboard_user check_pin replace_pin
change_own_pin c now salt i current new db =
    if ltb (byte_len new) min_pin_length
    then (some pin_too_short, db)
    else if text_eq current new
    then (some same_pin, db)
    else elim (user_by_id i db) [
      | none ↦ (some not_found, db)
      | some u ↦ elim (get_dashboard_user u.username db) [
        | none ↦ (some not_found, db)
        | some row ↦ replace_pin c now salt u.username new (check_pin c current row) db
      ]
    ]

abbrev pub owner_username : Text
owner_username = codes "owner"

-- SetupPIN
unfoldable pub setup_pin : Crypto → Option Text → Text → Database → Result Database
unfolding set_dashboard_user_pin
setup_pin c salt pin db =
    if ltb (byte_len pin) min_pin_length then err pin_too_short else elim salt [
      | none ↦ err bad_random
      | some bytes ↦
          elim (set_dashboard_user_pin owner_username
            (c.encode (c.pbkdf2 pin bytes default_iterations)) (c.encode bytes) default_iterations
            db) [ none ↦ err not_found | some db' ↦ ok db' ]
    ]

-- What Login answers: a session, the refusal of LoginAs, or that there is no owner.
pub data OwnerLogin : Type 0 where
  opened : Text → OwnerLogin
  declined : Login → OwnerLogin
  no_owner : OwnerLogin

abbrev pub only_session : Login × Database → OwnerLogin × Database
only_session (signed_in sid u, db) = (opened sid, db)
only_session (answer, db) = (declined answer, db)

-- Login, which has the guards and steps of LoginAs and returns the session alone.
unfoldable pub login : Crypto → ℕ → Option Text → Text → Database → OwnerLogin × Database
unfolding get_dashboard_user login_row
login c now sid pin db = elim (get_dashboard_user owner_username db) [
  | none ↦ (no_owner, db)
  | some u ↦ only_session (login_row c now sid owner_username pin u db)
]

-- DeleteAllSessions
unfoldable pub delete_all_sessions : Database → Database
delete_all_sessions db = record db { sessions = [] }

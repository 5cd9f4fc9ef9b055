-- ===== src/Accounts.antt =====
-- internal/storage: the people who can sign in (audit.go) and their sessions (storage.go), as the
-- tables dashboard_users, auth_sessions and audit_log. A call of the database does not fail.
pub mod Keys
pub mod Owners
pub mod Login
mod Tests
use fuelmind.Base.{
  ℕ, ◌+◌, ◌≡◌, Bool, true, false, not, ◌&&◌, ◌||◌, Option, none, some, List, [], ◌∷◌, ◌++◌, map,
  Text, codes, text_eq, is_empty, trim_space, to_lower, ltb, leb, ◌==◌, any, keep_if, if◌then◌else◌,
}

abbrev pub role_owner : Text
role_owner = codes "owner"

abbrev pub role_staff : Text
role_staff = codes "staff"

-- A row of dashboard_users.
pub record User : Type 0 where
  pub id : ℕ
  pub username : Text
  pub display_name : Text
  pub role : Text
  pub is_active : Bool
  pub pin_hash : Text
  pub pin_salt : Text
  pub pin_iters : ℕ
  pub failed_attempts : ℕ
  -- NULL where the account is not locked
  pub lock_until : Option ℕ
  pub last_login_at : Option ℕ

pub record Session : Type 0 where
  pub id : Text
  pub user_id : ℕ
  pub expires_at : ℕ

-- A row of audit_log, as far as deleting a user changes it.
pub record AuditEntry : Type 0 where
  pub user_id : Option ℕ
  pub summary : Text

pub record Database : Type 0 where
  pub users : List User
  pub sessions : List Session
  pub audit_log : List AuditEntry
  -- The key that AUTOINCREMENT gives next.
  pub next_id : ℕ

pub data Error : Type 0 where
  bad_name : Error
  bad_role : Error
  user_exists : Error
  last_owner : Error
  not_found : Error
  pin_too_short : Error
  bad_random : Error
  wrong_pin : Error
  same_pin : Error
  bad_row : Error

pub data Result {ℓ} (A : Type ℓ) : Type ℓ where
  ok : A → Result A
  err : Error → Result A

unfoldable pub valid_role : Text → Bool
valid_role r = text_eq r role_owner || text_eq r role_staff

-- The first row that a WHERE clause selects.
unfoldable pub first_user : (User → Bool) → List User → Option User
first_user p [] = none
first_user p (u ∷ us) = if p u then some u else first_user p us

abbrev pub has_id : ℕ → User → Bool
has_id i u = u.id == i

abbrev pub has_name : Text → User → Bool
has_name n u = text_eq u.username n

-- UPDATE dashboard_users ... WHERE
unfoldable pub update_where : (User → Bool) → (User → User) → List User → List User
update_where p f [] = []
update_where p f (u ∷ us) = (if p u then f u else u) ∷ update_where p f us

-- UserByID
unfoldable pub user_by_id : ℕ → Database → Option User
user_by_id i db = first_user (has_id i) db.users

-- CreateUser: the key of the new row, and the tables.
unfoldable pub create_user : Text → Text → Text → Database → Result (ℕ × Database)
create_user username display_name role db =
    let name = to_lower (trim_space username) in
    if is_empty name
    then err bad_name
    else if not (valid_role role)
    then err bad_role
    else if any (has_name name) db.users
    then err user_exists
    else ok (
      db.next_id,
      record db {
        users =
            db.users
            ++ record {
              id = db.next_id;
              username = name;
              display_name = trim_space display_name;
              role = role;
              is_active = true;
              pin_hash = [];
              pin_salt = [];
              pin_iters = 0;
              failed_attempts = 0;
              lock_until = none;
              last_login_at = none;
            }
              ∷ [];
        next_id = db.next_id + 1;
      },
    )

abbrev pub is_active_owner : User → Bool
is_active_owner u = text_eq u.role role_owner && u.is_active

-- isLastActiveOwner; `none` is ErrNotFound.
unfoldable pub is_last_active_owner : ℕ → Database → Option Bool
unfolding user_by_id
is_last_active_owner i db = elim (user_by_id i db) [
  | none ↦ none
  | some u ↦
      some (
        text_eq u.role role_owner && not (any (λ v. is_active_owner v && not (v.id == i)) db.users))
]

-- Whether isLastActiveOwner lets a change go on.
unfoldable pub owner_guard : ℕ → Database → Result Database → Result Database
unfolding is_last_active_owner
owner_guard i db change = elim (is_last_active_owner i db) [
  | none ↦ err not_found
  | some last ↦ if last then err last_owner else change
]

-- The UPDATE of UpdateUser.
unfoldable pub set_user : ℕ → Text → Text → Bool → Database → Database
unfolding update_where
set_user i display_name role active db = record db {
  users =
      update_where (has_id i)
        (λ u. record u { display_name = trim_space display_name; role = role; is_active = active })
        db.users;
}

-- UpdateUser
unfoldable pub update_user : ℕ → Text → Text → Bool → Database → Result Database
unfolding owner_guard set_user
update_user i display_name role active db =
    if not (valid_role role)
    then err bad_role
    else if not (text_eq role role_owner) || not active
    then owner_guard i db (ok (set_user i display_name role active db))
    else ok (set_user i display_name role active db)

-- DeleteSessionsForUser
unfoldable pub delete_sessions_for_user : ℕ → Database → Database
delete_sessions_for_user i db = record db {
  sessions = keep_if (λ s. not (s.user_id == i)) db.sessions;
}

unfoldable pub forget_user : ℕ → AuditEntry → AuditEntry
forget_user i e = elim e.user_id [
  | none ↦ e
  | some j ↦ if j == i then record e { user_id = none } else e
]

-- The transaction of DeleteUser.
unfoldable pub remove_user : ℕ → Database → Database
unfolding delete_sessions_for_user forget_user
remove_user i db = record (delete_sessions_for_user i db) {
  audit_log = map (forget_user i) db.audit_log;
  users = keep_if (λ u. not (u.id == i)) db.users;
}

-- DeleteUser
unfoldable pub delete_user : ℕ → Database → Result Database
unfolding owner_guard remove_user
delete_user i db = owner_guard i db (ok (remove_user i db))

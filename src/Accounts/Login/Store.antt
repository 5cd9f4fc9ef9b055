-- ===== src/Accounts/Login/Store.antt =====
-- internal/storage/storage.go: the rows that signing in reads and writes, and the sessions.
use fuelmind.Base.{
  ℕ, ◌+◌, ◌*◌, Bool, not, Option, none, some, List, [], ◌∷◌, ◌++◌, Text, text_eq, ltb, leb, any,
  keep_if, if◌then◌else◌,
}
use fuelmind.Accounts.{User, Session, Database, has_name, first_user, update_where}

abbrev pub minute : ℕ
minute = 60 * 1000000000

abbrev pub session_ttl : ℕ
session_ttl = 24 * 60 * minute

abbrev pub max_failed_attempts : ℕ
max_failed_attempts = 5

abbrev pub lockout_duration : ℕ
lockout_duration = 15 * minute

abbrev pub min_pin_length : ℕ
min_pin_length = 8

abbrev pub default_iterations : ℕ
default_iterations = 100000

-- GetDashboardUser
unfoldable pub get_dashboard_user : Text → Database → Option User
get_dashboard_user name db = first_user (has_name name) db.users

abbrev pub with_pin : Text → Text → ℕ → User → User
with_pin hash salt iters u = record u {
  pin_hash = hash;
  pin_salt = salt;
  pin_iters = iters;
  failed_attempts = 0;
  lock_until = none;
}

-- SetDashboardUserPIN; `none` is ErrNotFound.
unfoldable pub set_dashboard_user_pin : Text → Text → Text → ℕ → Database → Option Database
unfolding update_where
set_dashboard_user_pin name hash salt iters db =
    if not (any (has_name name) db.users)
    then none
    else some
        (record db { users = update_where (has_name name) (with_pin hash salt iters) db.users })

-- One row of RecordLoginFailure, and the time that it returns.
unfoldable pub count_failure : ℕ → User → User
count_failure now u =
    if ltb (u.failed_attempts + 1) max_failed_attempts
    then record u { failed_attempts = u.failed_attempts + 1 }
    else record u { failed_attempts = 0; lock_until = some (now + lockout_duration) }

unfoldable pub locks : User → Bool
locks u = leb max_failed_attempts (u.failed_attempts + 1)

-- RecordLoginFailure with the limits of the auth package.
unfoldable pub record_login_failure : ℕ → Text → Database → Database
unfolding update_where count_failure
record_login_failure now name db = record db {
  users = update_where (has_name name) (count_failure now) db.users;
}

-- RecordLoginSuccess
unfoldable pub record_login_success : ℕ → Text → Database → Database
unfolding update_where
record_login_success now name db = record db {
  users =
      update_where (has_name name)
        (λ u. record u { failed_attempts = 0; lock_until = none; last_login_at = some now })
        db.users;
}

-- CreateSession with purgeExpiredSessions: a session goes when its time is past.
unfoldable pub create_session : ℕ → Text → ℕ → ℕ → Database → Database
create_session now sid user_id expires_at db = record db {
  sessions =
      keep_if (λ s. not (ltb s.expires_at now)) db.sessions
      ++ record { id = sid; user_id = user_id; expires_at = expires_at } ∷ [];
}

unfoldable pub first_session : Text → List Session → Option Session
first_session sid [] = none
first_session sid (s ∷ ss) = if text_eq s.id sid then some s else first_session sid ss

-- LookupSession
unfoldable pub lookup_session : ℕ → Text → Database → Option ℕ
unfolding first_session
lookup_session now sid db = elim (first_session sid db.sessions) [
  | none ↦ none
  | some s ↦ if ltb s.expires_at now then none else some s.user_id
]

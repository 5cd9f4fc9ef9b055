-- ===== src/Accounts/Login/Leftover.antt =====
-- internal/auth/users.go, SetPINFor: a name that is not spelled as in its row.
use fuelmind.Base.{
  ◌≡◌, ◌≢◌, refl, ap, sym, ◌∙◌, true, false, none, some, Text, List, [], ◌∷◌, any, arith, ltb,
  byte_len, to_lower, trim_space,
}
use fuelmind.Accounts.{User, Database, ok, first_user, update_where, has_name}
use fuelmind.Accounts.Login.{
  Crypto, get_dashboard_user, set_pin_for, set_dashboard_user_pin, min_pin_length, with_pin,
  default_iterations,
}
use fuelmind.Accounts.Login.Lockout.{first_user-update_where, first_user-update_other}

any-first_user :
    (name : Text) (us : List User) (u : User)
    → first_user (has_name name) us ≡ some u
    → any (has_name name) us ≡ true
unfolding first_user
any-first_user name [] u h = absurd (ground arith)
any-first_user name (v ∷ us) u h = ground (arith, any-first_user name us u)

other_spelling :
    (username : Text) (db : Database) (u : User)
    → get_dashboard_user username db ≡ none
    → get_dashboard_user (to_lower (trim_space username)) db ≡ some u
    → username ≢ to_lower (trim_space username)
other_spelling username db u none_there there e =
    let both = sym none_there ∙ (ap (λ n. get_dashboard_user n db) e ∙ there) in
    absurd (ground arith)

-- Where the name is one of a row only after trimming and lower-casing, and not as it is written, setting
-- a long enough PIN succeeds and changes the PIN of that row, but ends no session.
pub set_pin_for_leaves_sessions :
    (c : Crypto) (bytes username pin : Text) (db : Database) (u : User)
    → ltb (byte_len pin) min_pin_length ≡ false
    → get_dashboard_user username db ≡ none
    → get_dashboard_user (to_lower (trim_space username)) db ≡ some u
    → (db' : Database) × (set_pin_for c (some bytes) username pin db ≡ ok db')
      × (db'.sessions ≡ db.sessions)
      × (get_dashboard_user (to_lower (trim_space username)) db'
          ≡ some (
              with_pin
                (c.encode (c.pbkdf2 pin bytes default_iterations))
                (c.encode bytes)
                default_iterations
                u))
unfolding set_pin_for set_dashboard_user_pin get_dashboard_user
set_pin_for_leaves_sessions c bytes username pin db u long absent there =
    let name = to_lower (trim_space username) in
    let change =
      with_pin (c.encode (c.pbkdf2 pin bytes default_iterations)) (c.encode bytes)
        default_iterations in
    let still =
      first_user-update_other name username change db.users (λ v. refl)
        (other_spelling username db u absent there)
      ∙ absent in
    (
      record db { users = update_where (has_name name) change db.users },
      rw (long, any-first_user name db.users u there) (rw still refl),
      refl,
      first_user-update_where name change db.users u (λ v. refl) there,
    )

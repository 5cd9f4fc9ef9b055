-- ===== src/Accounts/Tests.antt =====
-- A station with an owner and one member of staff.
use fuelmind.Base.{
  ℕ, ◌+◌, ◌<◌, ◌≡◌, ◌≢◌, refl, true, false, List, [], ◌∷◌, arith, none, some, Text, any, byte_len,
  codes, text_eq, text_eq_iff, to_lower, trim_space,
}
use fuelmind.Accounts.{User, Database, ok, first_user, role_owner, role_staff, set_user}
use fuelmind.Accounts.Owners.{IsAdministered, update, delete, administer, administer-IsAdministered}
use fuelmind.Accounts.Login.{
  Crypto, locked, signed_in, login_as, get_dashboard_user, current_user, verify, set_pin_for,
  check_pin, is_locked, lockout_duration, session_ttl, lookup_session, with_pin, default_iterations,
}
use fuelmind.Accounts.Login.{owner_username}
use fuelmind.Accounts.Login.Lockout.{
  Try, try_all, last_time, five_wrong_pins_lock, login_as-other, IsOpen,
}
use fuelmind.Accounts.Login.Sessions.{set_pin_for_signs_out}
use fuelmind.Accounts.Login.Admission.{signed_in_by_pin}
use fuelmind.Accounts.Login.Leftover.{set_pin_for_leaves_sessions}

-- A hash that keeps the PIN.
abbrev plain : Crypto
plain = record { pbkdf2 = λ pin salt n. pin; encode = λ s. s; decode = λ s. some s }

abbrev person : ℕ → Text → Text → User
person i name role = record {
  id = i;
  username = name;
  display_name = [];
  role = role;
  is_active = true;
  pin_hash = codes "12345678";
  pin_salt = codes "salt";
  pin_iters = 100000;
  failed_attempts = 0;
  lock_until = none;
  last_login_at = none;
}

abbrev owner : User
owner = person 1 (codes "owner") role_owner

abbrev ali : User
ali = person 2 (codes "ali") role_staff

abbrev station : Database
station = record {
  users = owner ∷ ali ∷ [];
  sessions = record { id = codes "abc"; user_id = 2; expires_at = 500 } ∷ [];
  audit_log = [];
  next_id = 3;
}

in_order : IsAdministered station
unfolding text_eq
in_order = record {
  keyed = (refl, (refl, tt));
  below = (omega arith, (omega arith, tt));
  has_owner = refl;
}

administer-IsAdministered_example :
    IsAdministered (administer (update 1 [] role_staff true ∷ delete 1 ∷ delete 2 ∷ []) station)
administer-IsAdministered_example =
    administer-IsAdministered (update 1 [] role_staff true ∷ delete 1 ∷ delete 2 ∷ []) station
      in_order

clean : to_lower (trim_space (codes "Ali ")) ≡ codes "ali"
unfolding to_lower trim_space
clean = refl

ali_row : get_dashboard_user (to_lower (trim_space (codes "ali"))) station ≡ some ali
unfolding get_dashboard_user first_user text_eq to_lower trim_space
ali_row = refl

abbrev wrong_at : ℕ → Try
wrong_at t = record { time = t; pin = codes "00000000"; sid = none }

abbrev five : List Try
five = wrong_at 1 ∷ wrong_at 2 ∷ wrong_at 3 ∷ wrong_at 4 ∷ wrong_at 5 ∷ []

is_wrong : check_pin plain (codes "00000000") ali ≡ some false
unfolding check_pin text_eq
is_wrong = refl

is_free : (t : ℕ) → is_locked t ali ≡ false
unfolding is_locked
is_free t = refl

five_wrong_pins_lock_example :
    login_as plain 6
      (some (codes "xyz"))
      (codes "ali")
      (codes "12345678")
      (try_all plain (codes "ali") five station)
    ≡ (locked (last_time 0 five + lockout_duration), try_all plain (codes "ali") five station)
five_wrong_pins_lock_example =
    five_wrong_pins_lock plain (codes "ali") ali five station ali_row refl refl refl refl
      (
        (is_wrong, is_free 1),
        (
          (is_wrong, is_free 2),
          ((is_wrong, is_free 3), ((is_wrong, is_free 4), ((is_wrong, is_free 5), tt))),
        ),
      )
      6 (some (codes "xyz")) (codes "12345678") soon
  where
    soon : 6 < last_time 0 five + lockout_duration
    soon = omega arith

text_eq-apart : (a b : Text) → text_eq a b ≡ false → a ≢ b
text_eq-apart a b h e = ground (arith, (text_eq_iff a b).1 e)

owner_apart : codes "owner" ≢ to_lower (trim_space (codes "ali"))
unfolding text_eq to_lower trim_space
owner_apart = text_eq-apart (codes "owner") (to_lower (trim_space (codes "ali"))) refl

login_as-other_example :
    get_dashboard_user
      (codes "owner")
      (login_as plain 5 none (codes "ali") (codes "00000000") station).1
    ≡ get_dashboard_user (codes "owner") station
login_as-other_example =
    login_as-other plain 5 none (codes "ali") (codes "00000000") (codes "owner") station owner_apart

ali_in : current_user 100 (codes "abc") (set_user 1 [] role_owner false station) ≡ some ali
unfolding current_user set_user text_eq verify lookup_session first_user
ali_in = refl

abbrev with_new_pin : Database
with_new_pin = record station {
  users = owner ∷ record ali { pin_hash = codes "87654321"; pin_salt = codes "new" } ∷ [];
  sessions = [];
}

new_pin_set :
    set_pin_for plain (some (codes "new")) (codes "ali") (codes "87654321") station
    ≡ ok with_new_pin
unfolding set_pin_for text_eq to_lower trim_space byte_len first_user
new_pin_set = refl

plain_name : to_lower (trim_space (codes "ali")) ≡ codes "ali"
unfolding to_lower trim_space
plain_name = refl

ali_found : get_dashboard_user (codes "ali") station ≡ some ali
unfolding get_dashboard_user first_user text_eq
ali_found = refl

set_pin_for_signs_out_example : verify 100 (codes "abc") with_new_pin ≢ some 2
set_pin_for_signs_out_example =
    set_pin_for_signs_out plain (some (codes "new")) (codes "ali") (codes "87654321") station
      with_new_pin ali plain_name ali_found new_pin_set 100 (codes "abc")

no_capital : get_dashboard_user (codes "Ali") station ≡ none
unfolding get_dashboard_user first_user text_eq
no_capital = refl

lowered : get_dashboard_user (to_lower (trim_space (codes "Ali"))) station ≡ some ali
unfolding get_dashboard_user first_user text_eq to_lower trim_space
lowered = refl

abbrev after_login : Database
after_login = record station {
  users = owner ∷ record ali { last_login_at = some 5 } ∷ [];
  sessions =
      record { id = codes "abc"; user_id = 2; expires_at = 500 }
      ∷ record { id = codes "xyz"; user_id = 2; expires_at = 5 + session_ttl }
      ∷ [];
}

ali_signed_in :
    login_as plain 5 (some (codes "xyz")) (codes "ali") (codes "12345678") station
    ≡ (signed_in (codes "xyz") (record ali { last_login_at = some 5 }), after_login)
unfolding login_as text_eq to_lower trim_space first_user
ali_signed_in = refl

new_session : any (λ x. text_eq x.id (codes "xyz")) station.sessions ≡ false
unfolding text_eq
new_session = refl

signed_in_by_pin_example :
    (u : User) × (get_dashboard_user (to_lower (trim_space (codes "ali"))) station ≡ some u)
    × IsOpen 5 u
    × (check_pin plain (codes "12345678") u ≡ some true)
    × (verify 900 (codes "xyz") after_login ≡ some u.id)
signed_in_by_pin_example =
    signed_in_by_pin plain 5 (some (codes "xyz")) (codes "ali") (codes "12345678") (codes "xyz")
      (record ali { last_login_at = some 5 }) station after_login ali_signed_in refl new_session 900
      (omega arith)

owner_found : get_dashboard_user owner_username station ≡ some owner
unfolding get_dashboard_user first_user text_eq
owner_found = refl

set_pin_for_leaves_sessions_example :
    (db' : Database) × (set_pin_for plain
        (some (codes "new"))
        (codes "Ali")
        (codes "87654321")
        station
      ≡ ok db')
    × (db'.sessions ≡ station.sessions)
    × (get_dashboard_user (to_lower (trim_space (codes "Ali"))) db'
        ≡ some (with_pin (codes "87654321") (codes "new") default_iterations ali))
unfolding byte_len
set_pin_for_leaves_sessions_example =
    set_pin_for_leaves_sessions plain (codes "new") (codes "Ali") (codes "87654321") station ali
      refl no_capital lowered

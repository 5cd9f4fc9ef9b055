-- ===== src/Accounts/Login/Lockout.antt =====
-- internal/auth/users.go, LoginAs: wrong PINs lock the account that they are for, and no other.
use fuelmind.Base.{
  ℕ, ◌+◌, ◌<◌, ◌≡◌, ◌≢◌, refl, true, false, List, [], ◌∷◌, arith, ◌∙◌, length, All, inl, inr,
  Bool-cases, Option, some, none, Option-cases, Text, text_eq, text_eq_iff, to_lower, trim_space,
  is_empty,
}
use fuelmind.Accounts.{User, Database, has_name, first_user, update_where}
use fuelmind.Accounts.Login.{
  Crypto, locked, login_as, login_row, decide, refuse, admit, check_pin, is_locked, count_failure,
  record_login_success, create_session, get_dashboard_user, lockout_duration,
}

pub first_user-update_where :
    (name : Text) (f : User → User) (us : List User) (u : User)
    → ((v : User) → (f v).username ≡ v.username)
    → first_user (has_name name) us ≡ some u
    → first_user (has_name name) (update_where (has_name name) f us) ≡ some (f u)
unfolding first_user update_where
first_user-update_where name f [] u keeps h = absurd (ground arith)
first_user-update_where name f (v ∷ us) u keeps h = elim (Bool-cases (text_eq v.username name)) [
  | inl e ↦ ground (arith, keeps v)
  | inr e ↦ ground (arith, first_user-update_where name f us u keeps)
]

pub first_user-update_other :
    (name other : Text) (f : User → User) (us : List User)
    → ((v : User) → (f v).username ≡ v.username)
    → other ≢ name
    → first_user (has_name other) (update_where (has_name name) f us)
      ≡ first_user (has_name other) us
unfolding first_user update_where
first_user-update_other name other f [] keeps ne = refl
first_user-update_other name other f (v ∷ us) keeps ne =
    elim (Bool-cases (text_eq v.username name)) [
      | inl e ↦ ground (
        arith,
        keeps v,
        text_eq_iff v.username name,
        text_eq_iff v.username other,
        first_user-update_other name other f us keeps ne,
      )
      | inr e ↦ ground (arith, first_user-update_other name other f us keeps ne)
    ]

-- An account that may try a PIN.
pub record IsOpen (now : ℕ) (u : User) : Type 0 where
  pub active : u.is_active ≡ true
  pub has_pin : is_empty u.pin_hash ≡ false
  pub unlocked : is_locked now u ≡ false

pub login_row-open :
    (c : Crypto) (now : ℕ) (sid : Option Text) (name pin : Text) (u : User) (db : Database)
    → IsOpen now u
    → login_row c now sid name pin u db ≡ decide c now sid name pin u db
unfolding login_row
login_row-open c now sid name pin u db h = ground (arith, h.active, h.has_pin, h.unlocked)

wrong_pin_counts :
    (c : Crypto) (now : ℕ) (sid : Option Text) (username pin : Text) (u : User) (db : Database)
    → get_dashboard_user (to_lower (trim_space username)) db ≡ some u
    → IsOpen now u
    → check_pin c pin u ≡ some false
    → login_as c now sid username pin db ≡ refuse now (to_lower (trim_space username)) u db
unfolding login_as
wrong_pin_counts c now sid username pin u db e h w =
    rw (e, login_as)
      (rw (login_row-open c now sid (to_lower (trim_space username)) pin u db h)
        (rw (w, decide) refl))

-- An account with `n` wrong PINs in a row, and the PIN fields of `u`.
record Counted (n : ℕ) (u v : User) : Type 0 where
  active : v.is_active ≡ true
  hash : v.pin_hash ≡ u.pin_hash
  salt : v.pin_salt ≡ u.pin_salt
  iters : v.pin_iters ≡ u.pin_iters
  count : v.failed_attempts ≡ n
  same_lock : v.lock_until ≡ u.lock_until

-- A try to sign in: the time, the PIN, and the session id that is drawn.
pub record Try : Type 0 where
  pub time : ℕ
  pub pin : Text
  pub sid : Option Text

unfoldable pub try_all : Crypto → Text → List Try → Database → Database
try_all c username [] db = db
try_all c username (t ∷ ts) db = try_all c username ts (login_as c t.time t.sid username t.pin db).1

-- The time of the last try.
unfoldable pub last_time : ℕ → List Try → ℕ
last_time d [] = d
last_time d (t ∷ ts) = last_time t.time ts

same_check :
    (c : Crypto) (pin : Text) (n : ℕ) (u v : User)
    → Counted n u v
    → check_pin c pin v ≡ check_pin c pin u
unfolding check_pin
same_check c pin n u v h = rw (h.hash, h.salt, h.iters) refl

count_failure-Counted :
    (now n : ℕ) (u v : User) → n + 1 < 5 → Counted n u v → Counted (n + 1) u (count_failure now v)
unfolding count_failure
count_failure-Counted now n u v few h =
    ground (arith, h.active, h.hash, h.salt, h.iters, h.count, h.same_lock)

Counted-IsOpen :
    (now n : ℕ) (u v : User)
    → is_empty u.pin_hash ≡ false
    → is_locked now u ≡ false
    → Counted n u v
    → IsOpen now v
unfolding is_locked
Counted-IsOpen now n u v full unlocked h = record {
  active = h.active;
  has_pin = rw h.hash full;
  unlocked = rw h.same_lock unlocked;
}

locked_row :
    (c : Crypto) (now until : ℕ) (sid : Option Text) (username pin : Text) (u : User)
    (db : Database)
    → get_dashboard_user (to_lower (trim_space username)) db ≡ some u
    → u.is_active ≡ true
    → is_empty u.pin_hash ≡ false
    → u.lock_until ≡ some until
    → now < until
    → login_as c now sid username pin db ≡ (locked until, db)
unfolding login_as login_row is_locked
locked_row c now until sid username pin u db e a full l before =
    rw (e, login_as) (ground (arith, a, full, l))

-- The row after a wrong PIN.
wrong_pin_row :
    (c : Crypto) (t : Try) (username : Text) (n : ℕ) (u v : User) (db : Database)
    → get_dashboard_user (to_lower (trim_space username)) db ≡ some v
    → is_empty u.pin_hash ≡ false
    → Counted n u v
    → check_pin c t.pin u ≡ some false
    → is_locked t.time u ≡ false
    → get_dashboard_user
        (to_lower (trim_space username))
        (login_as c t.time t.sid username t.pin db).1
      ≡ some (count_failure t.time v)
unfolding get_dashboard_user count_failure refuse update_where
wrong_pin_row c t username n u v db e full h w l =
    rw
      (wrong_pin_counts c t.time t.sid username t.pin v db e (Counted-IsOpen t.time n u v full l h)
        (same_check c t.pin n u v h ∙ w))
      (first_user-update_where (to_lower (trim_space username)) (count_failure t.time) db.users v
        (λ x. ground arith) e)

-- A PIN that is wrong for `u`, at a time at which its lock is over.
abbrev pub IsWrong : Crypto → User → Try → Type 0
IsWrong c u t = (check_pin c t.pin u ≡ some false) × (is_locked t.time u ≡ false)

locks_now :
    (now n : ℕ) (u v : User)
    → n + 1 ≡ 5
    → Counted n u v
    → (count_failure now v).lock_until ≡ some (now + lockout_duration)
unfolding count_failure
locks_now now n u v five h = ground (arith, h.count)

count_failure-same :
    (now n : ℕ) (u v : User)
    → Counted n u v
    → ((count_failure now v).is_active ≡ true) × ((count_failure now v).pin_hash ≡ u.pin_hash)
unfolding count_failure
count_failure-same now n u v h = ground (arith, h.active, h.hash)

locked_after :
    (c : Crypto) (username : Text) (u : User) (ts : List Try) (d n : ℕ) (v : User) (db : Database)
    → get_dashboard_user (to_lower (trim_space username)) db ≡ some v
    → is_empty u.pin_hash ≡ false
    → Counted n u v
    → n < 5
    → n + length ts ≡ 5
    → All (IsWrong c u) ts
    → (w : User) × (get_dashboard_user (to_lower (trim_space username)) (try_all c username ts db)
        ≡ some w)
      × (w.is_active ≡ true)
      × (w.pin_hash ≡ u.pin_hash)
      × (w.lock_until ≡ some (last_time d ts + lockout_duration))
unfolding try_all last_time
locked_after c username u [] d n v db e full h few five wrong = absurd (omega arith)
locked_after c username u (t ∷ []) d n v db e full h few five wrong =
    let same = count_failure-same t.time n u v h in
    (
      count_failure t.time v,
      wrong_pin_row c t username n u v db e full h wrong.0.0 wrong.0.1,
      same.0,
      same.1,
      locks_now t.time n u v (omega arith) h,
    )
locked_after c username u (t ∷ t' ∷ ts) d n v db e full h few five wrong =
    locked_after c username u (t' ∷ ts) t.time (n + 1) (count_failure t.time v) _
      (wrong_pin_row c t username n u v db e full h wrong.0.0 wrong.0.1) full
      (count_failure-Counted t.time n u v (omega arith) h) (omega arith) (omega arith) wrong.1

-- Five wrong PINs in a row lock an account that is switched on, has a PIN and counts no wrong one, if
-- no earlier lock holds at any of the tries: for a quarter of an hour from the last of them, every PIN
-- is refused, the right one too, and the tables stay as they are.
pub five_wrong_pins_lock :
    (c : Crypto) (username : Text) (u : User) (ts : List Try) (db : Database)
    → get_dashboard_user (to_lower (trim_space username)) db ≡ some u
    → u.is_active ≡ true
    → is_empty u.pin_hash ≡ false
    → u.failed_attempts ≡ 0
    → length ts ≡ 5
    → All (IsWrong c u) ts
    → (now : ℕ) (sid : Option Text) (pin : Text) → now < last_time 0 ts + lockout_duration
    → login_as c now sid username pin (try_all c username ts db)
      ≡ (locked (last_time 0 ts + lockout_duration), try_all c username ts db)
five_wrong_pins_lock c username u ts db e active full none_yet five wrong now sid pin before =
    let (w, row, a, hash, lock) =
      locked_after c username u ts 0 0 u db e full
        (record {
          active = active;
          hash = refl;
          salt = refl;
          iters = refl;
          count = none_yet;
          same_lock = refl;
        })
        (omega arith) (omega arith) wrong in
    locked_row c now _ sid username pin w (try_all c username ts db) row a (rw hash full) lock
      before

admit-other :
    (now : ℕ) (sid : Option Text) (name other : Text) (u : User) (db : Database)
    → other ≢ name
    → get_dashboard_user other (admit now sid name u db).1 ≡ get_dashboard_user other db
unfolding admit record_login_success create_session get_dashboard_user update_where
admit-other now none name other u db ne =
    first_user-update_other name other _ db.users (λ v. refl) ne
admit-other now (some x) name other u db ne =
    first_user-update_other name other _ db.users (λ v. refl) ne

refuse-other :
    (now : ℕ) (name other : Text) (u : User) (db : Database)
    → other ≢ name
    → get_dashboard_user other (refuse now name u db).1 ≡ get_dashboard_user other db
unfolding refuse get_dashboard_user update_where count_failure
refuse-other now name other u db ne =
    first_user-update_other name other (count_failure now) db.users (λ v. ground arith) ne

decide-other :
    (c : Crypto) (now : ℕ) (sid : Option Text) (name pin other : Text) (u : User) (db : Database)
    → other ≢ name
    → get_dashboard_user other (decide c now sid name pin u db).1 ≡ get_dashboard_user other db
unfolding decide
decide-other c now sid name pin other u db ne = elim (Option-cases (check_pin c pin u)) [
  | inl e ↦ rw (e, decide) refl
  | inr (true, e) ↦ rw (e, decide) (admit-other now sid name other u db ne)
  | inr (false, e) ↦ rw (e, decide) (refuse-other now name other u db ne)
]

login_row-other :
    (c : Crypto) (now : ℕ) (sid : Option Text) (name pin other : Text) (u : User) (db : Database)
    → other ≢ name
    → get_dashboard_user other (login_row c now sid name pin u db).1 ≡ get_dashboard_user other db
unfolding login_row
login_row-other c now sid name pin other u db ne =
    ground (arith, decide-other c now sid name pin other u db ne)

-- Whatever is tried under one name, the row of another name stays as it is, with its count of failures
-- and its lock.
pub login_as-other :
    (c : Crypto) (now : ℕ) (sid : Option Text) (username pin other : Text) (db : Database)
    → other ≢ to_lower (trim_space username)
    → get_dashboard_user other (login_as c now sid username pin db).1 ≡ get_dashboard_user other db
unfolding login_as
login_as-other c now sid username pin other db ne =
    elim (Option-cases (get_dashboard_user (to_lower (trim_space username)) db)) [
      | inl e ↦ rw (e, login_as) refl
      | inr (u, e) ↦ rw (e, login_as) (login_row-other c now sid _ pin other u db ne)
    ]

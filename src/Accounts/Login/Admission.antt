-- ===== src/Accounts/Login/Admission.antt =====
-- internal/auth/users.go, LoginAs: who is signed in, and the session that this opens.
use fuelmind.Base.{
  ap, ◌∙◌, ℕ, ◌+◌, ◌≤◌, ◌≡◌, refl, true, false, any, inl, inr, Bool-cases, Option, some, none,
  Option-cases, Text, text_eq, to_lower, trim_space, is_empty,
}
use mathlib.Core.Path.{subst}
use fuelmind.Accounts.{User, Database}
use fuelmind.Accounts.Login.{
  login, only_session, owner_username, Crypto, Login, signed_in, login_as, login_row, decide, admit,
  refuse, check_pin, is_locked, verify, get_dashboard_user, session_ttl, record_login_success,
  create_session, locks,
}
use fuelmind.Accounts.Login.Lockout.{IsOpen, login_row-open}
use fuelmind.Accounts.Login.Sessions.{verify-created}

-- Where the answer is a session: the row, its guards, the PIN, and the tables.
abbrev Admits : Crypto → ℕ → Text → Text → Database → Login × Database → Type 0
Admits c now name pin db (signed_in s v, db') =
    (u : User) × (get_dashboard_user name db ≡ some u)
    × IsOpen now u
    × (check_pin c pin u ≡ some true)
    × (db' ≡ create_session now s u.id (now + session_ttl) (record_login_success now name db))
Admits c now name pin db (answer, db') = Unit

refuse-Admits :
    (c : Crypto) (now : ℕ) (name pin : Text) (u : User) (db : Database)
    → Admits c now name pin db (refuse now name u db)
unfolding refuse
refuse-Admits c now name pin u db = elim (Bool-cases (locks u)) [
  | inl e ↦ rw e tt
  | inr e ↦ rw e tt
]

admit-Admits :
    (c : Crypto) (now : ℕ) (sid : Option Text) (name pin : Text) (u : User) (db : Database)
    → get_dashboard_user name db ≡ some u
    → IsOpen now u
    → check_pin c pin u ≡ some true
    → Admits c now name pin db (admit now sid name u db)
unfolding admit
admit-Admits c now none name pin u db row h e = tt
admit-Admits c now (some s) name pin u db row h e = (u, row, h, e, refl)

row-Admits :
    (c : Crypto) (now : ℕ) (sid : Option Text) (name pin : Text) (u : User) (db : Database)
    → get_dashboard_user name db ≡ some u
    → IsOpen now u
    → Admits c now name pin db (decide c now sid name pin u db)
unfolding decide
row-Admits c now sid name pin u db row h = elim (Option-cases (check_pin c pin u)) [
  | inl e ↦ rw (e, decide) tt
  | inr (false, e) ↦ rw (e, decide) (refuse-Admits c now name pin u db)
  | inr (true, e) ↦ rw (e, decide) (admit-Admits c now sid name pin u db row h e)
]

login_row-Admits :
    (c : Crypto) (now : ℕ) (sid : Option Text) (name pin : Text) (u : User) (db : Database)
    → get_dashboard_user name db ≡ some u
    → Admits c now name pin db (login_row c now sid name pin u db)
unfolding login_row
login_row-Admits c now sid name pin u db row = elim (Bool-cases u.is_active) [
  | inr e ↦ simp e tt
  | inl a ↦ elim (Bool-cases (is_empty u.pin_hash)) [
    | inl e ↦ simp (a, e) tt
    | inr p ↦ elim (Bool-cases (is_locked now u)) [
      | inl e ↦ simp (a, p, e) tt
      | inr l ↦
          let h : IsOpen now u = record { active = a; has_pin = p; unlocked = l } in
          rw (login_row-open c now sid name pin u db h) (row-Admits c now sid name pin u db row h)
    ]
  ]
]

login_as-Admits :
    (c : Crypto) (now : ℕ) (sid : Option Text) (username pin : Text) (db : Database)
    → Admits c now (to_lower (trim_space username)) pin db (login_as c now sid username pin db)
unfolding login_as
login_as-Admits c now sid username pin db =
    elim (Option-cases (get_dashboard_user (to_lower (trim_space username)) db)) [
      | inl e ↦ rw (e, login_as) tt
      | inr (u, e) ↦ rw (e, login_as) (login_row-Admits c now sid _ pin u db e)
    ]

-- Whoever is signed in has given the right PIN for an account that is switched on, has a PIN and is
-- not locked, and the session lets in that account, and goes on doing so for 24 hours, if its id is
-- not empty and not in use.
pub signed_in_by_pin :
    (c : Crypto) (now : ℕ) (sid : Option Text) (username pin s : Text) (v : User)
    (db db' : Database)
    → login_as c now sid username pin db ≡ (signed_in s v, db')
    → is_empty s ≡ false
    → any (λ x. text_eq x.id s) db.sessions ≡ false
    → (t : ℕ) → t ≤ now + session_ttl
    → (u : User) × (get_dashboard_user (to_lower (trim_space username)) db ≡ some u)
      × IsOpen now u
      × (check_pin c pin u ≡ some true)
      × (verify t s db' ≡ some u.id)
unfolding record_login_success
signed_in_by_pin c now sid username pin s v db db' done full fresh t le =
    let (u, row, h, right, e) =
      subst (Admits c now (to_lower (trim_space username)) pin db) done
        (login_as-Admits c now sid username pin db) in
    (
      u,
      row,
      h,
      right,
      ap (verify t s) e ∙ verify-created now t (now + session_ttl) u.id s _ full fresh le,
    )

-- The sign-in with a PIN alone is the sign-in under the owner's name, wherever there is an owner.
pub login-login_as :
    (c : Crypto) (now : ℕ) (sid : Option Text) (pin : Text) (u : User) (db : Database)
    → get_dashboard_user owner_username db ≡ some u
    → login c now sid pin db ≡ only_session (login_as c now sid owner_username pin db)
unfolding login login_as to_lower trim_space
login-login_as c now sid pin u db e = rw (e, login, login_as) refl

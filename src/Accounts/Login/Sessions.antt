-- ===== src/Accounts/Login/Sessions.antt =====
-- internal/auth and internal/storage: whom a session lets in, and when it ends.
use fuelmind.Base.{
  ℕ, ◌≤◌, ◌≡◌, ◌≢◌, refl, Bool, true, false, not, List, [], ◌∷◌, ◌++◌, arith, ap, sym, ◌∙◌, ◌==◌,
  ltb, any, keep_if, inl, inr, Bool-cases, Option, some, none, Option-cases, Text, text_eq,
  text_eq_refl, to_lower, trim_space, is_empty, byte_len, ◌⊎◌,
}
use mathlib.Core.Path.{subst}
use fuelmind.Accounts.Login.Lockout.{first_user-update_where}
use mathlib.Core.Option.{some-injective}
use fuelmind.Accounts.{
  User, Session, Database, Result, ok, err, has_id, has_name, first_user, update_where, user_by_id,
  set_user, delete_sessions_for_user,
}
use fuelmind.Accounts.Login.{
  Crypto, verify, lookup_session, first_session, current_user, create_session, get_dashboard_user,
  set_pin_for, set_dashboard_user_pin, min_pin_length, with_pin, default_iterations,
}

first_session-append :
    (sid : Text) (ss : List Session) (s : Session)
    → any (λ x. text_eq x.id sid) ss ≡ false
    → text_eq s.id sid ≡ true
    → first_session sid (ss ++ s ∷ []) ≡ some s
unfolding first_session
first_session-append sid [] s h e = ground arith
first_session-append sid (x ∷ ss) s h e = ground (arith, first_session-append sid ss s)

any-keep_if :
    (p q : Session → Bool) (ss : List Session) → any p ss ≡ false → any p (keep_if q ss) ≡ false
any-keep_if p q [] h = refl
any-keep_if p q (s ∷ ss) h = ground (arith, any-keep_if p q ss)

lookup_created :
    (now t expires user_id : ℕ) (sid : Text) (db : Database)
    → any (λ s. text_eq s.id sid) db.sessions ≡ false
    → t ≤ expires
    → lookup_session t sid (create_session now sid user_id expires db) ≡ some user_id
unfolding create_session lookup_session
lookup_created now t expires user_id sid db fresh le =
    rw
      (
        first_session-append sid (keep_if (λ s. not (ltb s.expires_at now)) db.sessions)
            (record { id = sid; user_id = user_id; expires_at = expires })
            (any-keep_if (λ s. text_eq s.id sid) (λ s. not (ltb s.expires_at now)) db.sessions
              fresh)
            (text_eq_refl sid),
        lookup_session,
      )
      (ground arith)

pub verify-created :
    (now t expires user_id : ℕ) (sid : Text) (db : Database)
    → is_empty sid ≡ false
    → any (λ s. text_eq s.id sid) db.sessions ≡ false
    → t ≤ expires
    → verify t sid (create_session now sid user_id expires db) ≡ some user_id
unfolding verify
verify-created now t expires user_id sid db full fresh le =
    rw full (lookup_created now t expires user_id sid db fresh le)

first_user-found :
    (i : ℕ) (us : List User) (u : User) → first_user (has_id i) us ≡ some u → u.id ≡ i
unfolding first_user
first_user-found i [] u h = absurd (ground arith)
first_user-found i (v ∷ us) u h = ground (arith, first_user-found i us u)

switched_off :
    (i : ℕ) (f : User → User) (us : List User) (u : User)
    → ((v : User) → (f v).id ≡ v.id)
    → ((v : User) → (f v).is_active ≡ false)
    → first_user (has_id i) (update_where (has_id i) f us) ≡ some u
    → u.is_active ≡ false
unfolding first_user update_where
switched_off i f [] u keeps off h = absurd (ground arith)
switched_off i f (v ∷ us) u keeps off h = elim (Bool-cases (v.id == i)) [
  | inl e ↦ ground (arith, keeps v, off v)
  | inr e ↦ ground (arith, switched_off i f us u keeps off)
]

-- What CurrentUser has found out where it answers.
current_user_cases :
    (t : ℕ) (sid : Text) (db : Database)
    → (current_user t sid db ≡ none)
      ⊎ ((u : User) × (current_user t sid db ≡ some u)
          × (u.is_active ≡ true)
          × (verify t sid db ≡ some u.id)
          × (user_by_id u.id db ≡ some u))
unfolding current_user user_by_id
current_user_cases t sid db = elim (Option-cases (verify t sid db)) [
  | inl e ↦ inl (rw (e, current_user) refl)
  | inr (i, e) ↦ elim (Option-cases (first_user (has_id i) db.users)) [
    | inl f ↦ inl (rw (e, current_user) (rw f refl))
    | inr (u, f) ↦ elim (Bool-cases u.is_active) [
      | inr off ↦ inl (rw (e, current_user) (rw f (ground (arith, off))))
      | inl on ↦
          let same : u.id ≡ i = first_user-found i db.users u f in
          inr (
            u,
            rw (e, current_user) (rw f (ground (arith, on))),
            on,
            rw same e,
            ap (λ k. first_user (has_id k) db.users) same ∙ f,
          )
    ]
  ]
]

same_id : (v u : User) → some v ≡ some u → v.id ≡ u.id
same_id v u e = ap (λ x. x.id) (some-injective v u e)

-- Nobody is let in whose account has been switched off, whichever session they hold.
pub current_user-set_user :
    (t i : ℕ) (sid display_name role : Text) (db : Database) (u : User)
    → current_user t sid (set_user i display_name role false db) ≡ some u
    → u.id ≢ i
unfolding user_by_id set_user
current_user-set_user t i sid display_name role db u h e =
    elim (current_user_cases t sid (set_user i display_name role false db)) [
      | inl out ↦ absurd (ground arith)
      | inr (v, found, on, _, row) ↦
          let key : v.id ≡ i = same_id v u (sym found ∙ h) ∙ e in
          let off : v.is_active ≡ false =
            switched_off i _ db.users v (λ x. refl) (λ x. refl)
              (ap (λ k. user_by_id k (set_user i display_name role false db)) (sym key) ∙ row) in
          absurd (ground arith)
    ]

-- Signing somebody out everywhere leaves no session that is theirs.
any-delete_sessions :
    (i : ℕ) (db : Database)
    → any (λ s. s.user_id == i) (delete_sessions_for_user i db).sessions ≡ false
unfolding delete_sessions_for_user
any-delete_sessions i db = none_left db.sessions
  where
    none_left :
        (ss : List Session)
        → any (λ s. s.user_id == i) (keep_if (λ s. not (s.user_id == i)) ss) ≡ false
    none_left [] = refl
    none_left (s ∷ ss) = ground (arith, none_left ss)

first_session-user :
    (sid : Text) (ss : List Session) (s : Session) (i : ℕ)
    → any (λ x. x.user_id == i) ss ≡ false
    → first_session sid ss ≡ some s
    → s.user_id ≢ i
unfolding first_session
first_session-user sid [] s i h e = absurd (ground arith)
first_session-user sid (x ∷ ss) s i h e = ground (arith, first_session-user sid ss s i)

verify-signed_out :
    (t i : ℕ) (sid : Text) (db : Database)
    → any (λ s. s.user_id == i) db.sessions ≡ false
    → verify t sid db ≢ some i
unfolding verify lookup_session
verify-signed_out t i sid db out h = elim (Option-cases (first_session sid db.sessions)) [
  | inl e ↦ ground arith
  | inr (s, e) ↦ ground (arith, first_session-user sid db.sessions s i out e)
]

first_name-id :
    (name : Text) (f : User → User) (us : List User) (u v : User)
    → ((x : User) → (f x).id ≡ x.id)
    → ((x : User) → (f x).username ≡ x.username)
    → first_user (has_name name) us ≡ some u
    → first_user (has_name name) (update_where (has_name name) f us) ≡ some v
    → v.id ≡ u.id
unfolding first_user update_where
first_name-id name f [] u v ids names h k = absurd (ground arith)
first_name-id name f (x ∷ us) u v ids names h k = elim (Bool-cases (text_eq x.username name)) [
  | inl e ↦ ground (arith, ids x, names x)
  | inr e ↦ ground (arith, first_name-id name f us u v ids names)
]

abbrev SignedOut : ℕ → Result Database → Type 0
SignedOut i (ok db) = any (λ s. s.user_id == i) db.sessions ≡ false
SignedOut i (err e) = Unit

set_pin_for-SignedOut :
    (c : Crypto) (salt : Option Text) (username pin : Text) (db : Database) (u : User)
    → to_lower (trim_space username) ≡ username
    → get_dashboard_user username db ≡ some u
    → SignedOut u.id (set_pin_for c salt username pin db)
unfolding set_pin_for set_dashboard_user_pin get_dashboard_user
set_pin_for-SignedOut c none username pin db u same row = ground arith
set_pin_for-SignedOut c (some bytes) username pin db u same row =
    elim (Bool-cases (ltb (byte_len pin) min_pin_length)) [
      | inl short ↦ rw short tt
      | inr long ↦ elim (Bool-cases (any (has_name (to_lower (trim_space username))) db.users)) [
        | inr unknown ↦ rw (long, unknown) tt
        | inl known ↦
            rw (long, known)
              (rw
                (same_row (to_lower (trim_space username))
                  (with_pin (c.encode (c.pbkdf2 pin bytes default_iterations)) (c.encode bytes)
                    default_iterations)
                  same (λ v. refl))
                (any-delete_sessions u.id db))
      ]
    ]
  where
    same_row :
        (name : Text) (f : User → User)
        → name ≡ username
        → ((v : User) → (f v).username ≡ v.username)
        → first_user (has_name username) (update_where (has_name name) f db.users) ≡ some (f u)
    same_row name f e keeps =
        ap (λ n. first_user (has_name username) (update_where (has_name n) f db.users)) e
        ∙ first_user-update_where username f db.users u keeps row

-- Setting somebody's PIN under a name that is trimmed and in lower case, as names are stored, signs
-- them out everywhere: no session that was theirs lets them in.
pub set_pin_for_signs_out :
    (c : Crypto) (salt : Option Text) (username pin : Text) (db db' : Database) (u : User)
    → to_lower (trim_space username) ≡ username
    → get_dashboard_user username db ≡ some u
    → set_pin_for c salt username pin db ≡ ok db'
    → (t : ℕ) (sid : Text) → verify t sid db' ≢ some u.id
set_pin_for_signs_out c salt username pin db db' u same row done t sid =
    verify-signed_out t u.id sid db'
      (subst (SignedOut u.id) done (set_pin_for-SignedOut c salt username pin db u same row))

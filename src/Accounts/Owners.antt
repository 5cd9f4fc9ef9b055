-- ===== src/Accounts/Owners.antt =====
-- internal/storage/audit.go: the station always has somebody who can administer it.
use fuelmind.Base.{
  ◌⊎◌, ℕ, ◌+◌, ◌<◌, ◌≡◌, refl, Bool, true, false, not, ◌||◌, ◌&&◌, List, [], ◌∷◌, arith, ◌==◌, any,
  any-append, keep_if, All-append, All-keep_if, inl, inr, Bool-cases, some, none, Text, text_eq,
  Option-cases, to_lower, trim_space, is_empty,
}
use fuelmind.Accounts.{
  User, Database, Result, ok, err, Error, not_found, last_owner, has_id, update_where, first_user,
  is_active_owner, role_owner, is_last_active_owner, user_by_id, owner_guard, update_user,
  delete_user, create_user, set_user, remove_user, valid_role, has_name,
}
use fuelmind.Accounts.Keys.{
  IsKeyed, IsBelow, update_where-IsKeyed, update_where-IsBelow, keep_if-IsKeyed, append-IsKeyed,
  IsBelow-later,
}

-- Somebody other than `i` can administer the station.
abbrev other_owner : ℕ → User → Bool
other_owner i v = is_active_owner v && not (v.id == i)

-- The keys are in order, and there is an active owner.
pub record IsAdministered (db : Database) : Type 0 where
  pub keyed : IsKeyed db.users
  pub below : IsBelow db.next_id db.users
  pub has_owner : any is_active_owner db.users ≡ true

other_owner_rest :
    (i : ℕ) (us : List User)
    → any (has_id i) us ≡ false
    → any is_active_owner us ≡ true
    → any (other_owner i) us ≡ true
other_owner_rest i [] k h = h
other_owner_rest i (u ∷ us) k h = elim (Bool-cases (is_active_owner u)) [
  | inl e ↦ ground arith
  | inr e ↦ ground (arith, other_owner_rest i us (ground arith) (ground arith))
]

-- Where the row of `i` is no owner, the active owner is another row.
other_owner_exists :
    (i : ℕ) (u : User) (us : List User)
    → IsKeyed us
    → first_user (has_id i) us ≡ some u
    → text_eq u.role role_owner ≡ false
    → any is_active_owner us ≡ true
    → any (other_owner i) us ≡ true
unfolding first_user
other_owner_exists i u [] k f r h = h
other_owner_exists i u (v ∷ us) k f r h = elim (Bool-cases (v.id == i)) [
  | inl e ↦ ground (arith, other_owner_rest i us)
  | inr e ↦ ground (arith, other_owner_exists i u us k.1)
]

last_cases :
    (i : ℕ) (db : Database)
    → IsAdministered db
    → (is_last_active_owner i db ≡ none)
      ⊎ (is_last_active_owner i db ≡ some true)
      ⊎ ((is_last_active_owner i db ≡ some false) × (any (other_owner i) db.users ≡ true))
unfolding is_last_active_owner user_by_id
last_cases i db h = elim (Option-cases (first_user (has_id i) db.users)) [
  | inl e ↦ inl (rw (e, is_last_active_owner) refl)
  | inr (u, e) ↦ elim (Bool-cases (text_eq u.role role_owner)) [
    | inr r ↦ inr (
        inr (
          rw (e, is_last_active_owner) (rw r refl),
          other_owner_exists i u db.users h.keyed e r h.has_owner,
        ))
    | inl r ↦ elim (Bool-cases (any (other_owner i) db.users)) [
      | inl o ↦ inr (inr (rw (e, is_last_active_owner) (rw (r, o) refl), o))
      | inr o ↦ inr (inl (rw (e, is_last_active_owner) (rw (r, o) refl)))
    ]
  ]
]

-- To prove something of a guarded change, prove it of every error, and of the change where somebody
-- else can administer the station.
module _ {ℓ} (P : Result Database → Type ℓ) where
  owner_guard_rule :
      (i : ℕ) (db : Database) (change : Result Database)
      → IsAdministered db
      → ((e : Error) → P (err e))
      → (any (other_owner i) db.users ≡ true → P change)
      → P (owner_guard i db change)
  unfolding owner_guard
  owner_guard_rule i db change h bad good = elim (last_cases i db h) [
    | inl e ↦ rw (e, owner_guard) (bad not_found)
    | inr (inl e) ↦ rw (e, owner_guard) (bad last_owner)
    | inr (inr (e, o)) ↦ rw (e, owner_guard) (good o)
  ]

others-update_where :
    (i : ℕ) (f : User → User) (us : List User)
    → any (other_owner i) us ≡ true
    → any is_active_owner (update_where (has_id i) f us) ≡ true
unfolding update_where
others-update_where i f [] h = h
others-update_where i f (u ∷ us) h = elim (Bool-cases (u.id == i)) [
  | inl e ↦ rw e (ground (arith, others-update_where i f us))
  | inr e ↦ rw e (ground (arith, others-update_where i f us))
]

promoted-update_where :
    (i : ℕ) (f : User → User) (us : List User)
    → ((u : User) → is_active_owner (f u) ≡ true)
    → any is_active_owner us ≡ true
    → any is_active_owner (update_where (has_id i) f us) ≡ true
unfolding update_where
promoted-update_where i f [] p h = h
promoted-update_where i f (u ∷ us) p h = elim (Bool-cases (u.id == i)) [
  | inl e ↦ rw (e, p u) refl
  | inr e ↦ rw e (ground (arith, promoted-update_where i f us p))
]

others-keep_if :
    (i : ℕ) (us : List User)
    → any (other_owner i) us ≡ true
    → any is_active_owner (keep_if (λ u. not (u.id == i)) us) ≡ true
others-keep_if i [] h = h
others-keep_if i (u ∷ us) h = elim (Bool-cases (u.id == i)) [
  | inl e ↦ rw e (ground (arith, others-keep_if i us))
  | inr e ↦ rw e (ground (arith, others-keep_if i us))
]

set_user-IsAdministered :
    (i : ℕ) (display_name role : Text) (active : Bool) (db : Database)
    → IsAdministered db
    → any is_active_owner (set_user i display_name role active db).users ≡ true
    → IsAdministered (set_user i display_name role active db)
unfolding set_user
set_user-IsAdministered i display_name role active db h owner = record {
  keyed = update_where-IsKeyed _ _ (λ u. refl) db.users h.keyed;
  below = update_where-IsBelow _ _ (λ u. refl) db.next_id db.users h.below;
  has_owner = owner;
}

-- What a page of the dashboard asks for.
pub data Change : Type 0 where
  create : Text → Text → Text → Change
  update : ℕ → Text → Text → Bool → Change
  delete : ℕ → Change

-- The tables after a change, which an error leaves as they were.
abbrev settled : Database → Result Database → Database
settled db (ok db') = db'
settled db (err e) = db

abbrev created : Database → Result (ℕ × Database) → Database
created db (ok (i, db')) = db'
created db (err e) = db

unfoldable pub apply : Change → Database → Database
apply (create name display_name role) db = created db (create_user name display_name role db)
apply (update i display_name role active) db =
    settled db (update_user i display_name role active db)
apply (delete i) db = settled db (delete_user i db)

create_user-IsAdministered :
    (name display_name role : Text) (db : Database)
    → IsAdministered db
    → IsAdministered (created db (create_user name display_name role db))
unfolding create_user
create_user-IsAdministered name display_name role db h =
    elim (Bool-cases (is_empty (to_lower (trim_space name)))) [
      | inl e ↦ rw e h
      | inr e ↦ elim (Bool-cases (valid_role role)) [
        | inr r ↦ rw (e, r) h
        | inl r ↦ elim (Bool-cases (any (has_name (to_lower (trim_space name))) db.users)) [
          | inl t ↦ rw (e, r, t) h
          | inr t ↦
              rw (e, r, t)
                (record {
                  keyed = append-IsKeyed db.users _ h.below h.keyed;
                  below =
                      All-append (λ u. u.id < db.next_id + 1) db.users _
                        (IsBelow-later db.next_id (db.next_id + 1) db.users (omega arith) h.below)
                        (omega arith, tt);
                  has_owner = rw (any-append is_active_owner db.users _, h.has_owner) refl;
                })
        ]
      ]
    ]

guarded-IsAdministered :
    (i : ℕ) (display_name role : Text) (active : Bool) (db : Database)
    → IsAdministered db
    → IsAdministered (settled db (owner_guard i db (ok (set_user i display_name role active db))))
unfolding set_user
guarded-IsAdministered i display_name role active db h =
    owner_guard_rule (λ r. IsAdministered (settled db r)) i db _ h (λ e. h)
      (λ o.
        set_user-IsAdministered i display_name role active db h
          (others-update_where i _ db.users o))

promoted-IsAdministered :
    (i : ℕ) (display_name role : Text) (db : Database)
    → text_eq role role_owner ≡ true
    → IsAdministered db
    → IsAdministered (set_user i display_name role true db)
unfolding set_user
promoted-IsAdministered i display_name role db r h =
    set_user-IsAdministered i display_name role true db h
      (promoted-update_where i _ db.users (λ u. rw r refl) h.has_owner)

update_user-IsAdministered :
    (i : ℕ) (display_name role : Text) (active : Bool) (db : Database)
    → IsAdministered db
    → IsAdministered (settled db (update_user i display_name role active db))
unfolding update_user
update_user-IsAdministered i display_name role active db h = elim (Bool-cases (valid_role role)) [
  | inr v ↦ rw v h
  | inl v ↦ elim (Bool-cases (text_eq role role_owner && active)) [
    | inl o ↦ elim (Bool-cases active) [
      | inl a ↦ elim (Bool-cases (text_eq role role_owner)) [
        | inl r ↦ rw (v, r, a) (promoted-IsAdministered i display_name role db r h)
        | inr r ↦ absurd (ground arith)
      ]
      | inr a ↦ absurd (ground arith)
    ]
    | inr o ↦
        let guarded : (not (text_eq role role_owner) || not active) ≡ true = ground arith in
        rw (v, guarded) (guarded-IsAdministered i display_name role active db h)
  ]
]

delete_user-IsAdministered :
    (i : ℕ) (db : Database) → IsAdministered db → IsAdministered (settled db (delete_user i db))
unfolding delete_user remove_user
delete_user-IsAdministered i db h =
    owner_guard_rule (λ r. IsAdministered (settled db r)) i db _ h (λ e. h)
      (λ o. record {
        keyed = keep_if-IsKeyed _ db.users h.keyed;
        below = All-keep_if (λ u. u.id < db.next_id) _ db.users h.below;
        has_owner = others-keep_if i db.users o;
      })

pub apply-IsAdministered :
    (c : Change) (db : Database) → IsAdministered db → IsAdministered (apply c db)
unfolding apply
apply-IsAdministered (create name display_name role) db h =
    create_user-IsAdministered name display_name role db h
apply-IsAdministered (update i display_name role active) db h =
    update_user-IsAdministered i display_name role active db h
apply-IsAdministered (delete i) db h = delete_user-IsAdministered i db h

-- Any number of them, one after the other.
unfoldable pub administer : List Change → Database → Database
administer [] db = db
administer (c ∷ cs) db = administer cs (apply c db)

-- Whatever accounts are created, changed and deleted, in whatever order and with whatever roles, a
-- station whose keys are in order and that has an active owner keeps both.
pub administer-IsAdministered :
    (cs : List Change) (db : Database) → IsAdministered db → IsAdministered (administer cs db)
unfolding administer
administer-IsAdministered [] db h = h
administer-IsAdministered (c ∷ cs) db h =
    administer-IsAdministered cs (apply c db) (apply-IsAdministered c db h)

-- ===== src/Accounts/Keys.antt =====
-- internal/storage/audit.go: the rows of dashboard_users and their primary key.
use fuelmind.Base.{
  ℕ, ◌<◌, ◌≤◌, ◌≡◌, refl, Bool, false, List, [], ◌∷◌, ◌++◌, arith, any, any-append, keep_if, All,
}
use fuelmind.Accounts.{User, has_id, update_where}

-- No key twice.
abbrev pub IsKeyed : List User → Type 0
IsKeyed [] = Unit {0}
IsKeyed (u ∷ us) = (any (has_id u.id) us ≡ false) × IsKeyed us

-- Every key is older than `n`.
abbrev pub IsBelow : ℕ → List User → Type 0
IsBelow n us = All (λ u. u.id < n) us

module _ (p : User → Bool) (f : User → User) (keeps : (u : User) → (f u).id ≡ u.id) where
  any_id-update_where :
      (j : ℕ) (us : List User) → any (has_id j) (update_where p f us) ≡ any (has_id j) us
  unfolding update_where
  any_id-update_where j [] = refl
  any_id-update_where j (u ∷ us) = ground (arith, any_id-update_where j us, keeps u)

  pub update_where-IsKeyed : (us : List User) → IsKeyed us → IsKeyed (update_where p f us)
  unfolding update_where
  update_where-IsKeyed [] h = h
  update_where-IsKeyed (u ∷ us) h =
      ground (arith, any_id-update_where u.id us, keeps u, update_where-IsKeyed us h.1)

  pub update_where-IsBelow :
      (n : ℕ) (us : List User) → IsBelow n us → IsBelow n (update_where p f us)
  unfolding update_where
  update_where-IsBelow n [] h = h
  update_where-IsBelow n (u ∷ us) h = ground (arith, keeps u, update_where-IsBelow n us h.1)

any_id-keep_if :
    (j : ℕ) (p : User → Bool) (us : List User)
    → any (has_id j) us ≡ false
    → any (has_id j) (keep_if p us) ≡ false
any_id-keep_if j p [] h = refl
any_id-keep_if j p (u ∷ us) h = ground (arith, any_id-keep_if j p us (ground arith))

pub keep_if-IsKeyed : (p : User → Bool) (us : List User) → IsKeyed us → IsKeyed (keep_if p us)
keep_if-IsKeyed p [] h = h
keep_if-IsKeyed p (u ∷ us) h =
    ground (arith, any_id-keep_if u.id p us h.0, keep_if-IsKeyed p us h.1)

pub fresh_key : (n : ℕ) (us : List User) → IsBelow n us → any (has_id n) us ≡ false
fresh_key n [] h = refl
fresh_key n (u ∷ us) h = ground (arith, fresh_key n us h.1, h.0)

pub append-IsKeyed :
    (us : List User) (u : User) → IsBelow u.id us → IsKeyed us → IsKeyed (us ++ u ∷ [])
append-IsKeyed [] u b h = (refl, tt)
append-IsKeyed (v ∷ us) u b h =
    (ground (arith, any-append (has_id v.id) us (u ∷ []), h.0, b.0), append-IsKeyed us u b.1 h.1)

pub IsBelow-later : (n m : ℕ) (us : List User) → n ≤ m → IsBelow n us → IsBelow m us
IsBelow-later n m [] le h = tt
IsBelow-later n m (u ∷ us) le h = (omega (arith, h.0), IsBelow-later n m us le h.1)

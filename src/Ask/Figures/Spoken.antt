-- ===== src/Ask/Figures/Spoken.antt =====
-- internal/llm/router.go, ungroundedNumbers: no digit of a reply escapes the check.
use fuelmind.Base.{
  ap, ◌∙◌, ℕ, zero, suc, ◌-◌, ◌≡◌, refl, Bool, true, false, not, List, [], ◌∷◌, ◌++◌, inl, inr,
  arith, Text, is_digit, length, drop, keep_if, All, Bool-cases, if◌then◌else◌,
}
use mathlib.Core.Path.{subst}
use fuelmind.Ask.{Float, MartContext}
use fuelmind.Ask.Figures.Shares.{Shared, percents-Shared}
use fuelmind.Ask.Figures.Front.{number_at_rest}
use fuelmind.Ask.Figures.{
  number_at, numbers, percents, blank_percents, plain_reply, allowed_numbers, is_allowed,
  is_plain_allowed, ungrounded_numbers,
}

-- A text of characters that are no digits, and of numbers that are as `P` says.
pub data Spoken (P : Text → Type 0) : Text → Type 0 where
  silence : Spoken P []
  other : (c : ℕ) (s : Text) → is_digit c ≡ false → Spoken P s → Spoken P (c ∷ s)
  figure : (n s t : Text) → t ≡ n ++ s → P n → Spoken P s → Spoken P t

if_true {ℓ} : {A : Type ℓ} (b : Bool) (x y : A) → b ≡ true → (if b then x else y) ≡ x
if_true b x y h = rw h refl

numbers_digit :
    (c : ℕ) (s : Text)
    → is_digit c ≡ true
    → numbers 0 (c ∷ s) ≡ number_at (c ∷ s) ∷ numbers (length (number_at (c ∷ s)) - 1) s
unfolding numbers
numbers_digit c s h =
    let n = number_at (c ∷ s) in
    let rest = numbers (if is_digit c then length n - 1 else 0) s in
    if_true (is_digit c) (n ∷ rest) rest h
    ∙ ap (λ k. n ∷ numbers k s) (if_true (is_digit c) (length n - 1) 0 h)

numbers-Spoken : (P : Text → Type 0) (k : ℕ) (s : Text) → All P (numbers k s) → Spoken P (drop k s)
unfolding numbers
numbers-Spoken P zero [] h = silence
numbers-Spoken P (suc k) [] h = silence
numbers-Spoken P (suc k) (c ∷ s) h = numbers-Spoken P k s h
numbers-Spoken P zero (c ∷ s) h = elim (Bool-cases (is_digit c)) [
  | inr e ↦ other c s e (numbers-Spoken P 0 s (rw e at h))
  | inl e ↦
      let both = subst (All P) (numbers_digit c s e) h in
      figure (number_at (c ∷ s)) (drop (length (number_at (c ∷ s)) - 1) s) (c ∷ s)
        (number_at_rest c s e) both.0 (numbers-Spoken P (length (number_at (c ∷ s)) - 1) s both.1)
]

append_nil : (xs ys : List Text) → xs ++ ys ≡ [] → (xs ≡ []) × (ys ≡ [])
append_nil [] ys e = (refl, e)
append_nil (x ∷ xs) ys e = absurd (ground arith)

keep_if_nothing :
    (p : Text → Bool) (xs : List Text) → keep_if (λ n. not (p n)) xs ≡ [] → All (λ n. p n ≡ true) xs
keep_if_nothing p [] e = tt
keep_if_nothing p (x ∷ xs) e = elim (Bool-cases (p x)) [
  | inl t ↦ (t, keep_if_nothing p xs (rw t at e))
  | inr t ↦ absurd (ground arith)
]

-- The percentages of a reply, each replaced by a space, are figures of the context, also one that is
-- not set and 0 there. All else of it, but
-- for the dates of the context, is made of characters that are no digits and of figures of the context
-- or of a period.
pub record IsGrounded (f : Float) (reply : Text) (c : MartContext f.Amount) : Type 0 where
  pub shares :
      Shared (λ n. is_allowed f (allowed_numbers f c) n ≡ true) reply (blank_percents 0 reply)
  pub figures :
      Spoken (λ n. is_plain_allowed f (allowed_numbers f c) n ≡ true) (plain_reply f reply c)

pub ungrounded_numbers-IsGrounded :
    (f : Float) (reply : Text) (c : MartContext f.Amount)
    → ungrounded_numbers f reply c ≡ []
    → IsGrounded f reply c
unfolding ungrounded_numbers
ungrounded_numbers-IsGrounded f reply c e =
    let (a, b) = append_nil _ _ e in
    let allowed = allowed_numbers f c in
    record {
      shares =
          percents-Shared (λ n. is_allowed f allowed n ≡ true) 0 reply
            (keep_if_nothing (is_allowed f allowed) (percents 0 reply) a);
      figures =
          numbers-Spoken (λ n. is_plain_allowed f allowed n ≡ true) 0 (plain_reply f reply c)
            (keep_if_nothing (is_plain_allowed f allowed) (numbers 0 (plain_reply f reply c)) b);
    }

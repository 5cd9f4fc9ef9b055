-- ===== src/Ask/Figures/Front.antt =====
-- internal/llm/router.go, reNumber: a match stands at the front of the text.
use fuelmind.Base.{
  ap, ◌∙◌, ℕ, ◌-◌, ◌≡◌, refl, true, [], ◌∷◌, ◌++◌, arith, Text, is_digit, length, drop,
}
use mathlib.Core.Path.{sym}
use mathlib.Core.List.{append_assoc}
use fuelmind.Ask.Figures.{digit_run, digits_only, fraction, number_at}

pub drop_all : (p u : Text) → drop (length p) (p ++ u) ≡ u
drop_all [] u = refl
drop_all (c ∷ p) u = drop_all p u

digit_run_front : (s : Text) → s ≡ digit_run s ++ drop (length (digit_run s)) s
unfolding digit_run
digit_run_front [] = refl
digit_run_front (c ∷ s) = ground (arith, digit_run_front s)

digits_only_front : (s : Text) → s ≡ digits_only s ++ drop (length (digits_only s)) s
unfolding digits_only
digits_only_front [] = refl
digits_only_front (c ∷ s) = ground (arith, digits_only_front s)

fraction_front : (s : Text) → s ≡ fraction s ++ drop (length (fraction s)) s
unfolding fraction
fraction_front [] = refl
fraction_front (c ∷ s) = ground (arith, digits_only_front s)

join_fronts :
    (s p t q : Text)
    → s ≡ p ++ t
    → t ≡ q ++ drop (length q) t
    → s ≡ (p ++ q) ++ drop (length (p ++ q)) s
join_fronts s p t q e f =
    let u = drop (length q) t in
    let g : s ≡ (p ++ q) ++ u = e ∙ (ap (λ x. p ++ x) f ∙ sym (append_assoc p q u)) in
    g ∙ ap (λ x. (p ++ q) ++ x) (sym (ap (drop (length (p ++ q))) g ∙ drop_all (p ++ q) u))

pub number_at_front : (s : Text) → s ≡ number_at s ++ drop (length (number_at s)) s
unfolding number_at
number_at_front s =
    join_fronts s (digit_run s) (drop (length (digit_run s)) s)
      (fraction (drop (length (digit_run s)) s)) (digit_run_front s)
      (fraction_front (drop (length (digit_run s)) s))

number_at_first : (c : ℕ) (s : Text) → is_digit c ≡ true → (m : Text) × (number_at (c ∷ s) ≡ c ∷ m)
unfolding number_at digit_run
number_at_first c s h = (digit_run s ++ fraction (drop (length (digit_run s)) s), rw h refl)

pub number_at_rest :
    (c : ℕ) (s : Text)
    → is_digit c ≡ true
    → c ∷ s ≡ number_at (c ∷ s) ++ drop (length (number_at (c ∷ s)) - 1) s
number_at_rest c s h =
    let (m, e) = number_at_first c s h in
    let l : length (number_at (c ∷ s)) - 1 ≡ length m = omega (arith, ap length e) in
    number_at_front (c ∷ s)
    ∙ ap (λ x. number_at (c ∷ s) ++ x)
        (ap (λ k. drop k (c ∷ s)) (ap length e) ∙ sym (ap (λ k. drop k s) l))

-- ===== src/Ask/Figures/Shares.antt =====
-- internal/llm/router.go, rePercent: a reply and what ungroundedNumbers leaves of it without percentages.
use fuelmind.Base.{
  ℕ, zero, suc, ◌+◌, ◌-◌, ◌≡◌, refl, Bool, true, ◌&&◌, [], ◌∷◌, ◌++◌, Text, is_digit, All, ltb,
  length, drop, Bool-cases, ◌⊎◌, inl, inr, arith, ap, ◌∙◌,
}
use mathlib.Core.Path.{sym, subst}
use fuelmind.Ask.Figures.{
  is_blank, blanks, starts_with, number_at, percent_length, percents, blank_percents,
}
use fuelmind.Ask.Figures.Front.{number_at_front}

-- A text, and the same with a space for each percentage; the numbers of these are as `P` says.
pub data Shared (P : Text → Type 0) : Text → Text → Type 0 where
  ended : Shared P [] []
  kept : (c : ℕ) (s t : Text) → percent_length (c ∷ s) ≡ 0 → Shared P s t → Shared P (c ∷ s) (c ∷ t)
  share :
      (n b s t u : Text)
      → u ≡ n ++ (b ++ (b'%' ∷ s))
      → All (λ c. is_blank c ≡ true) b
      → P n
      → Shared P s t
      → Shared P u (32 ∷ t)

blanks_lem :
    (v : Text)
    → (b : Text) × (v ≡ b ++ drop (blanks v) v)
      × (length b ≡ blanks v)
      × All (λ c. is_blank c ≡ true) b
unfolding blanks
blanks_lem [] = ([], refl, refl, tt)
blanks_lem (c ∷ s) = elim (Bool-cases (is_blank c)) [
  | inl e ↦
      let (b, f, l, a) = blanks_lem s in (c ∷ b, rw e (ap (λ x. c ∷ x) f), rw e (ap suc l), (e, a))
  | inr e ↦ ([], rw e refl, rw e refl, tt)
]

starts_with_lem : (x : ℕ) (w : Text) → starts_with x w ≡ true → (s : Text) × (w ≡ x ∷ s)
starts_with_lem x [] e = absurd (ground arith)
starts_with_lem x (c ∷ s) e = (s, ground arith)

-- Where rePercent matches at the front.
abbrev is_share : ℕ → Text → Bool
is_share c s =
    let behind = drop (length (number_at (c ∷ s))) (c ∷ s) in
    is_digit c && starts_with b'%' (drop (blanks behind) behind)

-- A match of rePercent, as it stands in the text.
abbrev Match : ℕ → Text → Type 0
Match c s =
    (b : Text) × (r : Text) × (c ∷ s ≡ number_at (c ∷ s) ++ (b ++ (b'%' ∷ r)))
    × All (λ d. is_blank d ≡ true) b
    × (percent_length (c ∷ s) ≡ suc (length (number_at (c ∷ s)) + length b))

starts-is_share :
    (c : ℕ) (s : Text)
    → is_share c s ≡ true
    → starts_with b'%' (
        drop
          (blanks (drop (length (number_at (c ∷ s))) (c ∷ s)))
          (drop (length (number_at (c ∷ s))) (c ∷ s)))
      ≡ true
starts-is_share c s h = ground arith

share_length :
    (c : ℕ) (s : Text)
    → is_share c s ≡ true
    → percent_length (c ∷ s)
      ≡ suc (length (number_at (c ∷ s)) + blanks (drop (length (number_at (c ∷ s))) (c ∷ s)))
unfolding percent_length
share_length c s h = rw h (omega arith)

Match-is_share : (c : ℕ) (s : Text) → is_share c s ≡ true → Match c s
Match-is_share c s h =
    let n = number_at (c ∷ s) in
    let v = drop (length n) (c ∷ s) in
    let (b, f, l, a) = blanks_lem v in
    let (r, w) = starts_with_lem b'%' (drop (blanks v) v) (starts-is_share c s h) in
    (
      b,
      r,
      number_at_front (c ∷ s) ∙ ap (λ x. n ++ x) (f ∙ ap (λ x. b ++ x) w),
      a,
      share_length c s h ∙ ap (λ k. suc (length n + k)) (sym l),
    )

percent_cases : (c : ℕ) (s : Text) → (percent_length (c ∷ s) ≡ 0) ⊎ Match c s
unfolding percent_length
percent_cases c s = elim (Bool-cases (is_share c s)) [
  | inl e ↦ inr (Match-is_share c s e)
  | inr e ↦ inl (rw e refl)
]

drop_blanks : (b r : Text) (x : ℕ) → drop (suc (length b)) (b ++ (x ∷ r)) ≡ r
drop_blanks [] r x = refl
drop_blanks (d ∷ b) r x = drop_blanks b r x

drop_match : (n b r : Text) (x : ℕ) → drop (suc (length n + length b)) (n ++ (b ++ (x ∷ r))) ≡ r
drop_match [] b r x =
    ap (λ k. drop (suc k) (b ++ (x ∷ r))) {y = length b} (omega arith) ∙ drop_blanks b r x
drop_match (d ∷ n) b r x =
    let e : suc (length n) + length b ≡ suc (length n + length b) = omega arith in
    ap (λ k. drop k (n ++ (b ++ (x ∷ r)))) e ∙ drop_match n b r x

drop_parts :
    (n b r s : Text) (c : ℕ) → c ∷ s ≡ n ++ (b ++ (b'%' ∷ r)) → r ≡ drop (length n + length b) s
drop_parts n b r s c e = sym (ap (drop (suc (length n + length b))) e ∙ drop_match n b r b'%')

is_positive : (m : ℕ) → ltb 0 (suc m) ≡ true
is_positive m = ground arith

is_less : (m : ℕ) → suc m - 1 ≡ m
is_less m = omega arith

percents_at :
    (c m : ℕ) (s : Text)
    → percent_length (c ∷ s) ≡ suc m
    → percents 0 (c ∷ s) ≡ number_at (c ∷ s) ∷ percents m s
unfolding percents
percents_at c m s l = rw (l, is_positive m, is_less m) refl

blank_percents_at :
    (c m : ℕ) (s : Text)
    → percent_length (c ∷ s) ≡ suc m
    → blank_percents 0 (c ∷ s) ≡ 32 ∷ blank_percents m s
unfolding blank_percents
blank_percents_at c m s l = rw (l, is_positive m, is_less m) refl

pub percents-Shared :
    (P : Text → Type 0) (k : ℕ) (s : Text)
    → All P (percents k s)
    → Shared P (drop k s) (blank_percents k s)
unfolding percents blank_percents
percents-Shared P zero [] h = ended
percents-Shared P (suc k) [] h = ended
percents-Shared P (suc k) (c ∷ s) h = percents-Shared P k s h
percents-Shared P zero (c ∷ s) h = elim (percent_cases c s) [
  | inl e ↦ rw e (kept c s (blank_percents 0 s) e (percents-Shared P 0 s (rw e at h)))
  | inr (b, r, e, a, l) ↦
      let n = number_at (c ∷ s) in
      let m = length n + length b in
      let both = subst (All P) (percents_at c m s l) h in
      subst (Shared P (c ∷ s)) (sym (blank_percents_at c m s l)) (
        share n b (drop m s) (blank_percents m s) (c ∷ s)
          (e ∙ ap (λ x. n ++ (b ++ (b'%' ∷ x))) (drop_parts n b r s c e)) a both.0
          (percents-Shared P m s both.1))
]

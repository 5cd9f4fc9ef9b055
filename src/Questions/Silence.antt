-- ===== src/Questions/Silence.antt =====
-- internal/messaging/inbound.go, Handle: a stranger gets silence.
use fuelmind.Base.{
  ◌&&◌, ℕ, ◌≡◌, refl, inl, inr, Bool, true, false, not, Bool-cases, [], ◌∷◌, Text, codes, text_eq,
  text_eq_iff, to_lower, ◌↔◌, ◌≢◌, is_empty, trim_space, arith,
}
use fuelmind.Phone.{normalize}
use fuelmind.Questions.{
  Inbound, answer_questions_enabled, is_owner, allow_question, answer_question, handle,
}

answer_question-full :
    (from text : Text) (reply : Text × Text) (p : Bool × Inbound)
    → is_empty (answer_question from text reply p).0 ≡ false
unfolding answer_question trim_space
answer_question-full from text (answer, path) (false, s) = refl
answer_question-full from text ([], path) (true, s) = refl
answer_question-full from text (c ∷ answer, path) (true, s) = ground arith

-- A number is the owner's where it normalizes to what the owner's does, and there is one.
is_owner_iff :
    (from : Text) (s : Inbound)
    → (is_owner from s ≡ true)
      ↔ ((is_empty (trim_space s.recipient) ≡ false) × (normalize s.recipient ≡ normalize from))
unfolding is_owner
is_owner_iff from s = elim (Bool-cases (is_empty (trim_space s.recipient))) [
  | inl e ↦ rw e ((λ h. absurd (ground arith)), (λ h. absurd (ground arith)))
  | inr e ↦ rw e (
    (λ h. (refl, (text_eq_iff (normalize s.recipient) (normalize from)).0 h)),
    (λ h. (text_eq_iff (normalize s.recipient) (normalize from)).1 h.1),
  )
]

switch_iff :
    (s : Inbound)
    → (answer_questions_enabled s ≡ true) ↔ (to_lower s.answer_questions ≢ codes "off")
unfolding answer_questions_enabled
switch_iff s = (
  (λ h e. absurd (ground (arith, (text_eq_iff (to_lower s.answer_questions) (codes "off")).1 e))),
  (λ h. elim (Bool-cases (text_eq (to_lower s.answer_questions) (codes "off"))) [
    | inl e ↦ absurd (h ((text_eq_iff (to_lower s.answer_questions) (codes "off")).0 e))
    | inr e ↦ ground arith
  ]),
)

reply_cases :
    (now : ℕ) (from text : Text) (reply : Text × Text) (s : Inbound)
    → is_empty (handle now from text reply s).0
      ≡ not (answer_questions_enabled s && is_owner from s)
unfolding handle
reply_cases now from text reply s = elim (Bool-cases (answer_questions_enabled s)) [
  | inr off ↦ rw (off, handle) refl
  | inl on ↦ elim (Bool-cases (is_owner from s)) [
    | inr stranger ↦ rw (on, stranger, handle) refl
    | inl owner ↦
        rw (on, owner, handle) (answer_question-full from text reply (allow_question now from s))
  ]
]

-- The station replies exactly where its switch is not "off" in any case, an owner's number is set, and
-- the sender's number normalizes to the same as the owner's; it is silent to everybody else.
pub handle_replies :
    (now : ℕ) (from text : Text) (reply : Text × Text) (s : Inbound)
    → (is_empty (handle now from text reply s).0 ≡ false) ↔ (
        (to_lower s.answer_questions ≢ codes "off")
        × (is_empty (trim_space s.recipient) ≡ false)
        × (normalize s.recipient ≡ normalize from))
handle_replies now from text reply s = (
  (λ h.
      let both : answer_questions_enabled s && is_owner from s ≡ true =
        ground (arith, reply_cases now from text reply s) in
      (
        (switch_iff s).0 (ground arith),
        ((is_owner_iff from s).0 (ground arith)).0,
        ((is_owner_iff from s).0 (ground arith)).1,
      )),
  (λ h. ground (
    arith,
    reply_cases now from text reply s,
    (switch_iff s).1 h.0,
    (is_owner_iff from s).1 (h.1, h.2),
  )),
)

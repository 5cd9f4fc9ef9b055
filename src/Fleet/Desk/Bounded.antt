-- ===== src/Fleet/Desk/Bounded.antt =====
-- internal/cloudctl/messages.go: the queue of the control plane holds at most 500 questions.
use fuelmind.Base.{
  ℕ, ◌≤◌, ◌≡◌, refl, ◌∙◌, ap, true, false, Option, none, some, List, [], ◌∷◌, ◌++◌, inl, inr,
  Bool-cases, Option-cases, arith, Text, text_eq, text_eq_refl, text_eq_iff, any, any-append, ltb,
  length, length-append, lookup, erase, keys_of, has_key, insert_new, keys_of-append,
  keys_of-insert_old, erase_lacks, has_key-lookup,
}
use mathlib.Core.Path.{subst, sym}
use fuelmind.Fleet.{Server, Message, Auth-cases, station_for}
use fuelmind.Fleet.Desk.Asking.{AfterEnqueue, enqueue_keeps}
use fuelmind.Fleet.Desk.{
  add_message, drop_oldest, put_question, enqueue, question_text, reply_to, handle_message_reply,
}

-- No text twice.
abbrev pub IsDistinct : List Text → Type 0
IsDistinct [] = Unit {0}
IsDistinct (k ∷ ks) = (any (λ j. text_eq j k) ks ≡ false) × IsDistinct ks

-- The questions are those of the order, each once, and at most 500.
pub record IsQueue (s : Server) : Type 0 where
  pub ordered : keys_of s.messages ≡ s.order
  pub distinct : IsDistinct s.order
  pub bounded : length s.order ≤ 500

text_eq_flip : (a b : Text) → text_eq a b ≡ false → text_eq b a ≡ false
text_eq_flip a b h = elim (Bool-cases (text_eq b a)) [
  | inl e ↦ ground (arith, (text_eq_iff b a).0 e, text_eq_refl a)
  | inr e ↦ e
]

append-IsDistinct :
    (ks : List Text) (k : Text)
    → IsDistinct ks
    → any (λ j. text_eq j k) ks ≡ false
    → IsDistinct (ks ++ k ∷ [])
append-IsDistinct [] k h new = (refl, tt)
append-IsDistinct (x ∷ ks) k h new = (
  ground (arith, any-append (λ j. text_eq j x) ks (k ∷ []), h.0, text_eq_flip x k (ground arith)),
  append-IsDistinct ks k h.1 (ground arith),
)

keys_of-erase_first :
    (m : List (Text × Message)) (first : Text) (rest : List Text)
    → keys_of m ≡ first ∷ rest
    → IsDistinct (first ∷ rest)
    → keys_of (erase first m) ≡ rest
unfolding erase
keys_of-erase_first [] first rest e d = absurd (ground arith)
keys_of-erase_first ((j, w) ∷ m) first rest e d =
    ground
      (arith, text_eq_refl first, erase_lacks first m, ap (any (λ i. text_eq i first)) (tail_eq e))
  where
    tail_eq : {a b : Text} {ks ls : List Text} → a ∷ ks ≡ b ∷ ls → ks ≡ ls
    tail_eq h = cc

drop_oldest-IsQueue :
    (o : List Text) (s : Server)
    → s.order ≡ o
    → keys_of s.messages ≡ o
    → IsDistinct o
    → length o ≤ 501
    → IsQueue (drop_oldest o s)
unfolding drop_oldest
drop_oldest-IsQueue [] s e f d l = record {
  ordered = f ∙ sym e;
  distinct = subst IsDistinct (sym e) d;
  bounded = rw e (omega arith);
}
drop_oldest-IsQueue (first ∷ rest) s e f d l = elim (Bool-cases (ltb 500 (length (first ∷ rest)))) [
  | inl b ↦ rw b (record {
    ordered = keys_of-erase_first s.messages first rest f d;
    distinct = d.1;
    bounded = omega arith;
  })
  | inr b ↦ rw b (record {
    ordered = f ∙ sym e;
    distinct = subst IsDistinct (sym e) d;
    bounded = rw e (ground arith);
  })
]

put_question-IsQueue :
    (now : ℕ) (id station_id sender text channel : Text) (s : Server)
    → IsQueue s
    → has_key id s.messages ≡ false
    → IsQueue (put_question now id station_id sender text channel s).1
unfolding put_question add_message
put_question-IsQueue now id station_id sender text channel s q new =
    drop_oldest-IsQueue (s.order ++ id ∷ []) _ refl
      (ap keys_of (insert_new id _ s.messages new)
        ∙ (keys_of-append s.messages _ ∙ ap (λ ks. ks ++ id ∷ []) q.ordered))
      (append-IsDistinct s.order id q.distinct
        (subst (λ ks. any (λ j. text_eq j id) ks ≡ false) q.ordered new))
      (omega (arith, length-append {0} s.order (id ∷ []), q.bounded))

-- The id that a new question gets is not in use.
abbrev pub IsNew : Option Text → Server → Type 0
IsNew none s = Unit
IsNew (some id) s = has_key id s.messages ≡ false

pub enqueue-IsQueue :
    (now : ℕ) (rand : Option Text) (station_id sender text channel : Text) (s : Server)
    → IsQueue s
    → IsNew rand s
    → AfterEnqueue IsQueue (enqueue now rand station_id sender text channel s)
enqueue-IsQueue now rand station_id sender text channel s q new =
    enqueue_keeps IsQueue now rand station_id sender text channel s (λ id e.
      put_question-IsQueue now id station_id sender (question_text text) channel s q
        (subst (λ o. IsNew o s) e new))

reply_to-IsQueue :
    (now : ℕ) (authorization id answer : Text) (m : Message) (s : Server)
    → IsQueue s
    → has_key id s.messages ≡ true
    → IsQueue (reply_to now authorization id answer m s).1
unfolding reply_to
reply_to-IsQueue now authorization id answer m s q old =
    elim (Auth-cases (station_for authorization m.station_id s)) [
      | inl (code, e) ↦ rw (e, reply_to) q
      | inr (st, e) ↦
          rw (e, reply_to)
            (record {
              ordered = keys_of-insert_old id _ s.messages old ∙ q.ordered;
              distinct = q.distinct;
              bounded = q.bounded;
            })
    ]

pub handle_message_reply-IsQueue :
    (now : ℕ) (authorization id : Text) (body : Option Text) (s : Server)
    → IsQueue s
    → IsQueue (handle_message_reply now authorization id body s).1
unfolding handle_message_reply
handle_message_reply-IsQueue now authorization id none s q = q
handle_message_reply-IsQueue now authorization id (some answer) s q =
    elim (Option-cases (lookup id s.messages)) [
      | inl e ↦ rw (e, handle_message_reply) q
      | inr (m, e) ↦
          rw (e, handle_message_reply)
            (reply_to-IsQueue now authorization id answer m s q (has_key-lookup id m s.messages e))
    ]

-- ===== src/Fleet/Desk/Asking.antt =====
-- internal/cloudctl/messages.go: what holds after Enqueue holds after the handlers that call it.
use fuelmind.Base.{
  ℕ, ◌≡◌, refl, arith, Option, none, some, inl, inr, Bool-cases, Option-cases, Text, codes,
}
use mathlib.Core.Path.{subst}
use fuelmind.Fleet.{Server, Message, admin_authorized}
use fuelmind.Fleet.Desk.{enqueue, put_question, question_text, admin_ask}

-- Where a question is queued, the server is as `P` says.
abbrev pub AfterEnqueue : (Server → Type 0) → Option (Message × Server) → Type 0
AfterEnqueue P none = Unit
AfterEnqueue P (some (m, s)) = P s

pub enqueue_keeps :
    (P : Server → Type 0) (now : ℕ) (rand : Option Text) (station_id sender text channel : Text)
    (s : Server)
    → ((id : Text)
        → rand ≡ some id
        → P (put_question now id station_id sender (question_text text) channel s).1)
    → AfterEnqueue P (enqueue now rand station_id sender text channel s)
unfolding enqueue
enqueue_keeps P now none station_id sender text channel s h = ground arith
enqueue_keeps P now (some id) station_id sender text channel s h = ground (arith, h id refl)

pub admin_ask_keeps :
    (P : Server → Type 0) (now : ℕ) (rand : Option Text) (authorization : Text)
    (body : Option (Text × Text × Text)) (s : Server)
    → P s
    → ((station_id sender text : Text)
        → AfterEnqueue P (enqueue now rand station_id sender text (codes "admin") s))
    → P (admin_ask now rand authorization body s).1
unfolding admin_ask
admin_ask_keeps P now rand authorization none s h k =
    elim (Bool-cases (admin_authorized authorization s)) [ inl e ↦ rw e h | inr e ↦ rw e h ]
admin_ask_keeps P now rand authorization (some (st, sender, text)) s h k =
    elim (Bool-cases (admin_authorized authorization s)) [
      | inr e ↦ rw e h
      | inl e ↦ rw e (elim (Option-cases (enqueue now rand st sender text (codes "admin") s)) [
        | inl f ↦ rw f h
        | inr ((m, s'), f) ↦ rw f (subst (AfterEnqueue P) f (k st sender text))
      ])
    ]

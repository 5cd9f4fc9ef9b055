-- ===== src/Relay/Tests.antt =====
-- Runs of the relay.
use fuelmind.Base.{
  ℕ, ◌+◌, ◌≡◌, refl, Bool, true, Option, some, List, [], ◌∷◌, Text, codes, text_eq, All, take,
}
use fuelmind.Relay.{enabled, enabled_value, Waiting, Answerer, has_row, tick}
use fuelmind.Relay.Trail.{IsTrail, tick-IsTrail}

switched : enabled (enabled_value true) ≡ true
unfolding enabled enabled_value text_eq
switched = refl

-- The control plane, as the questions that wait there.
abbrev waiting : List Waiting
waiting =
    record { id = codes "a"; from = codes "+92"; text = codes "sales?" }
    ∷ (record { id = codes "b"; from = codes "+92"; text = codes "score?" } ∷ [])

abbrev echo : Answerer
echo t = (t, codes "standard")

abbrev accept : Text → Text → ℕ → Bool × ℕ
accept id answer w = (true, w + 1)

abbrev poll : ℕ → Option (List Waiting) × ℕ
poll w = (some waiting, w)

both_answered : (tick echo accept poll 0 []).answered ≡ 2
unfolding tick
both_answered = refl

tick-IsTrail_example :
    IsTrail echo accept 10 waiting 0 [] (tick echo accept poll 0 [])
    × All
        (λ m. has_row m.id (tick echo accept poll 0 []).rows ≡ true)
        (take (tick echo accept poll 0 []).answered waiting)
tick-IsTrail_example = tick-IsTrail echo accept poll 0 waiting [] refl

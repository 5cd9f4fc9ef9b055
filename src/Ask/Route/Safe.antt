-- ===== src/Ask/Route/Safe.antt =====
-- internal/llm/router.go, Route: when a reply of the model is shown.
use fuelmind.Base.{◌≡◌, true, false, Option, none, some, Text, ◌⊎◌}
use fuelmind.Ask.{Float, MartContext}
use fuelmind.Ask.Prompt.{build_prompt}
use fuelmind.Ask.Figures.Spoken.{IsGrounded}
use fuelmind.Ask.Route.{
  Patterns, Route, noop, helped, standard, no_feed, canned, llm_fail, llm_rejected, llm, Model,
  standard_answer,
}

module _ (f : Float) where
  -- Where the reply of the model is shown, it is its reply to the prompt, and grounded.
  abbrev Screened : MartContext f.Amount → Option Text → Text × Route → Type 0
  Screened m o (a, llm) = (o ≡ some a) × IsGrounded f a m
  Screened m o (a, noop) = Unit
  Screened m o (a, helped) = Unit
  Screened m o (a, standard) = Unit
  Screened m o (a, no_feed) = Unit
  Screened m o (a, canned) = Unit
  Screened m o (a, llm_fail) = Unit
  Screened m o (a, llm_rejected) = Unit

  -- The same of Route: there is a model, it was asked, and the question was one for it.
  abbrev Told : Patterns → Model f → Text → MartContext f.Amount → Text × Route → Type 0
  Told p model q m (a, llm) =
      ((generate : Text → Option Text) × (model ≡ some generate)
        × (generate (build_prompt f q m) ≡ some a))
      × IsGrounded f a m
      × (p.unanswerables q ≡ false)
      × (p.explain q ≡ true ⊎ standard_answer f p q m ≡ none)
  Told p model q m (a, noop) = Unit
  Told p model q m (a, helped) = Unit
  Told p model q m (a, standard) = Unit
  Told p model q m (a, no_feed) = Unit
  Told p model q m (a, canned) = Unit
  Told p model q m (a, llm_fail) = Unit
  Told p model q m (a, llm_rejected) = Unit

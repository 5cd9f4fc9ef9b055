-- ===== src/Ask/Route.antt =====
-- internal/llm/router.go, Route: the fixed answers, and what the model is asked.
pub mod Safe
use fuelmind.Base.{
  ℕ, Bool, true, false, not, ◌&&◌, ◌||◌, Option, none, some, List, [], ◌∷◌, ◌++◌, Text, codes,
  is_empty, text_eq, trim_space, length, ◌==◌, if◌then◌else◌,
}
use fuelmind.Ask.{
  Float, MartContext, ProductRow, commas, pkr, liters, product_code, display_product, decimal,
}
use fuelmind.Ask.Prompt.{concat, newline, help_text, build_prompt}
use fuelmind.Ask.Figures.{ungrounded_numbers}

-- The regular expressions, as what they match.
pub record Patterns : Type 0 where
  pub credit : Text → Bool
  pub credit_device : Text → Bool
  pub score : Text → Bool
  pub sales : Text → Bool
  pub yesterday : Text → Bool
  pub week : Text → Bool
  pub other_period : Text → Bool
  pub product : Text → Option Text
  pub margin : Text → Bool
  pub unanswerables : Text → Bool
  pub purchase_price : Text → Bool
  pub help : Text → Bool
  pub explain : Text → Bool

-- The path of an answer.
pub data Route : Type 0 where
  noop : Route
  helped : Route
  standard : Route
  no_feed : Route
  canned : Route
  llm_fail : Route
  llm_rejected : Route
  llm : Route

abbrev is_match : Option Text → Bool
is_match none = false
is_match (some m) = true

abbrev margin_only : Text
margin_only =
    codes " margin. That is fuel margin only — it does not include wages, rent or other costs."

module _ (f : Float) where
  open f use {Amount}

  abbrev first_row : Text → List (ProductRow Amount) → Option (ProductRow Amount)
  first_row code [] = none
  first_row code (r ∷ rs) = if text_eq r.code code then some r else first_row code rs

  unfoldable pub purchase_answer : MartContext Amount → Text
  unfolding concat pkr display_product
  purchase_answer m =
      if is_empty m.latest_cost_product
      then codes
          "No purchase price has been recorded yet. Enter what you pay per litre in Settings and I can work out your margin."
      else concat (
          codes "The latest purchase price on record is "
          ∷ pkr f m.latest_cost_per_liter
          ∷ codes " per litre for "
          ∷ display_product m.latest_cost_product
          ∷ codes ", from "
          ∷ m.latest_cost_from
          ∷ codes "."
          ∷ [])

  unfoldable pub week_margin_answer : MartContext Amount → Text
  unfolding concat pkr decimal
  week_margin_answer m =
      if not m.have_cost_7d
      then codes
          "I cannot work out margin for the last 7 days: no purchase price is recorded for those days. Enter what you pay per litre in Settings."
      else concat (
          codes "Over "
          ∷ (if m.costed_days_7d == 1
              then codes "the 1 day of the last 7 that has a purchase price recorded"
              else concat (
                  codes "the "
                  ∷ decimal m.costed_days_7d
                  ∷ codes " of the last 7 days that have a purchase price recorded"
                  ∷ []))
          ∷ codes ": "
          ∷ pkr f m.revenue_7d_costed
          ∷ codes " revenue, "
          ∷ pkr f m.cost_7d
          ∷ codes " fuel cost, "
          ∷ pkr f m.margin_7d
          ∷ margin_only
          ∷ [])

  unfoldable pub margin_answer : MartContext Amount → Text
  unfolding concat pkr commas
  margin_answer m =
      if not m.have_cost_today
      then codes
          "I cannot work out today's margin: no purchase price is recorded for today. Enter what you pay per litre in Settings and this answers itself."
      else concat (
          codes "Today: "
          ∷ pkr f m.revenue_today
          ∷ codes " revenue, "
          ∷ pkr f m.cost_today
          ∷ codes " fuel cost, "
          ∷ pkr f m.margin_today
          ∷ codes " margin ("
          ∷ commas f m.margin_pct_today 1
          ∷ codes "%). That is fuel margin only — it does not include wages, rent or other costs."
          ∷ [])

  unfoldable pub score_answer : MartContext Amount → Text
  unfolding concat decimal
  score_answer m =
      if is_empty m.score_date
      then codes "There is no FuelMind Score yet."
      else concat (
          codes "The FuelMind Score for "
          ∷ m.score_date
          ∷ codes " is "
          ∷ decimal m.overall_score
          ∷ codes "/100 with "
          ∷ decimal (length m.open_issues)
          ∷ codes " open issue(s)."
          ∷ [])

  -- The answer for the product that the question names.
  unfoldable pub product_answer : Text → MartContext Amount → Text
  unfolding concat pkr liters display_product product_code
  product_answer p m =
      let code = product_code p in
      elim (first_row code m.top_products) [
        | some row ↦ concat (
            codes "Today "
            ∷ display_product code
            ∷ codes ": "
            ∷ liters f row.volume
            ∷ codes " sold for "
            ∷ pkr f row.money
            ∷ codes "."
            ∷ [])
        | none ↦
            concat
              (codes "No " ∷ display_product code ∷ codes " sales have been recorded today." ∷ [])
      ]

  unfoldable pub total_answer : MartContext Amount → Text
  unfolding concat pkr liters decimal
  total_answer m = concat (
      codes "Today's revenue is "
      ∷ pkr f m.revenue_today
      ∷ codes " from "
      ∷ decimal m.transactions_today
      ∷ codes " sale(s), "
      ∷ liters f m.volume_today_liters
      ∷ codes " sold."
      ∷ [])

  unfoldable pub today_answer : Option Text → MartContext Amount → Text
  unfolding total_answer product_answer
  today_answer none m = total_answer m
  today_answer (some p) m = if is_empty p then total_answer m else product_answer p m

  -- The switch of Route, for a question that wants no explanation and is about what there is a feed for.
  unfoldable pub standard_answer : Patterns → Text → MartContext Amount → Option Text
  unfolding purchase_answer week_margin_answer margin_answer score_answer today_answer concat pkr
      liters decimal
  standard_answer p q m =
      let is_credit = p.credit q && not (p.credit_device q) in
      let is_product = is_match (p.product q) in
      let is_sales = p.sales q || is_product in
      if p.purchase_price q
      then some (purchase_answer m)
      else if p.margin q && p.week q
      then some (week_margin_answer m)
      else if p.margin q
      then some (margin_answer m)
      else if is_sales && p.week q
      then some (
          concat (
            codes "Over the last 7 days: "
            ∷ pkr f m.revenue_7d
            ∷ codes " revenue on "
            ∷ liters f m.volume_7d
            ∷ codes "."
            ∷ []))
      else if p.other_period q && (is_sales || is_credit)
      then some (
          codes
            "I only have figures for today, yesterday and the last 7 days. The Sales page lists each of the last 30 days.")
      else if is_credit
      then some (
          concat (
            codes "Total credit outstanding is "
            ∷ pkr f m.credit_outstanding
            ∷ codes " across "
            ∷ decimal m.credit_customers
            ∷ codes " customer(s)."
            ∷ []))
      else if p.score q && not is_product
      then some (score_answer m)
      else if is_sales && p.yesterday q
      then some (
          if is_product
          then concat (
              codes "I have yesterday's total only, not by product: "
              ∷ pkr f m.revenue_yesterday
              ∷ codes "."
              ∷ [])
          else concat
              (codes "Yesterday's revenue was " ∷ pkr f m.revenue_yesterday ∷ codes "." ∷ []))
      else if is_sales
      then some (today_answer (p.product q) m)
      else none

  -- The model, by its reply to a prompt, none where the call fails; none where no model is connected.
  abbrev pub Model : Type 0
  Model = Option (Text → Option Text)

  abbrev with_help : Text → Text
  with_help t = t ++ (newline ++ (newline ++ help_text))

  -- What is shown of the reply of the model.
  unfoldable pub screen_reply : MartContext Amount → Option Text → Text × Route
  unfolding ungrounded_numbers
  screen_reply m none = (
    with_help
        (codes "I could not reach the AI model just now, so I can only answer set questions."),
    llm_fail,
  )
  screen_reply m (some reply) = elim (ungrounded_numbers f reply m) [
    | [] ↦ (reply, llm)
    | b ∷ bs ↦
        (with_help (codes "I could not give you a reliable answer to that one."), llm_rejected)
  ]

  -- The end of Route, for an open question.
  unfoldable pub open_answer : Model → Bool → Text → MartContext Amount → Text × Route
  unfolding screen_reply build_prompt
  open_answer model true q m = (
    with_help (
        codes
          "I don't have a feed for that yet — FuelMind only sees the sales data that comes in from your POS."),
    no_feed,
  )
  open_answer none false q m = (
    with_help (
          codes
            "I can only answer set questions on this station, because no AI model is connected.")
        ++ (newline
            ++ (newline
                ++ codes "To answer questions in your own words, connect a model in Settings.")),
    canned,
  )
  open_answer (some generate) false q m = screen_reply m (generate (build_prompt f q m))

  abbrev or_open : Option Text → Text × Route → Text × Route
  or_open (some a) rest = (a, standard)
  or_open none rest = rest

  -- Route
  unfoldable pub route : Patterns → Model → Text → MartContext Amount → Text × Route
  unfolding standard_answer open_answer trim_space
  route p model question m =
      let q = trim_space question in
      if is_empty q
      then (
        codes "Please type a question about your station, for example: How much did we sell today?",
        noop,
      )
      else if p.help q
      then (help_text, helped)
      else if p.explain q || p.unanswerables q
      then open_answer model (p.unanswerables q) q m
      else or_open (standard_answer p q m) (open_answer model false q m)

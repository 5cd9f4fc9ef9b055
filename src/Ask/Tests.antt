-- ===== src/Ask/Tests.antt =====
-- A model that repeats a figure it was given.
use fuelmind.Base.{ℕ, ◌≡◌, refl, true, false, none, some, [], ◌∷◌, Text, codes, text_eq}
use fuelmind.Ask.{Float, MartContext, decimal}
use fuelmind.Ask.Figures.{ungrounded_numbers, numbers, percents, canonical}
use fuelmind.Ask.Route.{Patterns, Model}

-- Whole numbers.
abbrev whole : Float
whole = record {
  Amount = ℕ;
  parse_float = λ t. none;
  format_float = λ v dec. decimal v;
  round = λ v. v;
  abs = λ v. v;
  is_negative = λ v. false;
  of_int = λ n. n;
}

abbrev context : MartContext ℕ
context = record {
  date = codes "2026-06-15";
  revenue_today = 125;
  revenue_yesterday = 0;
  volume_today_liters = 0;
  transactions_today = 3;
  volume_7d = 0;
  revenue_7d = 0;
  top_products = [];
  credit_outstanding = 0;
  credit_customers = 0;
  overall_score = 90;
  score_date = codes "2026-06-15";
  open_issues = [];
  margin_today = 0;
  margin_pct_today = 0;
  cost_today = 0;
  have_cost_today = false;
  margin_7d = 0;
  cost_7d = 0;
  revenue_7d_costed = 0;
  costed_days_7d = 0;
  have_cost_7d = false;
  latest_cost_per_liter = 0;
  latest_cost_product = [];
  latest_cost_from = [];
}

abbrev patterns : Patterns
patterns = record {
  credit = λ q. false;
  credit_device = λ q. false;
  score = λ q. false;
  sales = λ q. false;
  yesterday = λ q. false;
  week = λ q. false;
  other_period = λ q. false;
  product = λ q. none;
  margin = λ q. false;
  unanswerables = λ q. false;
  purchase_price = λ q. false;
  help = λ q. false;
  explain = λ q. true;
}

abbrev reply : Text
reply = codes "On 2026-06-15 it was 125."

abbrev model : Model whole
model = some (λ prompt. some reply)

found : numbers 0 (codes "1,250.50 and 7.") ≡ codes "1,250.50" ∷ codes "7" ∷ []
unfolding numbers
found = refl

shares_found : percents 0 (codes "up 12.5 %, or 3") ≡ codes "12.5" ∷ []
unfolding percents
shares_found = refl

shortened : canonical (codes "1,250.50") ≡ codes "1250.5"
unfolding canonical
shortened = refl

-- The prompt says that the margin is not known, but the figures that are not known count as 0.
zero_allowed : ungrounded_numbers whole (codes "Your margin today is 0%, 0 profit.") context ≡ []
unfolding ungrounded_numbers text_eq decimal
zero_allowed = refl

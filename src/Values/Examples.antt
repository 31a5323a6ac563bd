-- ===== src/Values/Examples.antt =====
-- Runs on small inputs.
use self_optimizing_competit.Base.{ℕ, ◌*◌, ◌/◌, ◌≡◌, refl, none, some}
use self_optimizing_competit.Values.Confidence.{
  Confidence, critical, low, medium, from_score, make, combine,
}
use self_optimizing_competit.Values.Money.{make as make_money, whole, in_cents, from_cents}

abbrev seven_tenths : ℕ → ℕ
seven_tenths n = 7 * n / 10

abbrev good : Confidence
good = record { level = critical; score = 90; explanation = none }

abbrev weak : Confidence
weak = record { level = low; score = 30; explanation = none }

-- The mean of 60 is cut to 42.
combined :
    combine seven_tenths good weak
    ≡ some (record { level = medium; score = 42; explanation = none })
unfolding combine from_score make
combined = refl

too_much : from_score 101 none ≡ none
unfolding from_score make
too_much = refl

-- 1.005 is 101 cents.
rounded : in_cents (record { amount = whole 1005 3; currency = "EUR" }) ≡ 101
unfolding in_cents
rounded = refl

no_currency : from_cents 5 "" ≡ none
unfolding from_cents make_money
no_currency = refl

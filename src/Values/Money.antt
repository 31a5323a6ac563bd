-- ===== src/Values/Money.antt =====
-- `Money` of core/domain/value_objects/money.py, without division, multiplication and formatting. An
-- amount is a whole number of units of 10 ^ -places, as Decimal has it; up to the 28 digits of its
-- context Decimal adds exactly. Equal amounts may have different places. An exception is `none`.
use Prim.Native.String.{count as text_length}
use self_optimizing_competit.Base.{
  ℕ, ◌+◌, ◌-◌, ◌*◌, ◌/◌, ◌^◌, ◌≤◌, ◌<◌, ◌≡◌, refl, Bool, true, false, ◌&&◌, Option, none, some,
  String, arith, ltb, ◌==◌, if◌then◌else◌,
}
use self_optimizing_competit.Base.Dict.{key_eq, key_eq_iff}

pub record Decimal : Type 0 where
  pub negative : Bool
  pub units : ℕ
  pub places : ℕ

pub record Money : Type 0 where
  pub amount : Decimal
  pub currency : String

-- The constructor with its checks
unfoldable pub make : Decimal → String → Option Money
make amount currency =
    if amount.negative && ltb 0 amount.units
    then none
    else if text_length currency == 3
    then some (record { amount = amount; currency = currency })
    else none

abbrev pub whole : ℕ → ℕ → Decimal
whole units places = record { negative = false; units = units; places = places }

unfoldable pub from_cents : ℕ → String → Option Money
from_cents cents currency = make (whole cents 2) currency

-- Half a cent is rounded up.
unfoldable pub in_cents : Money → ℕ
in_cents m = let base = 10 ^ m.amount.places in (2 * (m.amount.units * 100) + base) / (2 * base)

unfoldable pub zero_money : String → Option Money
zero_money currency = make (whole 0 0) currency

-- Both amounts in the same units
abbrev pub left_units : Money → Money → ℕ
left_units a b = a.amount.units * 10 ^ b.amount.places

abbrev pub right_units : Money → Money → ℕ
right_units a b = b.amount.units * 10 ^ a.amount.places

abbrev pub common_places : Money → Money → ℕ
common_places a b = a.amount.places + b.amount.places

unfoldable pub add : Money → Money → Option Money
add a b =
    if key_eq a.currency b.currency
    then make (whole (left_units a b + right_units a b) (common_places a b)) a.currency
    else none

unfoldable pub subtract : Money → Money → Option Money
subtract a b =
    if key_eq a.currency b.currency
    then (if ltb (left_units a b) (right_units a b)
        then none
        else make (whole (left_units a b - right_units a b) (common_places a b)) a.currency)
    else none

unfoldable pub is_zero : Money → Bool
is_zero m = m.amount.units == 0

unfoldable pub is_positive : Money → Bool
is_positive m = ltb 0 m.amount.units

unfoldable pub is_greater_than : Money → Money → Option Bool
is_greater_than a b =
    if key_eq a.currency b.currency then some (ltb (right_units a b) (left_units a b)) else none

unfoldable pub is_less_than : Money → Money → Option Bool
is_less_than a b =
    if key_eq a.currency b.currency then some (ltb (left_units a b) (right_units a b)) else none

unfoldable pub is_equal : Money → Money → Bool
is_equal a b = (left_units a b == right_units a b) && key_eq a.currency b.currency

-- Amounts of cents in one currency, with a code of three letters: they are read back, and are added
-- and subtracted as numbers of cents; what would be negative is refused.
cents_arithmetic :
    (m n : ℕ) (currency : String)
    → text_length currency ≡ 3
    → (a b : Money) × (from_cents m currency ≡ some a)
      × (from_cents n currency ≡ some b)
      × (in_cents a ≡ m)
      × ((s : Money) × (add a b ≡ some s) × (in_cents s ≡ m + n))
      × (n ≤ m → (d : Money) × (subtract a b ≡ some d) × (in_cents d ≡ m - n))
      × (m < n → subtract a b ≡ none)
unfolding from_cents make in_cents add subtract
cents_arithmetic m n currency three =
    let a : Money = record { amount = whole m 2; currency = currency } in
    let b : Money = record { amount = whole n 2; currency = currency } in
    let s : Money = record { amount = whole (m * 100 + n * 100) 4; currency = currency } in
    let d : Money = record { amount = whole (m * 100 - n * 100) 4; currency = currency } in
    let same : key_eq currency currency ≡ true = (key_eq_iff currency currency).1 refl in
    (
      a,
      b,
      rw three refl,
      rw three refl,
      omega arith,
      (s, rw (same, three) refl, omega arith),
      λ le.
          let enough : ltb (m * 100) (n * 100) ≡ false = ground arith in
          (d, rw (same, enough, three) refl, omega arith),
      λ lt. let short : ltb (m * 100) (n * 100) ≡ true = ground arith in rw (same, short) refl,
    )

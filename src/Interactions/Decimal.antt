-- ===== src/Interactions/Decimal.antt =====
-- The decimal arithmetic of the weights: Python's `decimal` with its default context of 28 digits,
-- rounding half to even. A value is its sign, its coefficient and its number of decimal places.
pub mod Context
use gechu_backend.Base.{
  ℕ, zero, suc, ◌+◌, ◌-◌, ◌*◌, ◌/◌, ◌^◌, Bool, true, false, not, ltb, leb, if◌then◌else◌,
}
use gechu_backend.Base.Int.{ℤ, pos, negsuc}
use gechu_backend.Base.Round.{round_half_even}

pub record Decimal : Type 0 where
  pub is_negative : Bool
  pub coefficient : ℕ
  pub places : ℕ

abbrev pub precision : ℕ
precision = 28

-- A column value in units of 10 ^ -places.
abbrev pub from_units : ℤ → ℕ → Decimal
from_units (pos n) places = record { is_negative = false; coefficient = n; places = places }
from_units (negsuc n) places = record { is_negative = true; coefficient = suc n; places = places }

-- How many digits are beyond the precision. A coefficient here has at most 28 + 28 digits.
unfoldable pub excess : ℕ → ℕ → ℕ
excess zero n = 0
excess (suc fuel) n =
    let more = excess fuel (n / 10) in if ltb n (10 ^ precision) then 0 else suc more

-- Rounding to the context. More digits than places would be a value from 10 ^ 28 on.
unfoldable pub in_context : Decimal → Decimal
in_context d =
    let drop = excess 28 d.coefficient in
    record {
      is_negative = d.is_negative;
      coefficient = round_half_even d.coefficient (10 ^ drop);
      places = d.places - drop;
    }

abbrev xor : Bool → Bool → Bool
xor true b = not b
xor false b = b

infixl 70 ◌*ᵈ◌
unfoldable pub ◌*ᵈ◌ : Decimal → Decimal → Decimal
a *ᵈ b = in_context (record {
  is_negative = xor a.is_negative b.is_negative;
  coefficient = a.coefficient * b.coefficient;
  places = a.places + b.places;
})

abbrev is_odd : ℕ → Bool
is_odd zero = false
is_odd (suc n) = not (is_odd n)

-- The power by a natural number, rounded once: `decimal` gives the correctly rounded power.
unfoldable pub power : Decimal → ℕ → Decimal
power a n = in_context (record {
  is_negative = if a.is_negative then is_odd n else false;
  coefficient = a.coefficient ^ n;
  places = a.places * n;
})

abbrev signed : Bool → ℕ → ℤ
signed false n = pos n
signed true zero = pos zero
signed true (suc n) = negsuc n

-- `quantize(Decimal("0.0001"))`, in units of 0.0001
unfoldable pub quantize : Decimal → ℤ
quantize d = signed d.is_negative (
    if leb d.places 4
    then d.coefficient * 10 ^ (4 - d.places)
    else round_half_even d.coefficient (10 ^ (d.places - 4)))

-- ===== src/Interactions/Decimal/Context.antt =====
-- The rounding of a decimal to its context has fuel enough.
use gechu_backend.Base.{
  ℕ, zero, suc, ◌*◌, ◌/◌, ◌^◌, ◌≤◌, ◌<◌, ◌≡◌, arith, ltb, Bool-cases, inl, inr,
}
use gechu_backend.Base.Round.{round_half_even-le}
use gechu_backend.Interactions.Decimal.{Decimal, precision, excess, in_context}
use Prim.Native.Nat.pow
use native.Mathlib.Nat.{div-add-mod, mod-lt}

below_tenfold : (n p : ℕ) → n / 10 < p → n < 10 * p
below_tenfold n p h =
    let split = div-add-mod n 10 in
    let ten : 0 < 10 = omega arith in let rest = mod-lt n ten in omega arith

tenth_below : (n p : ℕ) → n < 10 * p → n / 10 < p
tenth_below n p h = let split = div-add-mod n 10 in omega arith

tenfold_power : (k p : ℕ) → 10 ^ suc k * p ≡ 10 * (10 ^ k * p)
tenfold_power k p = let step = pow.suc 10 k in rw step (grind arith)

-- With `fuel` digits to drop at most, what is left has at most 28 digits.
excess_enough :
    (fuel n : ℕ) → n < 10 ^ fuel * 10 ^ precision → n < 10 ^ excess fuel n * 10 ^ precision
unfolding excess
excess_enough zero n h = h
excess_enough (suc fuel) n h = elim (Bool-cases (ltb n (10 ^ precision))) [
  | inl e ↦ rw e (ground arith)
  | inr e ↦
      let smaller =
        tenth_below n (10 ^ fuel * 10 ^ precision)
          (rw (tenfold_power fuel (10 ^ precision)) at h) in
      let ih = excess_enough fuel (n / 10) smaller in
      rw e (
        rw (tenfold_power (excess fuel (n / 10)) (10 ^ precision))
          (below_tenfold n (10 ^ excess fuel (n / 10) * 10 ^ precision) ih))
]

power_above : (k : ℕ) → 0 < 10 ^ k
power_above zero = let one = pow.zero 10 in rw one (omega arith)
power_above (suc k) = let step = pow.suc 10 k in let ih = power_above k in rw step (grind arith)

-- The coefficient of a rounded value is at most 10 ^ 28, if the exact one is below 10 ^ 56.
pub in_context_bound :
    (d : Decimal)
    → d.coefficient < 10 ^ 28 * 10 ^ precision
    → (in_context d).coefficient ≤ 10 ^ precision
unfolding in_context
in_context_bound d h =
    let drop = excess 28 d.coefficient in
    let small = excess_enough 28 d.coefficient h in
    round_half_even-le d.coefficient (10 ^ drop) (10 ^ precision) (power_above drop) (grind arith)

-- ===== src/Base/Round.antt =====
-- Division rounded half to even: Python's `round` and the quantizing of `Decimal`.
use gechu_backend.Base.{
  ℕ, ◌+◌, ◌*◌, ◌/◌, ◌%◌, ◌≤◌, ◌<◌, ◌≡◌, arith, ltb, ◌==◌, if◌then◌else◌, Bool-cases, inl, inr, ◌⊎◌,
  leb, leb→le,
}
use native.Mathlib.Nat.{div-add-mod, mod-lt}

unfoldable pub round_half_even : ℕ → ℕ → ℕ
round_half_even n d =
    let q = n / d in
    let r = n % d in
    if ltb (2 * r) d then q else if ltb d (2 * r) then q + 1 else if q % 2 == 0 then q else q + 1

-- The quotient or the one above it, whichever is nearer.
round_half_even_cases :
    (n d : ℕ)
    → ((2 * (n % d) ≤ d) × (round_half_even n d ≡ n / d))
      ⊎ ((d ≤ 2 * (n % d)) × (round_half_even n d ≡ n / d + 1))
unfolding round_half_even
round_half_even_cases n d = ground arith

near_below :
    (q r d n k : ℕ)
    → d * q + r ≡ n
    → k ≡ q
    → 2 * r ≤ d
    → (2 * (k * d) ≤ 2 * n + d) × (2 * n ≤ 2 * (k * d) + d)
near_below q r d n k e same h = rw same (omega arith, omega arith)

near_above :
    (q r d n k : ℕ)
    → d * q + r ≡ n
    → k ≡ q + 1
    → r < d
    → d ≤ 2 * r
    → (2 * (k * d) ≤ 2 * n + d) × (2 * n ≤ 2 * (k * d) + d)
near_above q r d n k e same lt h = rw same (omega arith, omega arith)

-- The result is off by half a unit at most.
pub round_half_even_bounds :
    (n d : ℕ)
    → 0 < d
    → (2 * (round_half_even n d * d) ≤ 2 * n + d) × (2 * n ≤ 2 * (round_half_even n d * d) + d)
round_half_even_bounds n d h = elim (round_half_even_cases n d) [
  | inl (low, e) ↦ near_below (n / d) (n % d) d n (round_half_even n d) (div-add-mod n d) e low
  | inr (high, e) ↦
      near_above (n / d) (n % d) d n (round_half_even n d) (div-add-mod n d) e (mod-lt n h) high
]

-- Nothing is rounded past a whole number that lies above it, or below one that lies below it.
pub round_half_even-le : (n d m : ℕ) → 0 < d → n ≤ m * d → round_half_even n d ≤ m
round_half_even-le n d m h le =
    let near = (round_half_even_bounds n d h).0 in
    below_of_product (round_half_even n d) m d n h near le
  where
    below_of_product : (k m d n : ℕ) → 0 < d → 2 * (k * d) ≤ 2 * n + d → n ≤ m * d → k ≤ m
    below_of_product k m d n h near le = grind arith

pub round_half_even-ge : (n d m : ℕ) → 0 < d → m * d ≤ n → m ≤ round_half_even n d
round_half_even-ge n d m h le =
    above_of_product (round_half_even n d) m d n h (round_half_even_bounds n d h).1 le
  where
    above_of_product : (k m d n : ℕ) → 0 < d → 2 * n ≤ 2 * (k * d) + d → m * d ≤ n → m ≤ k
    above_of_product k m d n h near le = grind arith

order_of_near :
    (k l d n m : ℕ)
    → 0 < d
    → n ≤ m
    → 2 * (k * d) ≤ 2 * n + d
    → 2 * m ≤ 2 * (l * d) + d
    → l < k
    → n ≡ m
order_of_near k l d n m h le a b lt = let far : l * d + d ≤ k * d = grind arith in omega arith

pub round_half_even_mono : (n m d : ℕ) → 0 < d → n ≤ m → round_half_even n d ≤ round_half_even m d
round_half_even_mono n m d h le =
    elim (Bool-cases (leb (round_half_even n d) (round_half_even m d))) [
      | inl fine ↦ leb→le _ _ fine
      | inr bad ↦
          let a = (round_half_even_bounds n d h).0 in
          let b = (round_half_even_bounds m d h).1 in
          let same : n ≡ m =
            order_of_near (round_half_even n d) (round_half_even m d) d n m h le a b
              (ground arith) in
          rw same (omega arith)
    ]

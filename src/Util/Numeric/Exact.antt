-- ===== src/Util/Numeric/Exact.antt =====
-- The 128-bit routines of util/numeric.cpp against division on unbounded numbers.
use essa_core.Prelude.{
  ℕ, ◌+◌, ◌-◌, ◌*◌, ◌/◌, ◌%◌, ◌^◌, ◌≤◌, ◌<◌, ◌≡◌, refl, ap, inl, inr, ◌&&◌, Option, none, some, ltb,
  leb, if◌then◌else◌, Bool-cases, arith, ceil_div, le-div,
}
use essa_core.Prelude.Result.{ok, overflow, or_throw}
use essa_core.Util.Numeric.{
  int64_max, uint64_max, uint128_max, Rounding, round_down, round_up, big_divide_u64,
  try_big_divide, big_divide, big_divide_u128, try_big_divide128, big_divide128, big_multiply,
  quotient128,
}

-- The quotient that the source asks for.
abbrev pub round_div : Rounding → ℕ → ℕ → ℕ
round_div round_down a b = a / b
round_div round_up a b = ceil_div a b

mul-le-max : (a b : ℕ) → a ≤ uint64_max → b ≤ uint64_max → a * b ≤ uint64_max * uint64_max
mul-le-max a b h k = grind arith

pub big_multiply_exact : (a b : ℕ) → a ≤ uint64_max → b ≤ uint64_max → big_multiply a b ≡ a * b
unfolding big_multiply
big_multiply_exact a b h k = omega (arith, mul-le-max a b h k)

quotient128_down : (a b : ℕ) → quotient128 a b round_down ≡ a / b
unfolding quotient128
quotient128_down a b = refl

quotient128_exact :
    (a b : ℕ) (r : Rounding) → 0 < b → a + b ≤ 2 ^ 128 → quotient128 a b r ≡ round_div r a b
unfolding quotient128
quotient128_exact a b round_down h k = refl
quotient128_exact a b round_up h k = ap (λ (t : ℕ). t / b) (omega arith)

u64_exact :
    (a b c : ℕ) (r : Rounding)
    → a ≤ uint64_max
    → b ≤ uint64_max
    → 0 < c
    → c ≤ uint64_max
    → big_divide_u64 a b c r
      ≡ (leb (round_div r (a * b) c) uint64_max, round_div r (a * b) c % 2 ^ 64)
unfolding big_divide_u64
u64_exact a b c r ha hb hc hd = rw (
  big_multiply_exact a b ha hb,
  quotient128_exact (a * b) c r hc (omega (arith, mul-le-max a b ha hb)),
)

-- When the quotient is kept, it has not been truncated.
try_from_u64 :
    (x : ℕ)
    → (if leb x uint64_max && leb (x % 2 ^ 64) int64_max then some (x % 2 ^ 64) else none)
      ≡ (if leb x int64_max then some x else none)
try_from_u64 x = ground arith

abbrev pub fit : ℕ → Option ℕ
fit x = if leb x int64_max then some x else none

-- `bigDivide` on `int64_t` gives the rounded quotient of the unbounded product, and refuses it only
-- if it does not fit.
pub try_big_divide_exact :
    (a b c : ℕ) (r : Rounding)
    → a ≤ int64_max
    → b ≤ int64_max
    → 0 < c
    → c ≤ int64_max
    → try_big_divide a b c r ≡ ok (fit (round_div r (a * b) c))
unfolding try_big_divide
try_big_divide_exact a b c r ha hb hc hd =
    ground (arith, u64_exact a b c r, try_from_u64 (round_div r (a * b) c))

pub big_divide_exact :
    (a b c : ℕ) (r : Rounding)
    → a ≤ int64_max
    → b ≤ int64_max
    → 0 < c
    → c ≤ int64_max
    → big_divide a b c r ≡ or_throw (fit (round_div r (a * b) c)) overflow
unfolding big_divide
big_divide_exact a b c r ha hb hc hd = rw (try_big_divide_exact a b c r ha hb hc hd)

-- The guard of the rounding-up case refuses only quotients that do not fit.
guard_is_safe :
    (a b : ℕ) → 0 < b → b ≤ int64_max → uint128_max - (b - 1) < a → int64_max < ceil_div a b
guard_is_safe a b h k l = omega (arith, le-div (a + b - 1) b (2 ^ 64) h (omega arith))

pub try_big_divide128_exact :
    (a b : ℕ) (r : Rounding)
    → 0 < b
    → b ≤ int64_max
    → a ≤ uint128_max
    → try_big_divide128 a b r ≡ ok (fit (round_div r a b))
unfolding try_big_divide128 big_divide_u128
try_big_divide128_exact a b round_down h k l =
    ground (arith, quotient128_down a b, try_from_u64 (a / b))
try_big_divide128_exact a b round_up h k l = elim (Bool-cases (ltb (uint128_max - (b - 1)) a)) [
  | inl wraps ↦ ground (arith, guard_is_safe a b h k)
  | inr fits ↦ ground (arith, quotient128_exact a b round_up, try_from_u64 (ceil_div a b))
]

-- `bigDivide` of a `uint128_t`, too: a sum that would wrap comes only with a quotient too large.
pub big_divide128_exact :
    (a b : ℕ) (r : Rounding)
    → 0 < b
    → b ≤ int64_max
    → a ≤ uint128_max
    → big_divide128 a b r ≡ or_throw (fit (round_div r a b)) overflow
unfolding big_divide128
big_divide128_exact a b r h k l = rw (try_big_divide128_exact a b r h k l)

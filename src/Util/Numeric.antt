-- ===== src/Util/Numeric.antt =====
-- util/numeric.h and util/numeric.cpp: multiplication and rounded division through 128 bits.
-- A `uint128_t` keeps its wrap-around written out. Every signed argument of these functions is
-- asserted to be at least 0, so it is a number here.
pub mod Exact
use essa_core.Prelude.{
  ℕ, ◌+◌, ◌-◌, ◌*◌, ◌/◌, ◌%◌, ◌^◌, Bool, true, false, not, ◌&&◌, Option, none, some, ltb, leb, ◌==◌,
  if◌then◌else◌,
}
use essa_core.Prelude.Result.{Result, ok, overflow, ◌>>=◌, ◌>>◌, assert, or_throw}

abbrev pub int64_max : ℕ
int64_max = 2 ^ 63 - 1

abbrev pub uint64_max : ℕ
uint64_max = 2 ^ 64 - 1

abbrev pub uint128_max : ℕ
uint128_max = 2 ^ 128 - 1

pub data Rounding : Type 0 where
  round_down round_up : Rounding

abbrev pub is_round_up : Rounding → Bool
is_round_up round_down = false
is_round_up round_up = true

unfoldable pub big_multiply : ℕ → ℕ → ℕ
big_multiply a b = a * b % 2 ^ 128

-- The quotient in `uint128_t` arithmetic.
unfoldable pub quotient128 : ℕ → ℕ → Rounding → ℕ
quotient128 a b rounding =
    if is_round_up rounding then (a + b + 2 ^ 128 - 1) % 2 ^ 128 / b else a / b

-- The `uint64_t` version: whether the quotient fits, and the quotient truncated to 64 bits.
unfoldable pub big_divide_u64 : ℕ → ℕ → ℕ → Rounding → Bool × ℕ
big_divide_u64 a b c rounding =
    let x = quotient128 (big_multiply a b) c rounding in (leb x uint64_max, x % 2 ^ 64)

-- The `int64_t` version that does not throw: `none` where it returns false, after which no caller
-- reads the result.
unfoldable pub try_big_divide : ℕ → ℕ → ℕ → Rounding → Result (Option ℕ)
try_big_divide a b c rounding = do
  assert (ltb 0 c)
  let (res, r2) = big_divide_u64 a b c rounding
  ok (if res && leb r2 int64_max then some r2 else none)

unfoldable pub big_divide : ℕ → ℕ → ℕ → Rounding → Result ℕ
big_divide a b c rounding = do r ← try_big_divide a b c rounding; or_throw r overflow

-- Division of a `uint128_t`. A sum that would wrap is refused before it is made.
unfoldable pub big_divide_u128 : ℕ → ℕ → Rounding → Result (Bool × ℕ)
big_divide_u128 a b rounding = do
  assert (not (b == 0))
  ok (
      if is_round_up rounding && ltb (uint128_max - (b - 1)) a
      then (false, 0)
      else (leb (quotient128 a b rounding) uint64_max, quotient128 a b rounding % 2 ^ 64))

unfoldable pub try_big_divide128 : ℕ → ℕ → Rounding → Result (Option ℕ)
try_big_divide128 a b rounding = do
  assert (ltb 0 b)
  r ← big_divide_u128 a b rounding
  ok (if r.0 && leb r.1 int64_max then some r.1 else none)

unfoldable pub big_divide128 : ℕ → ℕ → Rounding → Result ℕ
big_divide128 a b rounding = do r ← try_big_divide128 a b rounding; or_throw r overflow

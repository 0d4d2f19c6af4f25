-- ===== src/Util/Types.antt =====
-- util/types.cpp: addBalance on plain integers, and the order of prices.
use essa_core.Prelude.{◌*◌, Bool, true, false, ◌&&◌, not, ltb, leb, ◌==◌, if◌then◌else◌}
use essa_core.Prelude.Result.{Result, ok, ◌>>◌, assert}
use essa_core.Prelude.Int.{ℤ, pos, ◌+ℤ◌, ◌-ℤ◌, ltb_ℤ, eqb_ℤ}
use essa_core.Ledger.Entry.{Price}

-- Whether the change was made, and the balance after it.
unfoldable pub add_balance : ℤ → ℤ → ℤ → Result (Bool × ℤ)
add_balance balance delta max_balance = do
  assert (not (ltb_ℤ balance (pos 0)))
  assert (not (ltb_ℤ max_balance (pos 0)))
  ok (
      if eqb_ℤ delta (pos 0)
      then (true, balance)
      else (if ltb_ℤ delta (pos 0 -ℤ balance)
          then (false, balance)
          else (if ltb_ℤ (max_balance -ℤ balance) delta
              then (false, balance)
              else (true, balance +ℤ delta))))

-- The products of `int32_t` parts do not leave 128 bits.
unfoldable pub price_ge : Price → Price → Bool
price_ge a b = leb (a.d * b.n) (a.n * b.d)

unfoldable pub price_gt : Price → Price → Bool
price_gt a b = ltb (a.d * b.n) (a.n * b.d)

unfoldable pub price_eq : Price → Price → Bool
price_eq a b = a.n == b.n && a.d == b.d

-- ===== src/Transactions/Exchange/Trade.antt =====
-- The amounts that exchangeV10 computes, by unbounded division: `trade` on the smaller of the two
-- offers' values. They stay within any limits whose values the smaller one does not exceed.
use essa_core.Prelude.{
  ℕ, ◌*◌, ◌/◌, ◌^◌, ◌≤◌, ◌<◌, Bool, true, false, ◌&&◌, ◌||◌, ltb, if◌then◌else◌, arith, ceil_div,
  div-mul_le, le-ceil_div_mul, div-le, ceil_div-le,
}
use essa_core.Ledger.Entry.{Price}

-- Both parts of a price are positive `int32_t`.
pub record IsPrice (p : Price) : Type 0 where
  pub n_pos : 0 < p.n
  pub d_pos : 0 < p.d
  pub n_max : p.n < 2 ^ 31
  pub d_max : p.d < 2 ^ 31

-- The quantity divided first is wheat.
abbrev pub wheat_first : Price → Bool → Bool → Bool
wheat_first p stays path = ltb p.d p.n || (stays && path)

unfoldable pub trade : Price → Bool → Bool → ℕ → ℕ × ℕ
trade p stays path v =
    if wheat_first p stays path
    then (v / p.n, (if stays then ceil_div (v / p.n * p.n) p.d else v / p.n * p.n / p.d))
    else ((if stays then v / p.d * p.d / p.n else ceil_div (v / p.d * p.d) p.n), v / p.d)

-- The side whose offer stays is not worse off than at the price.
abbrev pub Favors : Price → Bool → ℕ → ℕ → Type 0
Favors p true wheat sheep = wheat * p.n ≤ sheep * p.d
Favors p false wheat sheep = sheep * p.d ≤ wheat * p.n

module _ (p : Price) (ip : IsPrice p) (stays path : Bool) (v : ℕ) where
  by_wheat : v / p.n * p.n ≤ v
  by_wheat = div-mul_le v p.n

  by_sheep : v / p.d * p.d ≤ v
  by_sheep = div-mul_le v p.d

  pub trade_wheat_le : (m : ℕ) → v ≤ m * p.n → (trade p stays path v).0 ≤ m
  unfolding trade
  trade_wheat_le m h = ground (
    arith,
    by_sheep,
    div-le v p.n m ip.n_pos h,
    div-le (v / p.d * p.d) p.n m ip.n_pos,
    ceil_div-le (v / p.d * p.d) p.n m ip.n_pos,
  )

  pub trade_sheep_le : (m : ℕ) → v ≤ m * p.d → (trade p stays path v).1 ≤ m
  unfolding trade
  trade_sheep_le m h = ground (
    arith,
    by_wheat,
    div-le v p.d m ip.d_pos h,
    div-le (v / p.n * p.n) p.d m ip.d_pos,
    ceil_div-le (v / p.n * p.n) p.d m ip.d_pos,
  )

  -- Rounding favours the offer that stays.
  pub trade-Favors : Favors p stays (trade p stays path v).0 (trade p stays path v).1
  unfolding trade
  trade-Favors = ground (
    arith,
    div-mul_le (v / p.n * p.n) p.d,
    div-mul_le (v / p.d * p.d) p.n,
    le-ceil_div_mul (v / p.n * p.n) p.d ip.d_pos,
    le-ceil_div_mul (v / p.d * p.d) p.n ip.n_pos,
  )

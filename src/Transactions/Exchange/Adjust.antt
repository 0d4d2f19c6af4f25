-- ===== src/Transactions/Exchange/Adjust.antt =====
-- adjustOffer: it returns an amount, which fits the offer's limits, and adjusting again changes
-- nothing. An adjusted offer is the case in which a path payment can not throw.
use essa_core.Prelude.{
  ℕ, ◌*◌, ◌/◌, ◌≤◌, ◌<◌, ◌≡◌, min, false, arith, ceil_div, div-mul_le, le-ceil_div_mul,
  mul_le_right, ceil_div-le, le-div, mul_div_cancel, div_mono, ap, inl, inr, ◌⊎◌, sym, ◌∙◌,
}
use essa_core.Prelude.Result.{ok}
use essa_core.Util.Numeric.{int64_max}
use essa_core.Ledger.Entry.{Price}
use essa_core.Transactions.Exchange.{adjust_offer_amount}
use essa_core.Transactions.Exchange.Trade.{IsPrice, trade, trade_wheat_le, trade_sheep_le}
use essa_core.Transactions.Exchange.Bounds.{wheat_value, stays_of}
use essa_core.Transactions.Exchange.Thresholds.{
  kept, IsFairToWheat, exchange_v10-settled, check_exact,
}

-- A buyer without limits never has the smaller offer.
sheep_stays :
    (p : Price) (mws msr : ℕ)
    → mws ≤ int64_max
    → msr ≤ int64_max
    → stays_of p mws int64_max int64_max msr ≡ false
sheep_stays p mws msr h k =
    ground (arith, mul_le_right mws int64_max p.n h, mul_le_right msr int64_max p.d k)

-- What a trade with such a buyer comes to.
abbrev pub offered : Price → ℕ → ℕ → ℕ × ℕ
offered p mws msr = trade p false false (wheat_value p mws msr)

abbrev pub wheat_kept : Price → ℕ × ℕ → ℕ
wheat_kept p t = (kept p t.0 t.1 false).num_wheat_received

abbrev pub adjusted : Price → ℕ → ℕ → ℕ
adjusted p mws msr = wheat_kept p (offered p mws msr)

pub adjust_offer_amount_exact :
    (p : Price) (mws msr : ℕ)
    → IsPrice p
    → mws ≤ int64_max
    → msr ≤ int64_max
    → adjust_offer_amount p mws msr ≡ ok (adjusted p mws msr)
unfolding adjust_offer_amount
adjust_offer_amount_exact p mws msr ip h k = rw (
  exchange_v10-settled p ip mws int64_max int64_max msr (record {
    wheat_send = h;
    wheat_receive = omega arith;
    sheep_send = omega arith;
    sheep_receive = k;
  }),
  sheep_stays p mws msr h k,
)

module _ (n d mws msr : ℕ) (n_pos : 0 < n) (d_pos : 0 < d) where
  v : ℕ
  v = min (mws * n) (msr * d)

  -- Where wheat is divided first.
  again_by_wheat : min (v / n * n) (msr * d) / n ≡ v / n
  unfolding v
  again_by_wheat =
      let whole = mul_div_cancel (v / n) n n_pos in
      let smaller : min (v / n * n) (msr * d) ≡ v / n * n = omega (arith, div-mul_le v n) in
      rw smaller whole

  -- Where sheep is divided first: the value of the new offer lies between the sheep sent and `v`.
  again_by_sheep : min (ceil_div (v / d * d) n * n) (msr * d) / d ≡ v / d
  unfolding v
  again_by_sheep =
      let below = div-mul_le v d in
      let above = le-ceil_div_mul (v / d * d) n n_pos in
      let wheat = ceil_div-le (v / d * d) n mws n_pos (omega (arith, below)) in
      let new = min (ceil_div (v / d * d) n * n) (msr * d) in
      omega (
        arith,
        le-div new d (v / d) d_pos (omega (arith, below, above)),
        div_mono new v d d_pos (omega (arith, mul_le_right _ _ n wheat)),
      )

module _ (p : Price) (ip : IsPrice p) (mws msr : ℕ) where
  -- Offering exactly the wheat that would be traded leads to the same trade.
  offered_again : offered p (offered p mws msr).0 msr ≡ offered p mws msr
  unfolding trade v
  offered_again = ground (
    arith,
    again_by_wheat p.n p.d mws msr ip.n_pos ip.d_pos,
    again_by_sheep p.n p.d mws msr ip.n_pos ip.d_pos,
  )

  -- Nothing on offer leads to no trade.
  offered_nothing : offered p 0 msr ≡ (0, 0)
  unfolding trade
  offered_nothing =
      let none_left : wheat_value p 0 msr ≡ 0 = omega arith in
      ground (
        arith,
        trade_wheat_le p ip false false (wheat_value p 0 msr) 0 (omega arith),
        trade_sheep_le p ip false false (wheat_value p 0 msr) 0 (omega arith),
      )

  -- What is kept is all of the trade, which the wheat seller does not lose on, or nothing.
  adjusted_cases :
      mws ≤ int64_max
      → msr ≤ int64_max
      → ((adjusted p mws msr ≡ (offered p mws msr).0)
          × IsFairToWheat p (offered p mws msr).0 (offered p mws msr).1)
        ⊎ (adjusted p mws msr ≡ 0)
  adjusted_cases h k =
      let t = offered p mws msr in
      let value : wheat_value p mws msr ≤ mws * p.n = omega arith in
      let value' : wheat_value p mws msr ≤ msr * p.d = omega arith in
      let wheat = trade_wheat_le p ip false false (wheat_value p mws msr) mws value in
      let sheep = trade_sheep_le p ip false false (wheat_value p mws msr) msr value' in
      ground (arith, check_exact p ip t.0 t.1 (omega arith) (omega arith))

module _ (p : Price) (ip : IsPrice p) (mws msr : ℕ) (h : mws ≤ int64_max)
    (k : msr ≤ int64_max) where
  adjusted_le : adjusted p mws msr ≤ mws
  adjusted_le =
      let value : wheat_value p mws msr ≤ mws * p.n = omega arith in
      ground (arith, trade_wheat_le p ip false false (wheat_value p mws msr) mws value)

  adjusted_again : adjusted p (adjusted p mws msr) msr ≡ adjusted p mws msr
  adjusted_again = elim (adjusted_cases p ip mws msr h k) [
    | inl (all, _) ↦ ap (λ x. adjusted p x msr) all ∙ ap (wheat_kept p) (offered_again p ip mws msr)
    | inr nothing ↦
        ap (λ x. adjusted p x msr) nothing
        ∙ ap (wheat_kept p) (offered_nothing p ip mws msr)
        ∙ sym nothing
  ]

  -- adjustOffer returns an amount within the offer's limits, and an offer that it has adjusted it
  -- leaves as it is.
  pub adjust_offer_idempotent :
      (a : ℕ) × (adjust_offer_amount p mws msr ≡ ok a)
      × (a ≤ mws)
      × (adjust_offer_amount p a msr ≡ ok a)
  adjust_offer_idempotent = (
    adjusted p mws msr,
    adjust_offer_amount_exact p mws msr ip h k,
    adjusted_le,
    adjust_offer_amount_exact p (adjusted p mws msr) msr ip (omega (arith, adjusted_le)) k
        ∙ ap ok adjusted_again,
  )

  -- Of an offer that adjustOffer leaves as it is.
  pub adjusted_fair :
      adjust_offer_amount p mws msr ≡ ok mws
      → (mws ≡ (offered p mws msr).0)
        × (wheat_kept p (offered p mws msr) ≡ mws)
        × IsFairToWheat p (offered p mws msr).0 (offered p mws msr).1
  adjusted_fair e =
      let same : adjusted p mws msr ≡ mws = cc (adjust_offer_amount_exact p mws msr ip h k) in
      elim (adjusted_cases p ip mws msr h k) [
        | inl (all, fair) ↦ (sym same ∙ all, same, fair)
        | inr nothing ↦
            let empty : mws ≡ 0 = sym same ∙ nothing in
            let t0 : offered p mws msr ≡ (0, 0) =
              ap (λ x. offered p x msr) empty ∙ offered_nothing p ip mws msr in
            ground (arith, t0, empty, same)
      ]

-- ===== src/Transactions/Offers/Capacity.antt =====
-- What canSellAtMost and canBuyAtMost report is what addBalance then lets through.
use essa_core.Prelude.{ℕ, ◌≤◌, ◌<◌, ◌≡◌, Bool, false, not, ◌&&◌, if◌then◌else◌, arith, refl, ◌∙◌}
use essa_core.Prelude.Result.{Result, ok, throw, ◌>>=◌}
use essa_core.Prelude.Int.{ℤ, pos, ◌+ℤ◌, ◌-ℤ◌, ltb_ℤ, ◌≤ℤ◌, +ℤ_parts, -ℤ_parts}
use essa_core.Util.Numeric.{int64_max}
use essa_core.Ledger.Entry.{
  Asset, native, AccountEntry, LedgerEntry, account, trust_line, offer, data_entry, TrustLineEntry,
  LedgerHeader,
}
use essa_core.Ledger.TrustLineWrapper.{
  TrustLineWrapper, inactive, non_issuer, issuer, is_active, line_is_authorized,
  line_available_balance, line_max_amount_receive, line_add_balance, change_line, wrap,
}
use essa_core.Transactions.TransactionUtils.{
  max_balance, liabilities_of, is_authorized, get_available_balance, get_max_amount_receive,
  get_buying_liabilities, add_balance,
}
use essa_core.Transactions.TransactionUtils.Valid.{IsValid, IsValidAccount}
use essa_core.Transactions.TransactionUtils.Limits.{usable, HasBalance, add_balance-within}
use essa_core.Transactions.Offers.{max_zero, can_sell_at_most, can_buy_at_most}

-- The entry in which an account keeps an asset is valid, if it is in the ledger.
abbrev pub IsValidHolding : AccountEntry → Asset → TrustLineWrapper → Type 0
IsValidHolding acc native line = IsValidAccount acc
IsValidHolding acc asset inactive = ⊥
IsValidHolding acc asset (non_issuer tl) = IsValid (trust_line tl)
IsValidHolding acc asset (issuer _ _) = Unit {0}

-- Whether a change goes through.
abbrev pub done : {A : Type 0} → Result (Bool × A) → Result Bool
done m = do (changed, _) ← m; ok changed

-- Whether a change of the asset that the account holds goes through.
abbrev pub change_holding : LedgerHeader → AccountEntry → Asset → TrustLineWrapper → ℤ → Result Bool
change_holding header acc native line delta = done (add_balance header (account acc) delta)
change_holding header acc asset line delta = done (line_add_balance header line delta)

-- What an unusable entry or an entry in order reports as receivable.
receivable_in :
    (h : LedgerHeader) (e : LedgerEntry) (r : ℤ)
    → 10 ≤ h.ledger_version
    → HasBalance e
    → IsValid e
    → get_max_amount_receive h e ≡ ok r
    → (pos 0 ≤ℤ r) × (usable e ≡ false → r ≡ pos 0)
unfolding get_max_amount_receive get_buying_liabilities
receivable_in h (account acc) r v b k e =
    let owed = (liabilities_of acc.ext).buying in
    ground (arith, k.room, +ℤ_parts acc.balance owed, -ℤ_parts max_balance (acc.balance +ℤ owed))
receivable_in h (trust_line tl) r v b k e =
    let owed = (liabilities_of tl.ext).buying in
    ground (
      arith,
      k.room,
      +ℤ_parts tl.balance owed,
      -ℤ_parts tl.limit tl.balance,
      -ℤ_parts (tl.limit -ℤ tl.balance) owed,
    )
receivable_in h e r v b k i = absurd b

-- An entry lets an amount out, or in, exactly up to what it reports.
abbrev Limited : LedgerHeader → LedgerEntry → ℕ → Type 0
Limited h e a =
    (available receivable : ℤ) × (get_available_balance h e ≡ ok available)
    × (get_max_amount_receive h e ≡ ok receivable)
    × (done (add_balance h e (pos 0 -ℤ pos a))
        ≡ ok (usable e && not (ltb_ℤ (max_zero available) (pos a))))
    × (done (add_balance h e (pos a)) ≡ ok (not (ltb_ℤ (max_zero receivable) (pos a))))

limited :
    (h : LedgerHeader) (e : LedgerEntry) (a : ℕ)
    → 10 ≤ h.ledger_version
    → HasBalance e
    → IsValid e
    → 0 < a
    → Limited h e a
unfolding max_zero
limited h e a v b k positive =
    let negated = -ℤ_parts (pos 0) (pos a) in
    let back = -ℤ_parts (pos 0) (pos 0 -ℤ pos a) in
    let (available, receivable, sells, buys, out) =
      add_balance-within h e (pos 0 -ℤ pos a) v b k (ground (arith, negated)) in
    let (available', receivable', sells', buys', into) =
      add_balance-within h e (pos a) v b k (ground arith) in
    let (low, unusable) = receivable_in h e receivable v b k buys in
    let same : receivable' ≡ receivable = cc in
    (
      available,
      receivable,
      sells,
      buys,
      ground (arith, negated, back, low, out),
      ground (arith, low, unusable, same, into),
    )

-- The wrapper reports what the entry does.
done-wrap :
    (tl : TrustLineEntry) (m : Result (Bool × LedgerEntry))
    → done (m >>= (λ after. ok (wrap (non_issuer tl) after))) ≡ done m
done-wrap tl (throw e) = refl
done-wrap tl (ok (b, account _)) = refl
done-wrap tl (ok (b, trust_line _)) = refl
done-wrap tl (ok (b, offer _)) = refl
done-wrap tl (ok (b, data_entry _)) = refl

-- From version 10 on, for an asset that a valid entry of the account keeps, or that it issues, and
-- an int64 amount above 0: canSellAtMost and canBuyAtMost return, and addBalance takes the amount
-- out, or in, exactly if it is at most what they report.
pub capacity_exact :
    (h : LedgerHeader) (acc : AccountEntry) (asset : Asset) (line : TrustLineWrapper) (a : ℕ)
    → 10 ≤ h.ledger_version
    → IsValidHolding acc asset line
    → 0 < a
    → a ≤ int64_max
    → (sell buy : ℤ) × (can_sell_at_most h (account acc) asset line ≡ ok sell)
      × (can_buy_at_most h (account acc) asset line ≡ ok buy)
      × (change_holding h acc asset line (pos 0 -ℤ pos a) ≡ ok (not (ltb_ℤ sell (pos a))))
      × (change_holding h acc asset line (pos a) ≡ ok (not (ltb_ℤ buy (pos a))))
unfolding can_sell_at_most can_buy_at_most is_active line_is_authorized line_available_balance
    line_max_amount_receive line_add_balance change_line max_zero
capacity_exact h acc native line a v k positive fits =
    let (available, receivable, sells, buys, out, into) =
      limited h (account acc) a v tt k positive in
    (max_zero available, max_zero receivable, ground arith, ground arith, out, into)
capacity_exact h acc asset inactive a v k positive fits = absurd k
capacity_exact h acc asset (non_issuer tl) a v k positive fits =
    let (available, receivable, sells, buys, out, into) =
      limited h (trust_line tl) a v tt k positive in
    let out_line = done-wrap tl (add_balance h (trust_line tl) (pos 0 -ℤ pos a)) ∙ out in
    let into_line = done-wrap tl (add_balance h (trust_line tl) (pos a)) ∙ into in
    (
      if is_authorized tl then max_zero available else pos 0,
      max_zero receivable,
      ground arith,
      ground arith,
      ground (arith, out_line),
      into_line,
    )
capacity_exact h acc asset (issuer _ _) a v k positive fits =
    (max_balance, max_balance, refl, refl, ground arith, ground arith)

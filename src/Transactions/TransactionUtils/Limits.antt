-- ===== src/Transactions/TransactionUtils/Limits.antt =====
-- addBalance against getAvailableBalance and getMaxAmountReceive: a change succeeds exactly when it
-- stays within what those two report.
use essa_core.Prelude.{
  ℕ, ◌≤◌, ◌≡◌, Bool, true, false, not, ◌&&◌, if◌then◌else◌, arith, inl, inr, Bool-cases,
}
use essa_core.Prelude.Result.{ok}
use essa_core.Prelude.Int.{ℤ, pos, ◌+ℤ◌, ◌-ℤ◌, ltb_ℤ, eqb_ℤ, ◌≤ℤ◌, +ℤ_parts, -ℤ_parts, neg_part}
use essa_core.Ledger.Entry.{
  AccountEntry, TrustLineEntry, LedgerEntry, account, trust_line, LedgerHeader,
}
use essa_core.Transactions.TransactionUtils.{
  max_balance, liabilities_of, is_authorized, get_min_balance, get_buying_liabilities,
  get_selling_liabilities, account_has_room, trust_line_has_room, add_balance,
  get_available_balance, get_max_amount_receive,
}
use essa_core.Transactions.TransactionUtils.Valid.{
  IsValid, IsValidAccount, IsValidTrustLine, types_add_balance,
}

-- A change by `delta` takes no more than `available` and brings no more than `receivable`.
abbrev pub within : ℤ → ℤ → ℤ → Bool
within available receivable delta =
    not (ltb_ℤ receivable delta) && not (ltb_ℤ delta (pos 0) && ltb_ℤ available (pos 0 -ℤ delta))

pub get_min_balance_pos : (header : LedgerHeader) (n : ℕ) → neg_part (get_min_balance header n) ≡ 0
unfolding get_min_balance
get_min_balance_pos header n = ground arith

room_arith :
    (b d m s buy : ℤ)
    → neg_part m ≡ 0
    → pos 0 ≤ℤ b
    → pos 0 ≤ℤ s
    → pos 0 ≤ℤ buy
    → b +ℤ buy ≤ℤ max_balance
    → (not (ltb_ℤ (b +ℤ d) (pos 0))
        && not (ltb_ℤ max_balance (b +ℤ d))
        && (not (ltb_ℤ d (pos 0) && ltb_ℤ (b +ℤ d -ℤ m) s)
            && not (ltb_ℤ (max_balance -ℤ buy) (b +ℤ d))))
      ≡ within (b -ℤ m -ℤ s) (max_balance -ℤ (b +ℤ buy)) d
room_arith b d m s buy hm hb hs hbuy hroom = ground (
  arith,
  +ℤ_parts b d,
  -ℤ_parts (b +ℤ d) m,
  -ℤ_parts max_balance buy,
  -ℤ_parts b m,
  -ℤ_parts (b -ℤ m) s,
  +ℤ_parts b buy,
  -ℤ_parts max_balance (b +ℤ buy),
  -ℤ_parts (pos 0) d,
)

account_has_room_exact :
    (h : LedgerHeader) (acc : AccountEntry) (d new : ℤ)
    → 10 ≤ h.ledger_version
    → account_has_room h acc d new
      ≡ ok (
          not (
            ltb_ℤ d (pos 0)
            && ltb_ℤ
                (new -ℤ get_min_balance h acc.num_sub_entries)
                (liabilities_of acc.ext).selling)
          && not (ltb_ℤ (max_balance -ℤ (liabilities_of acc.ext).buying) new))
unfolding account_has_room get_selling_liabilities get_buying_liabilities
account_has_room_exact h acc d new v = ground arith

abbrev pub available_in : LedgerHeader → AccountEntry → ℤ
available_in h acc =
    acc.balance -ℤ get_min_balance h acc.num_sub_entries -ℤ (liabilities_of acc.ext).selling

abbrev pub receivable_in : AccountEntry → ℤ
receivable_in acc = max_balance -ℤ (acc.balance +ℤ (liabilities_of acc.ext).buying)

abbrev pub moved : AccountEntry → ℤ → AccountEntry
moved acc d = record acc { balance = acc.balance +ℤ d }

module _ (h : LedgerHeader) (acc : AccountEntry) (d : ℤ) (v : 10 ≤ h.ledger_version)
    (ok_acc : IsValidAccount acc) where
  pub account_adds :
      eqb_ℤ d (pos 0) ≡ false
      → add_balance h (account acc) d
        ≡ ok (
            if within (available_in h acc) (receivable_in acc) d
            then (true, account (moved acc d))
            else (false, account acc))
  unfolding add_balance
  account_adds nonzero = ground (
    arith,
    types_add_balance acc.balance d max_balance ok_acc.balance_pos (omega arith) nonzero,
    account_has_room_exact h acc d (acc.balance +ℤ d) v,
    room_arith acc.balance d (get_min_balance h acc.num_sub_entries)
        (liabilities_of acc.ext).selling (liabilities_of acc.ext).buying
        (get_min_balance_pos h acc.num_sub_entries) ok_acc.balance_pos ok_acc.selling_pos
        ok_acc.buying_pos ok_acc.room,
  )

line_arith :
    (b d limit s buy : ℤ)
    → pos 0 ≤ℤ s
    → pos 0 ≤ℤ buy
    → s ≤ℤ b
    → b +ℤ buy ≤ℤ limit
    → (not (ltb_ℤ (b +ℤ d) (pos 0))
        && not (ltb_ℤ limit (b +ℤ d))
        && (not (ltb_ℤ (b +ℤ d) s) && not (ltb_ℤ (limit -ℤ buy) (b +ℤ d))))
      ≡ within (b -ℤ s) (limit -ℤ b -ℤ buy) d
line_arith b d limit s buy hs hbuy covered room = ground (
  arith,
  +ℤ_parts b d,
  -ℤ_parts limit buy,
  -ℤ_parts b s,
  +ℤ_parts b buy,
  -ℤ_parts limit b,
  -ℤ_parts (limit -ℤ b) buy,
  -ℤ_parts (pos 0) d,
)

trust_line_has_room_exact :
    (h : LedgerHeader) (tl : TrustLineEntry) (new : ℤ)
    → 10 ≤ h.ledger_version
    → trust_line_has_room h tl new
      ≡ ok (
          not (ltb_ℤ new (liabilities_of tl.ext).selling)
          && not (ltb_ℤ (tl.limit -ℤ (liabilities_of tl.ext).buying) new))
unfolding trust_line_has_room get_selling_liabilities get_buying_liabilities
trust_line_has_room_exact h tl new v = ground arith

-- The entries that hold a balance which the operations may use.
abbrev pub usable : LedgerEntry → Bool
usable (account acc) = true
usable (trust_line tl) = is_authorized tl
usable _ = false

abbrev pub HasBalance : LedgerEntry → Type 0
HasBalance (account acc) = Unit {0}
HasBalance (trust_line tl) = Unit {0}
HasBalance _ = ⊥

-- The entry with its balance moved.
abbrev pub moved_entry : LedgerEntry → ℤ → LedgerEntry
moved_entry (account acc) d = account (moved acc d)
moved_entry (trust_line tl) d = trust_line (record tl { balance = tl.balance +ℤ d })
moved_entry e d = e

module _ (h : LedgerHeader) (tl : TrustLineEntry) (d : ℤ) (v : 10 ≤ h.ledger_version)
    (ok_tl : IsValidTrustLine tl) where
  pub limit_pos : pos 0 ≤ℤ tl.limit
  limit_pos = omega (
    arith,
    +ℤ_parts tl.balance (liabilities_of tl.ext).buying,
    ok_tl.room,
    ok_tl.covered,
    ok_tl.selling_pos,
    ok_tl.buying_pos,
  )

  pub balance_pos : pos 0 ≤ℤ tl.balance
  balance_pos = omega (arith, ok_tl.covered, ok_tl.selling_pos)

  pub trust_line_adds :
      eqb_ℤ d (pos 0) ≡ false
      → is_authorized tl ≡ true
      → add_balance h (trust_line tl) d
        ≡ ok (
            if within
              (tl.balance -ℤ (liabilities_of tl.ext).selling)
              (tl.limit -ℤ tl.balance -ℤ (liabilities_of tl.ext).buying)
              d
            then (true, moved_entry (trust_line tl) d)
            else (false, trust_line tl))
  unfolding add_balance
  trust_line_adds nonzero auth = ground (
    arith,
    types_add_balance tl.balance d tl.limit balance_pos limit_pos nonzero,
    trust_line_has_room_exact h tl (tl.balance +ℤ d) v,
    line_arith tl.balance d tl.limit (liabilities_of tl.ext).selling (liabilities_of tl.ext).buying
        ok_tl.selling_pos ok_tl.buying_pos ok_tl.covered ok_tl.room,
  )

pub trust_line_refuses :
    (h : LedgerHeader) (tl : TrustLineEntry) (d : ℤ)
    → eqb_ℤ d (pos 0) ≡ false
    → is_authorized tl ≡ false
    → add_balance h (trust_line tl) d ≡ ok (false, trust_line tl)
unfolding add_balance
trust_line_refuses h tl d nonzero refused = ground arith

-- From version 10 on, for a valid account or trust line and a change that is not 0: addBalance
-- makes the change exactly if the entry may be used, it takes at most what getAvailableBalance
-- reports and brings at most what getMaxAmountReceive reports. It changes nothing but the balance.
pub add_balance-within :
    (h : LedgerHeader) (e : LedgerEntry) (d : ℤ)
    → 10 ≤ h.ledger_version
    → HasBalance e
    → IsValid e
    → eqb_ℤ d (pos 0) ≡ false
    → (available receivable : ℤ) × (get_available_balance h e ≡ ok available)
      × (get_max_amount_receive h e ≡ ok receivable)
      × (add_balance h e d
          ≡ ok (
              if usable e && within available receivable d
              then (true, moved_entry e d)
              else (false, e)))
unfolding get_available_balance get_max_amount_receive get_selling_liabilities
    get_buying_liabilities
add_balance-within h (account acc) d v b ok_e nonzero = (
  available_in h acc,
  receivable_in acc,
  ground arith,
  ground arith,
  account_adds h acc d v ok_e nonzero,
)
add_balance-within h (trust_line tl) d v b ok_e nonzero = elim (Bool-cases (is_authorized tl)) [
  | inl auth ↦ (
    tl.balance -ℤ (liabilities_of tl.ext).selling,
    tl.limit -ℤ tl.balance -ℤ (liabilities_of tl.ext).buying,
    ground arith,
    ground arith,
    rw auth (trust_line_adds h tl d v ok_e nonzero auth),
  )
  | inr refused ↦ (
    tl.balance -ℤ (liabilities_of tl.ext).selling,
    pos 0,
    ground arith,
    ground arith,
    rw refused (trust_line_refuses h tl d nonzero refused),
  )
]
add_balance-within h e d v b ok_e nonzero = absurd b

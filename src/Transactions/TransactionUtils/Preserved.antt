-- ===== src/Transactions/TransactionUtils/Preserved.antt =====
-- Every change of a balance or of liabilities keeps the invariant of `Valid`, and one that is refused
-- changes nothing.
use essa_core.Prelude.{◌≤◌, ◌≡◌, Bool, true, false, not, ◌&&◌, arith, refl, inl, inr, Bool-cases}
use essa_core.Prelude.Result.{Result, ok}
use essa_core.Prelude.Int.{ℤ, pos, ◌+ℤ◌, ◌-ℤ◌, ltb_ℤ, eqb_ℤ, ◌≤ℤ◌, int_laws}
use essa_core.Ledger.Entry.{
  AccountEntry, TrustLineEntry, LedgerEntry, account, trust_line, LedgerHeader,
}
use essa_core.Transactions.TransactionUtils.{
  max_balance, liabilities_of, is_authorized, get_min_balance, get_buying_liabilities,
  get_selling_liabilities, with_buying, with_selling, add_balance, add_buying_liabilities,
  add_selling_liabilities,
}
use essa_core.Transactions.TransactionUtils.Valid.{
  IsValid, IsValidAccount, IsValidTrustLine, types_add_balance,
}
use essa_core.Transactions.TransactionUtils.Limits.{
  HasBalance, moved, account_adds, trust_line_adds, trust_line_refuses, balance_pos,
  get_min_balance_pos,
}
use essa_core.Transactions.TransactionUtils.Settles.{
  Settles, Settles-if, moved_account, moved_line, fits, fits_arith,
}

module _ (h : LedgerHeader) (acc : AccountEntry) (d : ℤ) (v : 10 ≤ h.ledger_version)
    (ok_acc : IsValidAccount acc) where
  account_balance : eqb_ℤ d (pos 0) ≡ false → Settles (account acc) (add_balance h (account acc) d)
  account_balance nonzero =
      Settles-if _ (account (moved acc d)) _ _ ok_acc
        (λ e.
          let (low, high) =
            moved_account acc.balance d (get_min_balance h acc.num_sub_entries)
              (liabilities_of acc.ext).selling (liabilities_of acc.ext).buying
              (get_min_balance_pos h acc.num_sub_entries) ok_acc.balance_pos ok_acc.selling_pos
              ok_acc.room e in
          record {
            balance_pos = low;
            buying_pos = ok_acc.buying_pos;
            selling_pos = ok_acc.selling_pos;
            room = high;
          })
        (account_adds h acc d v ok_acc nonzero)

  left : pos 0 ≤ℤ max_balance -ℤ acc.balance
  left = omega (int_laws, ok_acc.room, ok_acc.buying_pos)

  account_buying :
      eqb_ℤ d (pos 0) ≡ false → Settles (account acc) (add_buying_liabilities h (account acc) d)
  unfolding add_buying_liabilities get_buying_liabilities liabilities_of
  account_buying nonzero =
      Settles-if _
        (account (record acc { ext = with_buying acc.ext ((liabilities_of acc.ext).buying +ℤ d) }))
        _ (fits (max_balance -ℤ acc.balance) ((liabilities_of acc.ext).buying +ℤ d)) ok_acc
        (λ e.
          let (low, high) = fits_arith acc.balance max_balance _ e in
          record {
            balance_pos = ok_acc.balance_pos;
            buying_pos = low;
            selling_pos = ok_acc.selling_pos;
            room = high;
          })
        (ground (
          arith,
          types_add_balance (liabilities_of acc.ext).buying d (max_balance -ℤ acc.balance)
              ok_acc.buying_pos left nonzero,
        ))

  account_selling :
      eqb_ℤ d (pos 0) ≡ false → Settles (account acc) (add_selling_liabilities h (account acc) d)
  unfolding add_selling_liabilities get_selling_liabilities liabilities_of
  account_selling nonzero =
      let owed = (liabilities_of acc.ext).selling in
      let most = acc.balance -ℤ get_min_balance h acc.num_sub_entries in
      Settles-if _ (account (record acc { ext = with_selling acc.ext (owed +ℤ d) })) _
        (not (ltb_ℤ most (pos 0)) && fits most (owed +ℤ d)) ok_acc
        (λ e. record {
          balance_pos = ok_acc.balance_pos;
          buying_pos = ok_acc.buying_pos;
          selling_pos = ground arith;
          room = ok_acc.room;
        })
        (ground (arith, types_add_balance owed d most ok_acc.selling_pos))

module _ (h : LedgerHeader) (tl : TrustLineEntry) (d : ℤ) (v : 10 ≤ h.ledger_version)
    (ok_tl : IsValidTrustLine tl) where
  line_balance : eqb_ℤ d (pos 0) ≡ false → Settles (trust_line tl) (add_balance h (trust_line tl) d)
  line_balance nonzero = elim (Bool-cases (is_authorized tl)) [
    | inr refused ↦
        ((false, trust_line tl), trust_line_refuses h tl d nonzero refused, ok_tl, λ _. refl)
    | inl auth ↦
        Settles-if _ (trust_line (record tl { balance = tl.balance +ℤ d })) _ _ ok_tl
          (λ e.
            let (low, high) =
              moved_line tl.balance d tl.limit (liabilities_of tl.ext).selling
                (liabilities_of tl.ext).buying ok_tl.covered ok_tl.room e in
            record {
              selling_pos = ok_tl.selling_pos;
              buying_pos = ok_tl.buying_pos;
              covered = low;
              room = high;
              limit_max = ok_tl.limit_max;
            })
          (trust_line_adds h tl d v ok_tl nonzero auth)
  ]

  line_left : pos 0 ≤ℤ tl.limit -ℤ tl.balance
  line_left = omega (int_laws, ok_tl.room, ok_tl.buying_pos)

  line_buying :
      eqb_ℤ d (pos 0) ≡ false → Settles (trust_line tl) (add_buying_liabilities h (trust_line tl) d)
  unfolding add_buying_liabilities get_buying_liabilities liabilities_of
  line_buying nonzero =
      let owed = (liabilities_of tl.ext).buying in
      Settles-if _ (trust_line (record tl { ext = with_buying tl.ext (owed +ℤ d) })) _
        (is_authorized tl && fits (tl.limit -ℤ tl.balance) (owed +ℤ d)) ok_tl
        (λ e.
          let (low, high) = fits_arith tl.balance tl.limit (owed +ℤ d) (ground arith) in
          record {
            selling_pos = ok_tl.selling_pos;
            buying_pos = low;
            covered = ok_tl.covered;
            room = high;
            limit_max = ok_tl.limit_max;
          })
        (ground (
          arith,
          types_add_balance owed d (tl.limit -ℤ tl.balance) ok_tl.buying_pos line_left nonzero,
        ))

  line_selling :
      eqb_ℤ d (pos 0) ≡ false
      → Settles (trust_line tl) (add_selling_liabilities h (trust_line tl) d)
  unfolding add_selling_liabilities get_selling_liabilities liabilities_of
  line_selling nonzero =
      let owed = (liabilities_of tl.ext).selling in
      Settles-if _ (trust_line (record tl { ext = with_selling tl.ext (owed +ℤ d) })) _
        (is_authorized tl && fits tl.balance (owed +ℤ d)) ok_tl
        (λ e. record {
          selling_pos = ground arith;
          buying_pos = ok_tl.buying_pos;
          covered = ground arith;
          room = ok_tl.room;
          limit_max = ok_tl.limit_max;
        })
        (ground (
          arith,
          types_add_balance owed d tl.balance ok_tl.selling_pos (balance_pos h tl d v ok_tl)
              nonzero,
        ))

-- A change by 0 succeeds and does nothing.
zero_changes :
    (h : LedgerHeader) (e : LedgerEntry) (d : ℤ)
    → 10 ≤ h.ledger_version
    → HasBalance e
    → eqb_ℤ d (pos 0) ≡ true
    → (add_balance h e d ≡ ok (true, e))
      × (add_buying_liabilities h e d ≡ ok (true, e))
      × (add_selling_liabilities h e d ≡ ok (true, e))
unfolding add_balance add_buying_liabilities add_selling_liabilities get_buying_liabilities
    get_selling_liabilities
zero_changes h (account acc) d v b z = ground arith
zero_changes h (trust_line tl) d v b z = ground arith
zero_changes h e d v b z = absurd b

Settles-zero :
    (e : LedgerEntry) (m : Result (Bool × LedgerEntry)) → IsValid e → m ≡ ok (true, e) → Settles e m
Settles-zero e m v h = ((true, e), h, v, λ x. cc)

zero-Settles :
    (h : LedgerHeader) (e : LedgerEntry) (d : ℤ)
    → 10 ≤ h.ledger_version
    → HasBalance e
    → IsValid e
    → eqb_ℤ d (pos 0) ≡ true
    → Settles e (add_balance h e d)
      × Settles e (add_buying_liabilities h e d)
      × Settles e (add_selling_liabilities h e d)
zero-Settles h e d v b ok_e z =
    let (x, y, w) = zero_changes h e d v b z in
    (Settles-zero e _ ok_e x, Settles-zero e _ ok_e y, Settles-zero e _ ok_e w)

-- From version 10 on and on a valid account or trust line, addBalance, addBuyingLiabilities and
-- addSellingLiabilities return: the entry is valid after them, and unchanged if they refuse.
pub changes-IsValid :
    (h : LedgerHeader) (e : LedgerEntry) (d : ℤ)
    → 10 ≤ h.ledger_version
    → HasBalance e
    → IsValid e
    → Settles e (add_balance h e d)
      × Settles e (add_buying_liabilities h e d)
      × Settles e (add_selling_liabilities h e d)
changes-IsValid h (account acc) d v b ok_e = elim (Bool-cases (eqb_ℤ d (pos 0))) [
  | inl z ↦ zero-Settles h _ d v b ok_e z
  | inr n ↦ (
    account_balance h acc d v ok_e n,
    account_buying h acc d v ok_e n,
    account_selling h acc d v ok_e n,
  )
]
changes-IsValid h (trust_line tl) d v b ok_e = elim (Bool-cases (eqb_ℤ d (pos 0))) [
  | inl z ↦ zero-Settles h _ d v b ok_e z
  | inr n ↦
      (line_balance h tl d v ok_e n, line_buying h tl d v ok_e n, line_selling h tl d v ok_e n)
]
changes-IsValid h e d v b ok_e = absurd b

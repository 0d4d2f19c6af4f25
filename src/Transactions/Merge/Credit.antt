-- ===== src/Transactions/Merge/Credit.antt =====
-- When MergeOpFrame::doApply succeeds, and the balance that it adds: transactions/MergeOpFrame.cpp.
use essa_core.Prelude.{
  ◌≤◌, ◌<◌, ◌/◌, ◌%◌, ◌^◌, ◌≡◌, refl, sym, ◌∙◌, ap, Bool, true, false, ◌&&◌, not, ◌==◌, length,
  arith, leb, none, some, if◌then◌else◌, Bool-cases, inl, inr,
}
use essa_core.Prelude.Int.{ℤ, pos, negsuc, ◌+ℤ◌, eqb_ℤ, ltb_ℤ, -ℤ_parts}
use essa_core.Prelude.Result.{Result, ok, throw}
use essa_core.Ledger.Entry.{AccountEntry, LedgerEntry, account, LedgerHeader}
use essa_core.Ledger.LedgerTxn.{is_some}
use essa_core.Transactions.TransactionUtils.{
  add_balance, liabilities_of, max_balance, is_immutable_auth,
}
use essa_core.Transactions.TransactionUtils.Valid.{IsValidAccount}
use essa_core.Transactions.TransactionUtils.Limits.{
  add_balance-within, within, available_in, receivable_in, account_adds,
}
use essa_core.Transactions.TransactionUtils.Sequences.{starting_sequence, starting_sequence_exact}
use essa_core.Transactions.Merge.{
  AccountMergeResultCode, account_merge_success, account_merge_immutable_set,
  account_merge_has_sub_entries, account_merge_seqnum_too_far, merge_refused,
}

abbrev pub is_success : AccountMergeResultCode → Bool
is_success account_merge_success = true
is_success _ = false

-- Whether addBalance had room.
abbrev pub fits : Result (Bool × LedgerEntry) → Bool
fits (throw e) = false
fits (ok (b, body)) = b

-- Nothing refuses the merge.
unfoldable pub goes_through : LedgerHeader → AccountEntry → AccountEntry → Bool
unfolding merge_refused
goes_through h src dst =
    not (is_some (merge_refused h src)) && fits (add_balance h (account dst) src.balance)

-- The source account is not immutable, all its sub entries are signers, its sequence number is below
-- that of an account that is created now, and its balance is within what the destination can receive.
unfoldable pub may_merge : LedgerHeader → AccountEntry → AccountEntry → Bool
may_merge h src dst =
    not (src.flags / 4 % 2 == 1)
    && (src.num_sub_entries == length src.signers)
    && ltb_ℤ src.seq_num (starting_sequence h.ledger_seq)
    && within (available_in h dst) (receivable_in dst) src.balance

abbrev pub credited : AccountEntry → ℤ → AccountEntry
credited acc amount = record acc { balance = acc.balance +ℤ amount }

plus_nothing : (b d : ℤ) → eqb_ℤ d (pos 0) ≡ true → b +ℤ d ≡ b
unfolding ◌+ℤ◌
plus_nothing (pos n) (pos m) h = ground (arith, h)
plus_nothing (negsuc n) (pos m) h = ground (arith, h)
plus_nothing b (negsuc m) h = absurd (ground (arith, h))

adds_nothing :
    (h : LedgerHeader) (acc : AccountEntry) (amount : ℤ)
    → eqb_ℤ amount (pos 0) ≡ true
    → add_balance h (account acc) amount ≡ ok (true, account acc)
unfolding add_balance
adds_nothing h acc amount e = ground (arith, e)

-- A balance that is added is added as a whole or not at all.
pub adds_balance :
    (h : LedgerHeader) (acc : AccountEntry) (amount : ℤ)
    → 10 ≤ h.ledger_version
    → IsValidAccount acc
    → (fits : Bool) × (add_balance h (account acc) amount
        ≡ ok (if fits then (true, account (credited acc amount)) else (false, account acc)))
adds_balance h acc amount v ok_acc = elim (Bool-cases (eqb_ℤ amount (pos 0))) [
  | inl e ↦ (
    true,
    adds_nothing h acc amount e
        ∙ ap (λ b. ok (true, account (record acc { balance = b })))
            (sym (plus_nothing acc.balance amount e)),
  )
  | inr e ↦
      let (available, receivable, _, _, added) =
        add_balance-within h (account acc) amount v tt ok_acc e in
      (within available receivable amount, added)
]

pub merge_refused_fails :
    (h : LedgerHeader) (acc : AccountEntry) (code : AccountMergeResultCode)
    → merge_refused h acc ≡ some code
    → is_success code ≡ false
unfolding merge_refused
merge_refused_fails h acc account_merge_success e = absurd (ground (arith, e))
merge_refused_fails h acc _ e = refl

credit_fits :
    (h : LedgerHeader) (acc : AccountEntry) (amount : ℤ)
    → 10 ≤ h.ledger_version
    → IsValidAccount acc
    → fits (add_balance h (account acc) amount)
      ≡ within (available_in h acc) (receivable_in acc) amount
credit_fits h acc amount v w = elim (Bool-cases (eqb_ℤ amount (pos 0))) [
  | inl e ↦ ground (
    arith,
    adds_nothing h acc amount e,
    e,
    w.room,
    -ℤ_parts max_balance (acc.balance +ℤ (liabilities_of acc.ext).buying),
  )
  | inr e ↦ rw (account_adds h acc amount v w e) (ground arith)
]

gates :
    {A : Type 0} (x y z : A) (a b c : Bool)
    → not (
        is_some
          (if a then some x else (if not b then some y else (if not c then some z else none))))
      ≡ (not a && b && c)
unfolding is_some
gates x y z true b c = refl
gates x y z false true true = refl
gates x y z false true false = refl
gates x y z false false c = refl

unrefused :
    (h : LedgerHeader) (src : AccountEntry)
    → 10 ≤ h.ledger_version
    → h.ledger_seq < 2 ^ 32
    → not (is_some (merge_refused h src)) ≡ (
        not (src.flags / 4 % 2 == 1)
        && (src.num_sub_entries == length src.signers)
        && ltb_ℤ src.seq_num (starting_sequence h.ledger_seq))
unfolding merge_refused is_immutable_auth
unrefused h src v small =
    let recent : leb 10 h.ledger_version ≡ true = ground (arith, v) in
    rw (starting_sequence_exact h small, recent)
      (gates account_merge_immutable_set account_merge_has_sub_entries account_merge_seqnum_too_far
        (src.flags / 4 % 2 == 1) (src.num_sub_entries == length src.signers)
        (ltb_ℤ src.seq_num (starting_sequence h.ledger_seq)))

pub may_merge_exact :
    (h : LedgerHeader) (src dst : AccountEntry)
    → 10 ≤ h.ledger_version
    → h.ledger_seq < 2 ^ 32
    → IsValidAccount dst
    → goes_through h src dst ≡ may_merge h src dst
unfolding goes_through may_merge
may_merge_exact h src dst v small w =
    ground (arith, unrefused h src v small, credit_fits h dst src.balance v w)

-- ===== src/Transactions/Merge.antt =====
-- MergeOpFrame::doApply of transactions/MergeOpFrame.cpp, from protocol version 8 on, on a transaction
-- of the ledger.
pub mod Credit
pub mod Moves
use essa_core.Prelude.{
  ℕ, Bool, true, false, not, ◌&&◌, leb, ltb, ◌==◌, Option, none, some, length, if◌then◌else◌,
}
use essa_core.Prelude.Int.{ltb_ℤ}
use essa_core.Prelude.Result.{Result, ok, throw, runtime, ◌>>=◌}
use essa_core.Ledger.Entry.{AccountEntry, LedgerEntry, LedgerHeader}
use essa_core.Ledger.LedgerKey.{LedgerKey, Entry, account_key}
use essa_core.Ledger.LedgerTxn.{Newest, LedgerTxn, load_header, set_current, erase}
use essa_core.Transactions.TransactionUtils.{
  add_balance, is_immutable_auth, get_starting_sequence_number, to_sequence_number,
}
use essa_core.Transactions.OperationFrame.{
  release, release_header, load_account, as_account, with_body,
}

pub data AccountMergeResultCode : Type 0 where
  account_merge_success account_merge_no_account account_merge_immutable_set
        account_merge_has_sub_entries account_merge_dest_full account_merge_seqnum_too_far :
      AccountMergeResultCode

-- The reasons to refuse that lie in the source account.
unfoldable pub merge_refused : LedgerHeader → AccountEntry → Option AccountMergeResultCode
unfolding is_immutable_auth get_starting_sequence_number to_sequence_number
merge_refused header source =
    if is_immutable_auth source
    then some account_merge_immutable_set
    else (if not (source.num_sub_entries == length source.signers)
        then some account_merge_has_sub_entries
        else (if leb 10 header.ledger_version
              && not
                  (ltb_ℤ source.seq_num (to_sequence_number (get_starting_sequence_number header)))
            then some account_merge_seqnum_too_far
            else none))

-- "success" path: the balance goes over, if there is room, and the source account is gone.
unfoldable pub merge_balance :
    Newest → LedgerTxn → ℕ → AccountEntry → Entry → Result (AccountMergeResultCode × LedgerTxn)
unfolding add_balance set_current with_body erase
merge_balance parent l source_id source other = do
  (fits, body) ← add_balance l.header other.body source.balance
  if fits
      then (do
        l1 ← set_current l (with_body other body)
        l2 ← erase parent l1 (account_key source_id)
        ok (account_merge_success, l2))
      else ok (account_merge_dest_full, l)

unfoldable pub merge_decided :
    Newest
    → LedgerTxn
    → ℕ
    → AccountEntry
    → Entry
    → Option AccountMergeResultCode
    → Result (AccountMergeResultCode × LedgerTxn)
unfolding merge_balance
merge_decided parent l source_id source other (some code) = ok (code, l)
merge_decided parent l source_id source other none = merge_balance parent l source_id source other

unfoldable pub merge_source :
    Newest → LedgerTxn → ℕ → Entry → Result (AccountMergeResultCode × LedgerTxn)
unfolding load_account as_account merge_refused merge_decided
merge_source parent l source_id other = do
  (this, l1) ← load_account parent l source_id
  source ← as_account this
  merge_decided parent l1 source_id source other (merge_refused l1.header source)

unfoldable pub merge_into :
    Newest → LedgerTxn → ℕ → Option Entry → Result (AccountMergeResultCode × LedgerTxn)
unfolding merge_source
merge_into parent l source_id none = ok (account_merge_no_account, l)
merge_into parent l source_id (some other) = merge_source parent l source_id other

-- doApply, with the handles out of scope at its end.
unfoldable pub merge_account :
    Newest → LedgerTxn → ℕ → ℕ → Result (AccountMergeResultCode × LedgerTxn)
unfolding load_header load_account merge_into release release_header
merge_account parent l source_id destination = do
  l1 ← load_header l
  (other, l2) ← load_account parent l1 destination
  (code, l3) ← merge_into parent l2 source_id other
  ok (code, release_header (release (account_key destination) (release (account_key source_id) l3)))

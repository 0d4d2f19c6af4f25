-- ===== src/Transactions/Merge/Moves.antt =====
-- What MergeOpFrame::doApply makes of the ledger: transactions/MergeOpFrame.cpp.
use essa_core.Prelude.{ℕ, ◌≡◌, Bool, false, ◌==◌, none, some, List, [], ◌∷◌, if◌then◌else◌}
use essa_core.Prelude.Result.{Result, ok}
use essa_core.Ledger.LedgerKey.{LedgerKey, Entry, account_key}
use essa_core.Ledger.LedgerTxn.{Newest, LedgerTxn, EntryImpl, mutable_impl, get_newest_version}
use essa_core.Transactions.OperationFrame.Handles.{overwritten}
use essa_core.Transactions.Merge.{AccountMergeResultCode}
use essa_core.Transactions.Merge.Credit.{is_success}

-- What a ledger answers after a merge of the account `s` into `d`, which is `dst` before it.
unfoldable pub merged : ℕ → ℕ → Entry → Newest → Newest
merged s d credited_entry f =
    overwritten (account_key s) none (overwritten (account_key d) (some credited_entry) f)

-- The handles on the source and the destination.
abbrev both : ℕ → ℕ → List (LedgerKey × EntryImpl)
both s d = (account_key s, mutable_impl) ∷ (account_key d, mutable_impl) ∷ []

module _ (parent : Newest) (s d : ℕ) (other : (s == d) ≡ false) where
  -- The outcome on what the ledger `f` answers.
  Outcome : Newest → Bool → Entry → Result (AccountMergeResultCode × LedgerTxn) → Type 0
  Outcome f succeeds e r =
      (code : AccountMergeResultCode) × (l' : LedgerTxn) × (r ≡ ok (code, l'))
      × (is_success code ≡ succeeds)
      × ((key : LedgerKey)
          → get_newest_version parent l' key
            ≡ (if is_success code then merged s d e f key else f key))

-- ===== src/Ledger/LedgerTxn/Nested.antt =====
-- Transactions nested in each other, the innermost first, and the calls that their clients make on
-- them: src/ledger/LedgerTxn.cpp. A parent has one child at most, so the nesting is a list.
pub mod Reads
pub mod Keeps
pub mod Invariant
pub mod Reports
pub mod Effect
use essa_core.Prelude.{◌≡◌, Bool, true, false, Option, none, some, List, [], ◌∷◌}
use essa_core.Prelude.Result.{Result, ok, ◌>>=◌}
use essa_core.Ledger.Entry.{LedgerHeader}
use essa_core.Ledger.LedgerKey.{LedgerKey, Entry}
use essa_core.Ledger.LedgerTxn.{
  Newest, LedgerTxn, get_newest_version, add_child, new_ledger_txn, create,
  create_or_update_without_loading, deactivate, deactivate_header, erase, erase_without_loading,
  load, load_without_record, load_header, set_current, set_header,
}
use essa_core.Ledger.LedgerTxn.Sealing.{
  commit, rollback_child, get_changes, get_dead_entries, get_live_entries, get_delta, unseal_header,
}

-- A call on one transaction, with its arguments.
pub data Call : Type 0 where
  creates creates_or_updates sets_current : Entry → Call
  erases erases_without_loading loads loads_without_record deactivates : LedgerKey → Call
  loads_header deactivates_header : Call
  sets_header : LedgerHeader → Call
  gets_changes gets_dead_entries gets_live_entries : Call
  gets_delta : LedgerHeader → Call
  unseals_header : (LedgerHeader → LedgerHeader) → Call

-- The transaction after a call that answers something.
unfoldable pub then_state {ℓ} : {A : Type ℓ} → Result (A × LedgerTxn) → Result LedgerTxn
then_state r = do (_, l) ← r; ok l

unfoldable pub run : Newest → Call → LedgerTxn → Result LedgerTxn
unfolding create create_or_update_without_loading deactivate deactivate_header erase
    erase_without_loading load load_without_record load_header set_current set_header get_changes
    get_dead_entries get_live_entries get_delta unseal_header then_state
run parent (creates e) l = create parent l e
run parent (creates_or_updates e) l = create_or_update_without_loading l e
run parent (sets_current e) l = set_current l e
run parent (erases k) l = erase parent l k
run parent (erases_without_loading k) l = erase_without_loading l k
run parent (loads k) l = then_state (load parent l k)
run parent (loads_without_record k) l = then_state (load_without_record parent l k)
run parent (deactivates k) l = deactivate l k
run parent loads_header l = load_header l
run parent deactivates_header l = deactivate_header l
run parent (sets_header h) l = set_header l h
run parent gets_changes l = then_state (get_changes parent l)
run parent gets_dead_entries l = then_state (get_dead_entries l)
run parent gets_live_entries l = then_state (get_live_entries l)
run parent (gets_delta h) l = then_state (get_delta parent h l)
run parent (unseals_header f) l = unseal_header l f

-- What a stack of transactions over a root answers.
unfoldable pub newest_of : Newest → List LedgerTxn → Newest
newest_of root [] = root
newest_of root (l ∷ ls) = get_newest_version (newest_of root ls) l

-- The innermost transaction is called, opens a child, commits or is rolled back; the outermost one is
-- opened on the root, and the end of it is left to the root.
pub data Step (root : Newest) (header : LedgerHeader)
    : List LedgerTxn → List LedgerTxn → Type 0 where
  opens : (u : Bool) → Step root header [] (new_ledger_txn header u ∷ [])
  nests :
      (u : Bool) {l l' : LedgerTxn} {ls : List LedgerTxn}
      → add_child l ≡ ok l'
      → Step root header (l ∷ ls) (new_ledger_txn l.header u ∷ l' ∷ ls)
  calls :
      (c : Call) {l l' : LedgerTxn} {ls : List LedgerTxn}
      → run (newest_of root ls) c l ≡ ok l'
      → Step root header (l ∷ ls) (l' ∷ ls)
  commits :
      {c p p' : LedgerTxn} {ls : List LedgerTxn}
      → commit (newest_of root ls) p c ≡ ok p'
      → Step root header (c ∷ p ∷ ls) (p' ∷ ls)
  rolls_back :
      {c p : LedgerTxn} {ls : List LedgerTxn}
      → Step root header (c ∷ p ∷ ls) (rollback_child p ∷ ls)

pub data Reach (root : Newest) (header : LedgerHeader) : List LedgerTxn → Type 0 where
  start : Reach root header []
  later : {s t : List LedgerTxn} → Reach root header s → Step root header s t → Reach root header t

-- ===== src/Ledger/LedgerTxn/Sealing.antt =====
-- How a nested transaction ends, in src/ledger/LedgerTxn.cpp: it is sealed, its changes are read out,
-- and they are committed to the parent or rolled back. A pass over mEntry is a recursion on it.
use essa_core.Prelude.{true, false, not, Option, none, some, List, [], ◌∷◌, ◌++◌, if◌then◌else◌}
use essa_core.Prelude.Result.{Result, ok, throw, assertion, runtime, throw_if, ◌>>=◌, ◌>>◌}
use essa_core.Ledger.Entry.{LedgerHeader}
use essa_core.Ledger.LedgerKey.{LedgerKey, Entry}
use essa_core.Ledger.EntryMap.{EntryMap, set}
use essa_core.Ledger.LedgerTxn.{
  Newest, LedgerTxn, LedgerTxnConsistency, exact, extra_deletes, erase_entry, throw_if_sealed,
  throw_if_child, throw_if_not_exact_consistency,
}

unfoldable pub stamp : LedgerTxn → Entry → Entry
stamp l e =
    if l.should_update_last_modified
    then record e { last_modified_ledger_seq = l.header.ledger_seq }
    else e

unfoldable pub stamp_all : LedgerTxn → EntryMap → EntryMap
unfolding stamp
stamp_all l [] = []
stamp_all l ((k, none) ∷ m) = (k, none) ∷ stamp_all l m
stamp_all l ((k, some e) ∷ m) = (k, some (stamp l e)) ∷ stamp_all l m

unfoldable pub maybe_update_last_modified : LedgerTxn → Result EntryMap
unfolding throw_if_sealed throw_if_child stamp_all
maybe_update_last_modified l = do throw_if_sealed l; throw_if_child l; ok (stamp_all l l.entries)

-- The state that the first reading of the changes leaves.
unfoldable pub sealed_with : EntryMap → LedgerTxn → LedgerTxn
sealed_with entries l = record l {
  entries = entries;
  active = [];
  active_header = false;
  is_sealed = true;
}

unfoldable pub update_invoke_seal {ℓ} :
    {A : Type ℓ} → LedgerTxn → (EntryMap → Result A) → Result (A × LedgerTxn)
unfolding maybe_update_last_modified sealed_with
update_invoke_seal l f = do
  entries ← maybe_update_last_modified l
  a ← f entries
  ok (a, sealed_with entries l)

unfoldable pub invoke_sealed {ℓ} :
    {A : Type ℓ} → LedgerTxn → (EntryMap → Result A) → Result (A × LedgerTxn)
invoke_sealed l f = do a ← f l.entries; ok (a, l)

-- maybeUpdateLastModifiedThenInvokeThenSeal
unfoldable pub invoke_then_seal {ℓ} :
    {A : Type ℓ} → LedgerTxn → (EntryMap → Result A) → Result (A × LedgerTxn)
unfolding update_invoke_seal invoke_sealed
invoke_then_seal l f = if l.is_sealed then invoke_sealed l f else update_invoke_seal l f

unfoldable pub join_consistency_levels :
    LedgerTxnConsistency → LedgerTxnConsistency → LedgerTxnConsistency
join_consistency_levels exact c = c
join_consistency_levels extra_deletes c = extra_deletes

-- The loop of commitChild: an erased entry goes the way of `erase`.
unfoldable pub merge_entries : Newest → EntryMap → EntryMap → EntryMap
unfolding erase_entry
merge_entries grandparent [] m = m
merge_entries grandparent ((k, some e) ∷ es) m = merge_entries grandparent es (set k (some e) m)
merge_entries grandparent ((k, none) ∷ es) m =
    merge_entries grandparent es (erase_entry grandparent k m)

unfoldable pub commit_child :
    Newest → LedgerTxn → LedgerHeader → EntryMap → LedgerTxnConsistency → LedgerTxn
unfolding merge_entries join_consistency_levels
commit_child grandparent parent header entries cons = record parent {
  consistency = join_consistency_levels parent.consistency cons;
  entries = merge_entries grandparent entries parent.entries;
  header = header;
  has_child = false;
}

-- The parent after the commit of its child.
unfoldable pub commit : Newest → LedgerTxn → LedgerTxn → Result LedgerTxn
unfolding invoke_then_seal commit_child
commit grandparent parent child = do
  (parent', _) ←
      invoke_then_seal child
        (λ es. ok (commit_child grandparent parent child.header es child.consistency))
  ok parent'

unfoldable pub rollback_child : LedgerTxn → LedgerTxn
rollback_child l = record l { has_child = false }

-- LedgerEntryChange of the metadata.
pub data LedgerEntryChange : Type 0 where
  ledger_entry_state ledger_entry_updated ledger_entry_created : Entry → LedgerEntryChange
  ledger_entry_removed : LedgerKey → LedgerEntryChange

-- The changes of one entry, by its version here and the previous one.
unfoldable pub entry_changes :
    LedgerKey → Option Entry → Option Entry → Result (List LedgerEntryChange)
entry_changes key (some e) (some p) = ok (ledger_entry_state p ∷ ledger_entry_updated e ∷ [])
entry_changes key none (some p) = ok (ledger_entry_state p ∷ ledger_entry_removed key ∷ [])
entry_changes key (some e) none = ok (ledger_entry_created e ∷ [])
entry_changes key none none = throw assertion

unfoldable pub all_changes : Newest → EntryMap → Result (List LedgerEntryChange)
unfolding entry_changes
all_changes parent [] = ok []
all_changes parent ((k, v) ∷ m) = do
  first ← entry_changes k v (parent k)
  rest ← all_changes parent m
  ok (first ++ rest)

unfoldable pub get_changes : Newest → LedgerTxn → Result (List LedgerEntryChange × LedgerTxn)
unfolding throw_if_not_exact_consistency invoke_then_seal all_changes
get_changes parent l = do throw_if_not_exact_consistency l; invoke_then_seal l (all_changes parent)

unfoldable pub dead_keys : EntryMap → List LedgerKey
dead_keys [] = []
dead_keys ((k, none) ∷ m) = k ∷ dead_keys m
dead_keys ((k, some e) ∷ m) = dead_keys m

unfoldable pub get_dead_entries : LedgerTxn → Result (List LedgerKey × LedgerTxn)
unfolding throw_if_not_exact_consistency invoke_then_seal dead_keys
get_dead_entries l = do
  throw_if_not_exact_consistency l
  invoke_then_seal l (λ es. ok (dead_keys es))

unfoldable pub live_entries : EntryMap → List Entry
live_entries [] = []
live_entries ((k, none) ∷ m) = live_entries m
live_entries ((k, some e) ∷ m) = e ∷ live_entries m

unfoldable pub get_live_entries : LedgerTxn → Result (List Entry × LedgerTxn)
unfolding invoke_then_seal live_entries
get_live_entries l = invoke_then_seal l (λ es. ok (live_entries es))

-- LedgerTxnDelta: each key with its current and its previous version, and the two headers.
pub record LedgerTxnDelta : Type 0 where
  pub entry : List (LedgerKey × (Option Entry × Option Entry))
  pub header : LedgerHeader × LedgerHeader

unfoldable pub entry_deltas : Newest → EntryMap → List (LedgerKey × (Option Entry × Option Entry))
entry_deltas parent [] = []
entry_deltas parent ((k, v) ∷ m) = (k, (v, parent k)) ∷ entry_deltas parent m

unfoldable pub get_delta : Newest → LedgerHeader → LedgerTxn → Result (LedgerTxnDelta × LedgerTxn)
unfolding throw_if_not_exact_consistency invoke_then_seal entry_deltas
get_delta parent parent_header l = do
  throw_if_not_exact_consistency l
  invoke_then_seal l
      (λ es. ok (record { entry = entry_deltas parent es; header = (l.header, parent_header) }))

-- The header of a sealed transaction is changed once more.
unfoldable pub unseal_header : LedgerTxn → (LedgerHeader → LedgerHeader) → Result LedgerTxn
unseal_header l f = do
  throw_if (not l.is_sealed) runtime
  throw_if l.active_header runtime
  ok (record l { header = f l.header })

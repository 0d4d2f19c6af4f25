-- ===== src/Ledger/LedgerTxn/Nested/Effect.antt =====
-- The calls on a nested transaction as reads and writes of one flat map: src/ledger/LedgerTxn.cpp.
use essa_core.Prelude.{◌≡◌, refl, Bool, true, false, arith, none, some, if◌then◌else◌}
use essa_core.Prelude.Result.{ok}
use essa_core.Ledger.Entry.{LedgerHeader}
use essa_core.Ledger.LedgerKey.{LedgerKey, same_key, ledger_entry_key}
use essa_core.Ledger.LedgerTxn.{
  Newest, LedgerTxn, get_newest_version, load, load_without_record, deactivate, deactivate_header,
  load_header, set_header,
}
use essa_core.Ledger.LedgerTxn.Sealing.{unseal_header}
use essa_core.Ledger.LedgerTxn.Sound.{Sound}
use essa_core.Ledger.LedgerTxn.Flat.{
  create-newest, create_or_update-newest, set_current-newest, erase-newest,
  erase_without_loading-newest, load-newest, load_without_record-newest,
}
use essa_core.Ledger.LedgerTxn.Nested.{
  Call, creates, creates_or_updates, sets_current, erases, erases_without_loading, loads,
  loads_without_record, deactivates, loads_header, deactivates_header, sets_header, gets_changes,
  gets_dead_entries, gets_live_entries, gets_delta, unseals_header, run,
}
use essa_core.Ledger.LedgerTxn.Nested.Reads.{then_state_ok}

-- The flat map after a call: a call that creates or updates writes its entry under the key of the
-- entry, one that erases removes its key, and any other leaves the map as it is.
unfoldable pub flat : Call → Newest → Newest
unfolding ledger_entry_key
flat (creates e) f key = if same_key key (ledger_entry_key e) then some e else f key
flat (creates_or_updates e) f key = if same_key key (ledger_entry_key e) then some e else f key
flat (sets_current e) f key = if same_key key (ledger_entry_key e) then some e else f key
flat (erases k) f key = if same_key key k then none else f key
flat (erases_without_loading k) f key = if same_key key k then none else f key
flat _ f key = f key

-- The calls that read the changes out, which stamp the entries.
abbrev pub reports : Call → Bool
reports gets_changes = true
reports gets_dead_entries = true
reports gets_live_entries = true
reports (gets_delta h) = true
reports _ = false

-- Calls that change no entry.
same_entries :
    (parent : Newest) (l l' : LedgerTxn)
    → l'.entries ≡ l.entries
    → (key : LedgerKey) → get_newest_version parent l' key ≡ get_newest_version parent l key
unfolding get_newest_version
same_entries parent l l' m key = rw m refl

deactivate_entries :
    (l l' : LedgerTxn) (k : LedgerKey) → deactivate l k ≡ ok l' → l'.entries ≡ l.entries
unfolding deactivate
deactivate_entries l l' k h = ground (arith, h)

header_entries : (l l' : LedgerTxn) → load_header l ≡ ok l' → l'.entries ≡ l.entries
unfolding load_header
header_entries l l' h = ground (arith, h)

deactivate_header_entries :
    (l l' : LedgerTxn) → deactivate_header l ≡ ok l' → l'.entries ≡ l.entries
unfolding deactivate_header
deactivate_header_entries l l' h = ground (arith, h)

set_header_entries :
    (l l' : LedgerTxn) (hd : LedgerHeader) → set_header l hd ≡ ok l' → l'.entries ≡ l.entries
unfolding set_header
set_header_entries l l' hd h = ground (arith, h)

unseal_header_entries :
    (l l' : LedgerTxn) (f : LedgerHeader → LedgerHeader)
    → unseal_header l f ≡ ok l'
    → l'.entries ≡ l.entries
unfolding unseal_header
unseal_header_entries l l' f h = ground (arith, h)

-- A call on a sound transaction that does not report its changes, and does not throw, does to the
-- newest versions of all keys what its write does to a flat map.
pub run-flat :
    (parent : Newest) (c : Call) (l l' : LedgerTxn)
    → Sound parent l
    → reports c ≡ false
    → run parent c l ≡ ok l'
    → (key : LedgerKey)
    → get_newest_version parent l' key ≡ flat c (get_newest_version parent l) key
unfolding run flat
run-flat parent (creates e) l l' s n h key = create-newest parent l l' e h key
run-flat parent (creates_or_updates e) l l' s n h key = create_or_update-newest parent l l' e h key
run-flat parent (sets_current e) l l' s n h key = set_current-newest parent l l' e h key
run-flat parent (erases k) l l' s n h key = erase-newest parent l l' k s.unique h key
run-flat parent (erases_without_loading k) l l' s n h key =
    erase_without_loading-newest parent l l' k h key
run-flat parent (loads k) l l' s n h key =
    let (a, e, m) = then_state_ok (load parent l k) l' h in
    rw (← m) ((load-newest parent l a.1 k a.0 e).1 key)
run-flat parent (loads_without_record k) l l' s n h key =
    let (a, e, m) = then_state_ok (load_without_record parent l k) l' h in
    rw (← m) ((load_without_record-newest parent l a.1 k a.0 e).1 key)
run-flat parent (deactivates k) l l' s n h key =
    same_entries parent l l' (deactivate_entries l l' k h) key
run-flat parent loads_header l l' s n h key = same_entries parent l l' (header_entries l l' h) key
run-flat parent deactivates_header l l' s n h key =
    same_entries parent l l' (deactivate_header_entries l l' h) key
run-flat parent (sets_header hd) l l' s n h key =
    same_entries parent l l' (set_header_entries l l' hd h) key
run-flat parent (unseals_header f) l l' s n h key =
    same_entries parent l l' (unseal_header_entries l l' f h) key
run-flat parent _ l l' s n h key = absurd (ground (arith, n))

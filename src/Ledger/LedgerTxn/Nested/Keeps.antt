-- ===== src/Ledger/LedgerTxn/Nested/Keeps.antt =====
-- What every call of a client keeps of a nested transaction: src/ledger/LedgerTxn.cpp.
use essa_core.Prelude.{◌≡◌, refl, arith, Option, none, some}
use essa_core.Prelude.Result.{ok}
use essa_core.Ledger.Entry.{LedgerHeader}
use essa_core.Ledger.LedgerKey.{LedgerKey, Entry}
use essa_core.Ledger.LedgerTxn.{
  Newest, LedgerTxn, create, create_or_update_without_loading, deactivate, deactivate_header, erase,
  erase_without_loading, load, load_without_record, load_header, set_current, set_header,
  get_newest_version, activate, activate_const,
}
use essa_core.Ledger.LedgerTxn.Sealing.{
  live_entries, dead_keys, all_changes, entry_deltas, unseal_header,
}
use essa_core.Ledger.LedgerTxn.Sound.{
  create-Sound, create_or_update-Sound, set_current-Sound, erase-Sound, erase_without_loading-Sound,
  load-Sound,
}
use essa_core.Ledger.LedgerTxn.Nested.{
  Call, creates, creates_or_updates, sets_current, erases, erases_without_loading, loads,
  loads_without_record, deactivates, loads_header, deactivates_header, sets_header, gets_changes,
  gets_dead_entries, gets_live_entries, gets_delta, unseals_header, run, then_state,
}
use essa_core.Ledger.LedgerTxn.Nested.Reads.{Keeps, kept, then_state_ok, guarded_seal, plain_seal}

activate_child :
    (l : LedgerTxn) (key : LedgerKey) (v : Option Entry)
    → (activate l key v).has_child ≡ l.has_child
unfolding activate
activate_child l key none = refl
activate_child l key (some e) = refl

activate_const-Keeps :
    (parent : Newest) (l : LedgerTxn) (key : LedgerKey) (v : Option Entry)
    → Keeps parent l (activate_const l key v)
unfolding activate_const
activate_const-Keeps parent l key none = (λ s. s, refl)
activate_const-Keeps parent l key (some e) = kept parent l _ refl refl refl

create_child :
    (parent : Newest) (l l' : LedgerTxn) (e : Entry)
    → create parent l e ≡ ok l'
    → l'.has_child ≡ l.has_child
unfolding create
create_child parent l l' e h = ground (arith, h)

create_or_update_child :
    (l l' : LedgerTxn) (e : Entry)
    → create_or_update_without_loading l e ≡ ok l'
    → l'.has_child ≡ l.has_child
unfolding create_or_update_without_loading
create_or_update_child l l' e h = ground (arith, h)

set_current_child :
    (l l' : LedgerTxn) (e : Entry) → set_current l e ≡ ok l' → l'.has_child ≡ l.has_child
unfolding set_current
set_current_child l l' e h = ground (arith, h)

erase_child :
    (parent : Newest) (l l' : LedgerTxn) (k : LedgerKey)
    → erase parent l k ≡ ok l'
    → l'.has_child ≡ l.has_child
unfolding erase
erase_child parent l l' k h = ground (arith, h)

erase_without_loading_child :
    (l l' : LedgerTxn) (k : LedgerKey)
    → erase_without_loading l k ≡ ok l'
    → l'.has_child ≡ l.has_child
unfolding erase_without_loading
erase_without_loading_child l l' k h = ground (arith, h)

deactivate-Keeps :
    (parent : Newest) (l l' : LedgerTxn) (k : LedgerKey)
    → deactivate l k ≡ ok l'
    → Keeps parent l l'
unfolding deactivate
deactivate-Keeps parent l l' k h =
    kept parent l l' (ground (arith, h)) (ground (arith, h)) (ground (arith, h))

deactivate_header-Keeps :
    (parent : Newest) (l l' : LedgerTxn) → deactivate_header l ≡ ok l' → Keeps parent l l'
unfolding deactivate_header
deactivate_header-Keeps parent l l' h =
    kept parent l l' (ground (arith, h)) (ground (arith, h)) (ground (arith, h))

load_header-Keeps : (parent : Newest) (l l' : LedgerTxn) → load_header l ≡ ok l' → Keeps parent l l'
unfolding load_header
load_header-Keeps parent l l' h =
    kept parent l l' (ground (arith, h)) (ground (arith, h)) (ground (arith, h))

set_header-Keeps :
    (parent : Newest) (l l' : LedgerTxn) (hd : LedgerHeader)
    → set_header l hd ≡ ok l'
    → Keeps parent l l'
unfolding set_header
set_header-Keeps parent l l' hd h =
    kept parent l l' (ground (arith, h)) (ground (arith, h)) (ground (arith, h))

unseal_header-Keeps :
    (parent : Newest) (l l' : LedgerTxn) (f : LedgerHeader → LedgerHeader)
    → unseal_header l f ≡ ok l'
    → Keeps parent l l'
unfolding unseal_header
unseal_header-Keeps parent l l' f h =
    kept parent l l' (ground (arith, h)) (ground (arith, h)) (ground (arith, h))

load_child :
    (parent : Newest) (l : LedgerTxn) (a : Option Entry × LedgerTxn) (key : LedgerKey)
    → load parent l key ≡ ok a
    → a.1.has_child ≡ l.has_child
unfolding load
load_child parent l a key h =
    ground (arith, h, activate_child l key (get_newest_version parent l key))

load_without_record_is :
    (parent : Newest) (l : LedgerTxn) (key : LedgerKey) (a : Option Entry × LedgerTxn)
    → load_without_record parent l key ≡ ok a
    → activate_const l key (get_newest_version parent l key) ≡ a.1
unfolding load_without_record
load_without_record_is parent l key a h = ground (arith, h)

load-Keeps :
    (parent : Newest) (l l' : LedgerTxn) (key : LedgerKey)
    → then_state (load parent l key) ≡ ok l'
    → Keeps parent l l'
load-Keeps parent l l' key h =
    let (a, e, k) = then_state_ok (load parent l key) l' h in
    rw (← k) (load-Sound parent l a.1 key a.0 e, load_child parent l a key e)

load_without_record-Keeps :
    (parent : Newest) (l l' : LedgerTxn) (key : LedgerKey)
    → then_state (load_without_record parent l key) ≡ ok l'
    → Keeps parent l l'
load_without_record-Keeps parent l l' key h =
    let (a, e, k) = then_state_ok (load_without_record parent l key) l' h in
    rw (← k, ← load_without_record_is parent l key a e)
      (activate_const-Keeps parent l key (get_newest_version parent l key))

pub run-Keeps :
    (parent : Newest) (c : Call) (l l' : LedgerTxn) → run parent c l ≡ ok l' → Keeps parent l l'
unfolding run
run-Keeps parent (creates e) l l' h = (create-Sound parent l l' e h, create_child parent l l' e h)
run-Keeps parent (creates_or_updates e) l l' h =
    (create_or_update-Sound parent l l' e h, create_or_update_child l l' e h)
run-Keeps parent (sets_current e) l l' h =
    (set_current-Sound parent l l' e h, set_current_child l l' e h)
run-Keeps parent (erases k) l l' h = (erase-Sound parent l l' k h, erase_child parent l l' k h)
run-Keeps parent (erases_without_loading k) l l' h =
    (erase_without_loading-Sound parent l l' k h, erase_without_loading_child l l' k h)
run-Keeps parent (loads k) l l' h = load-Keeps parent l l' k h
run-Keeps parent (loads_without_record k) l l' h = load_without_record-Keeps parent l l' k h
run-Keeps parent (deactivates k) l l' h = deactivate-Keeps parent l l' k h
run-Keeps parent loads_header l l' h = load_header-Keeps parent l l' h
run-Keeps parent deactivates_header l l' h = deactivate_header-Keeps parent l l' h
run-Keeps parent (sets_header hd) l l' h = set_header-Keeps parent l l' hd h
run-Keeps parent gets_changes l l' h = guarded_seal parent l l' (all_changes parent) h
run-Keeps parent gets_dead_entries l l' h = guarded_seal parent l l' (λ es. ok (dead_keys es)) h
run-Keeps parent gets_live_entries l l' h = plain_seal parent l l' (λ es. ok (live_entries es)) h
run-Keeps parent (gets_delta hd) l l' h =
    guarded_seal parent l l'
      (λ es. ok (record { entry = entry_deltas parent es; header = (l.header, hd) })) h
run-Keeps parent (unseals_header f) l l' h = unseal_header-Keeps parent l l' f h

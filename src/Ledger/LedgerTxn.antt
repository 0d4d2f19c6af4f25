-- ===== src/Ledger/LedgerTxn.antt =====
-- A nested ledger transaction, LedgerTxn::Impl of src/ledger/LedgerTxn.cpp. The parent is what
-- AbstractLedgerTxnParent::getNewestVersion answers. The handles that load and create return are
-- the list of active keys; an assignment through a handle is `set_current`.
pub mod Sealing
pub mod Flat
pub mod Sound
pub mod Commit
pub mod Nested
pub mod Changes
pub mod Offers
use essa_core.Prelude.{
  ℕ, Bool, true, false, not, ◌&&◌, Option, none, some, List, [], ◌∷◌, ◌++◌, if◌then◌else◌,
}
use essa_core.Prelude.Result.{Result, ok, throw, assertion, runtime, throw_if, assert, ◌>>=◌, ◌>>◌}
use essa_core.Ledger.Entry.{LedgerHeader}
use essa_core.Ledger.LedgerKey.{LedgerKey, Entry, same_key, ledger_entry_key}
use essa_core.Ledger.EntryMap.{EntryMap, find, set, remove}

abbrev pub Newest : Type 0
Newest = LedgerKey → Option Entry

pub data LedgerTxnConsistency : Type 0 where
  exact extra_deletes : LedgerTxnConsistency

-- What a handle may do: LedgerTxnEntry::Impl or ConstLedgerTxnEntry::Impl.
pub data EntryImpl : Type 0 where
  mutable_impl const_impl : EntryImpl

pub record LedgerTxn : Type 0 where
  pub entries : EntryMap
  pub header : LedgerHeader
  pub active : List (LedgerKey × EntryImpl)
  pub active_header : Bool
  pub should_update_last_modified : Bool
  pub is_sealed : Bool
  pub consistency : LedgerTxnConsistency
  pub has_child : Bool

unfoldable pub is_some {ℓ} : {A : Type ℓ} → Option A → Bool
is_some none = false
is_some (some _) = true

unfoldable pub find_active : LedgerKey → List (LedgerKey × EntryImpl) → Option EntryImpl
find_active key [] = none
find_active key ((k, i) ∷ ks) = if same_key key k then some i else find_active key ks

unfoldable pub remove_active :
    LedgerKey → List (LedgerKey × EntryImpl) → List (LedgerKey × EntryImpl)
remove_active key [] = []
remove_active key ((k, i) ∷ ks) = if same_key key k then ks else (k, i) ∷ remove_active key ks

-- The constructor, under a parent with this header.
unfoldable pub new_ledger_txn : LedgerHeader → Bool → LedgerTxn
new_ledger_txn header should_update = record {
  entries = [];
  header = header;
  active = [];
  active_header = false;
  should_update_last_modified = should_update;
  is_sealed = false;
  consistency = exact;
  has_child = false;
}

unfoldable pub throw_if_child : LedgerTxn → Result (Unit {0})
throw_if_child l = throw_if l.has_child runtime

unfoldable pub throw_if_sealed : LedgerTxn → Result (Unit {0})
throw_if_sealed l = throw_if l.is_sealed runtime

unfoldable pub throw_if_not_exact_consistency : LedgerTxn → Result (Unit {0})
throw_if_not_exact_consistency l = elim l.consistency [
  | exact ↦ ok tt
  | extra_deletes ↦ throw runtime
]

unfoldable pub add_child : LedgerTxn → Result LedgerTxn
unfolding throw_if_sealed throw_if_child
add_child l = do
  throw_if_sealed l
  throw_if_child l
  ok (record l { has_child = true; active = []; active_header = false })

-- What find answers, or the parent.
unfoldable pub found_or : Option (Option Entry) → Option Entry → Option Entry
found_or (some v) p = v
found_or none p = p

unfoldable pub get_newest_version : Newest → LedgerTxn → LedgerKey → Option Entry
unfolding found_or
get_newest_version parent l key = found_or (find key l.entries) (parent key)

unfoldable pub create : Newest → LedgerTxn → Entry → Result LedgerTxn
unfolding throw_if_sealed throw_if_child
create parent l entry = do
  throw_if_sealed l
  throw_if_child l
  throw_if (is_some (get_newest_version parent l (ledger_entry_key entry))) runtime
  ok (record l {
    active = (ledger_entry_key entry, mutable_impl) ∷ l.active;
    entries = set (ledger_entry_key entry) (some entry) l.entries;
  })

unfoldable pub create_or_update_without_loading : LedgerTxn → Entry → Result LedgerTxn
unfolding throw_if_sealed throw_if_child
create_or_update_without_loading l entry = do
  throw_if_sealed l
  throw_if_child l
  throw_if (is_some (find_active (ledger_entry_key entry) l.active)) runtime
  ok (record l { entries = set (ledger_entry_key entry) (some entry) l.entries })

unfoldable pub deactivate : LedgerTxn → LedgerKey → Result LedgerTxn
deactivate l key = do
  throw_if (not (is_some (find_active key l.active))) runtime
  ok (record l { active = remove_active key l.active })

unfoldable pub deactivate_header : LedgerTxn → Result LedgerTxn
deactivate_header l = do
  throw_if (not l.active_header) runtime
  ok (record l { active_header = false })

-- An entry that the parent lacks was created here, and leaves no trace.
unfoldable pub erase_entry : Newest → LedgerKey → EntryMap → EntryMap
erase_entry parent key m = if is_some (parent key) then set key none m else remove key m

unfoldable pub erase : Newest → LedgerTxn → LedgerKey → Result LedgerTxn
unfolding throw_if_sealed throw_if_child
erase parent l key = do
  throw_if_sealed l
  throw_if_child l
  throw_if (not (is_some (get_newest_version parent l key))) runtime
  ok (record l { entries = erase_entry parent key l.entries; active = remove_active key l.active })

unfoldable pub erase_without_loading : LedgerTxn → LedgerKey → Result LedgerTxn
unfolding throw_if_sealed throw_if_child
erase_without_loading l key = do
  throw_if_sealed l
  throw_if_child l
  ok (record l {
    entries = set key none l.entries;
    active = remove_active key l.active;
    consistency = extra_deletes;
  })

-- The handle on the newest version, if there is one, is recorded here.
unfoldable pub activate : LedgerTxn → LedgerKey → Option Entry → LedgerTxn
activate l key none = l
activate l key (some e) = record l {
  active = (key, mutable_impl) ∷ l.active;
  entries = set key (some e) l.entries;
}

unfoldable pub load : Newest → LedgerTxn → LedgerKey → Result (Option Entry × LedgerTxn)
unfolding throw_if_sealed throw_if_child
load parent l key = do
  throw_if_sealed l
  throw_if_child l
  throw_if (is_some (find_active key l.active)) runtime
  let newest = get_newest_version parent l key
  ok (newest, activate l key newest)

unfoldable pub activate_const : LedgerTxn → LedgerKey → Option Entry → LedgerTxn
activate_const l key none = l
activate_const l key (some e) = record l { active = (key, const_impl) ∷ l.active }

unfoldable pub load_without_record :
    Newest → LedgerTxn → LedgerKey → Result (Option Entry × LedgerTxn)
unfolding throw_if_sealed throw_if_child
load_without_record parent l key = do
  throw_if_sealed l
  throw_if_child l
  throw_if (is_some (find_active key l.active)) runtime
  let newest = get_newest_version parent l key
  ok (newest, activate_const l key newest)

-- loadHeader makes the handle on the header active.
unfoldable pub load_header : LedgerTxn → Result LedgerTxn
unfolding throw_if_sealed throw_if_child
load_header l = do
  throw_if_sealed l
  throw_if_child l
  throw_if l.active_header runtime
  ok (record l { active_header = true })

unfoldable pub is_mutable : Option EntryImpl → Bool
is_mutable none = false
is_mutable (some mutable_impl) = true
is_mutable (some const_impl) = false

-- An assignment to LedgerTxnEntry::current of an active handle.
unfoldable pub set_current : LedgerTxn → Entry → Result LedgerTxn
set_current l entry = do
  throw_if (not (is_mutable (find_active (ledger_entry_key entry) l.active))) runtime
  ok (record l { entries = set (ledger_entry_key entry) (some entry) l.entries })

-- An assignment to LedgerTxnHeader::current of the active handle.
unfoldable pub set_header : LedgerTxn → LedgerHeader → Result LedgerTxn
set_header l header = do throw_if (not l.active_header) runtime; ok (record l { header = header })

-- ===== src/Ledger/LedgerTxn/Flat.antt =====
-- The operations of LedgerTxn as writes of one flat map, its newest versions.
use essa_core.Prelude.{◌≡◌, refl, true, arith, Option, none, some, if◌then◌else◌, ap}
use essa_core.Prelude.Result.{ok}
use essa_core.Ledger.LedgerKey.{LedgerKey, Entry, same_key, same_key_sound, ledger_entry_key}
use essa_core.Ledger.EntryMap.{EntryMap, find, set, find-set, find-remove, distinct}
use essa_core.Ledger.LedgerTxn.{
  Newest, LedgerTxn, get_newest_version, found_or, is_some, create,
  create_or_update_without_loading, erase, erase_entry, erase_without_loading, load, activate,
  load_without_record, activate_const, set_current,
}

-- The map `f` with `v` under `key`.
abbrev pub Written : LedgerKey → Option Entry → Newest → Newest → Type 0
Written key v f g = (other : LedgerKey) → g other ≡ (if same_key other key then v else f other)

-- What a map of entries over a parent answers after a write, and after an erasure.
pub found_or-set :
    (parent : Newest) (key : LedgerKey) (v : Option Entry) (m : EntryMap)
    → Written key v
        (λ k. found_or (find k m) (parent k))
        (λ k. found_or (find k (set key v m)) (parent k))
unfolding found_or
found_or-set parent key v m other = ground (arith, find-set key v other m)

same_parent : (parent : Newest) (a b : LedgerKey) → same_key a b ≡ true → parent a ≡ parent b
same_parent parent a b h = ap parent (same_key_sound a b h)

pub found_or-erase_entry :
    (parent : Newest) (key : LedgerKey) (m : EntryMap)
    → distinct m ≡ true
    → Written key none
        (λ k. found_or (find k m) (parent k))
        (λ k. found_or (find k (erase_entry parent key m)) (parent k))
unfolding found_or erase_entry is_some
found_or-erase_entry parent key m d other =
    ground
      (arith, find-set key none other m, find-remove key other m d, same_parent parent other key)

pub create-newest :
    (parent : Newest) (l l' : LedgerTxn) (e : Entry)
    → create parent l e ≡ ok l'
    → Written
        (ledger_entry_key e)
        (some e)
        (get_newest_version parent l)
        (get_newest_version parent l')
unfolding create get_newest_version
create-newest parent l l' e h other =
    ground (arith, h, found_or-set parent (ledger_entry_key e) (some e) l.entries other)

pub create_or_update-newest :
    (parent : Newest) (l l' : LedgerTxn) (e : Entry)
    → create_or_update_without_loading l e ≡ ok l'
    → Written
        (ledger_entry_key e)
        (some e)
        (get_newest_version parent l)
        (get_newest_version parent l')
unfolding create_or_update_without_loading get_newest_version
create_or_update-newest parent l l' e h other =
    ground (arith, h, found_or-set parent (ledger_entry_key e) (some e) l.entries other)

pub set_current-newest :
    (parent : Newest) (l l' : LedgerTxn) (e : Entry)
    → set_current l e ≡ ok l'
    → Written
        (ledger_entry_key e)
        (some e)
        (get_newest_version parent l)
        (get_newest_version parent l')
unfolding set_current get_newest_version
set_current-newest parent l l' e h other =
    ground (arith, h, found_or-set parent (ledger_entry_key e) (some e) l.entries other)

pub erase-newest :
    (parent : Newest) (l l' : LedgerTxn) (key : LedgerKey)
    → distinct l.entries ≡ true
    → erase parent l key ≡ ok l'
    → Written key none (get_newest_version parent l) (get_newest_version parent l')
unfolding erase get_newest_version
erase-newest parent l l' key d h other =
    ground (arith, h, found_or-erase_entry parent key l.entries d other)

pub erase_without_loading-newest :
    (parent : Newest) (l l' : LedgerTxn) (key : LedgerKey)
    → erase_without_loading l key ≡ ok l'
    → Written key none (get_newest_version parent l) (get_newest_version parent l')
unfolding erase_without_loading get_newest_version
erase_without_loading-newest parent l l' key h other =
    ground (arith, h, found_or-set parent key none l.entries other)

same_newest :
    (parent : Newest) (l : LedgerTxn) (a b : LedgerKey)
    → same_key a b ≡ true
    → get_newest_version parent l a ≡ get_newest_version parent l b
same_newest parent l a b h = ap (get_newest_version parent l) (same_key_sound a b h)

activate-newest :
    (parent : Newest) (l : LedgerTxn) (key other : LedgerKey) (v : Option Entry)
    → get_newest_version parent l key ≡ v
    → get_newest_version parent (activate l key v) other ≡ get_newest_version parent l other
unfolding activate get_newest_version
activate-newest parent l key other none h = refl
activate-newest parent l key other (some e) h =
    ground
      (arith, h, found_or-set parent key (some e) l.entries other, same_newest parent l other key)

-- A load answers the newest version, and changes none.
pub load-newest :
    (parent : Newest) (l l' : LedgerTxn) (key : LedgerKey) (v : Option Entry)
    → load parent l key ≡ ok (v, l')
    → (v ≡ get_newest_version parent l key)
      × ((other : LedgerKey)
          → get_newest_version parent l' other ≡ get_newest_version parent l other)
unfolding load
load-newest parent l l' key v h = (
  ground (arith, h),
  λ other.
      ground (arith, h, activate-newest parent l key other (get_newest_version parent l key) refl),
)

activate_const_same :
    (parent : Newest) (l : LedgerTxn) (key other : LedgerKey) (v : Option Entry)
    → get_newest_version parent (activate_const l key v) other ≡ get_newest_version parent l other
unfolding activate_const get_newest_version
activate_const_same parent l key other none = refl
activate_const_same parent l key other (some e) = refl

pub load_without_record-newest :
    (parent : Newest) (l l' : LedgerTxn) (key : LedgerKey) (v : Option Entry)
    → load_without_record parent l key ≡ ok (v, l')
    → (v ≡ get_newest_version parent l key)
      × ((other : LedgerKey)
          → get_newest_version parent l' other ≡ get_newest_version parent l other)
unfolding load_without_record
load_without_record-newest parent l l' key v h = (
  ground (arith, h),
  λ other.
      ground (arith, h, activate_const_same parent l key other (get_newest_version parent l key)),
)

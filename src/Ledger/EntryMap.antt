-- ===== src/Ledger/EntryMap.antt =====
-- mEntry of src/ledger/LedgerTxn.cpp, an unordered_map from keys to entries: none stands for the null
-- pointer of an erased entry. The order of the list is the order of the iteration.
use essa_core.Prelude.{
  ◌≡◌, refl, Bool, true, false, arith, Option, none, some, List, [], ◌∷◌, if◌then◌else◌, Bool-cases,
  inl, inr,
}
use essa_core.Ledger.LedgerKey.{LedgerKey, Entry, same_key, same_key_sound}

abbrev pub EntryMap : Type 0
EntryMap = List (LedgerKey × Option Entry)

-- find
unfoldable pub find : LedgerKey → EntryMap → Option (Option Entry)
find key [] = none
find key ((k, v) ∷ m) = if same_key key k then some v else find key m

-- mEntry[key] = v
unfoldable pub set : LedgerKey → Option Entry → EntryMap → EntryMap
set key v [] = (key, v) ∷ []
set key v ((k, w) ∷ m) = if same_key key k then (k, v) ∷ m else (k, w) ∷ set key v m

-- mEntry.erase(key)
unfoldable pub remove : LedgerKey → EntryMap → EntryMap
remove key [] = []
remove key ((k, w) ∷ m) = if same_key key k then m else (k, w) ∷ remove key m

-- No key twice.
unfoldable pub distinct : EntryMap → Bool
unfolding find
distinct [] = true
distinct ((k, v) ∷ m) = elim (find k m) [ none ↦ distinct m | some _ ↦ false ]

-- Two keys that are one are alike to a third.
same_key_left :
    (other key k : LedgerKey) → same_key key k ≡ true → same_key other key ≡ same_key other k
same_key_left other key k h = rw (same_key_sound key k h) refl

same_key_sym : (a b : LedgerKey) → same_key a b ≡ same_key b a
same_key_sym a b = elim (Bool-cases (same_key a b)) [
  | inl e ↦ rw (same_key_sound a b e) refl
  | inr e ↦ elim (Bool-cases (same_key b a)) [
    | inl f ↦ rw (same_key_sound b a f) refl
    | inr f ↦ ground (arith, e, f)
  ]
]

pub find-set :
    (key : LedgerKey) (v : Option Entry) (other : LedgerKey) (m : EntryMap)
    → find other (set key v m) ≡ (if same_key other key then some v else find other m)
unfolding find set
find-set key v other [] = refl
find-set key v other ((k, w) ∷ m) = ground (
  arith,
  find-set key v other m,
  same_key_left other key k,
  same_key_sound other k,
  same_key_sym key other,
)

pub find-same : (a b : LedgerKey) (m : EntryMap) → same_key a b ≡ true → find a m ≡ find b m
find-same a b m h = rw (same_key_sound a b h) refl

pub find-remove :
    (key other : LedgerKey) (m : EntryMap)
    → distinct m ≡ true
    → find other (remove key m) ≡ (if same_key other key then none else find other m)
unfolding distinct find remove
find-remove key other [] d = ground arith
find-remove key other ((k, w) ∷ m) d = ground (
  arith,
  d,
  find-remove key other m,
  same_key_left other key k,
  same_key_sound other k,
  same_key_sym key other,
  find-same other k m,
)

pub distinct-set :
    (key : LedgerKey) (v : Option Entry) (m : EntryMap)
    → distinct m ≡ true
    → distinct (set key v m) ≡ true
unfolding distinct find set
distinct-set key v [] d = refl
distinct-set key v ((k, w) ∷ m) d =
    ground (arith, d, distinct-set key v m, find-set key v k m, same_key_sym k key)

pub distinct-remove :
    (key : LedgerKey) (m : EntryMap) → distinct m ≡ true → distinct (remove key m) ≡ true
unfolding distinct find remove
distinct-remove key [] d = refl
distinct-remove key ((k, w) ∷ m) d = ground (arith, d, distinct-remove key m, find-remove key k m)

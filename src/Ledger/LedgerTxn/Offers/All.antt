-- ===== src/Ledger/LedgerTxn/Offers/All.antt =====
-- All offers and the offers of an account, read through nested transactions: src/ledger/LedgerTxn.cpp.
use essa_core.Prelude.{ℕ, ◌≡◌, refl, true, arith, Option, none, some, [], ◌∷◌, if◌then◌else◌, ap}
use essa_core.Ledger.Entry.{Asset}
use essa_core.Ledger.LedgerKey.{LedgerKey, Entry, same_key, same_key_sound, is_offer_key}
use essa_core.Ledger.EntryMap.{
  EntryMap, find, set, remove, find-set, find-remove, distinct, distinct-set, distinct-remove,
  find-same,
}
use essa_core.Ledger.LedgerTxn.{found_or}
use essa_core.Ledger.LedgerTxn.Offers.{add_offers, is_of, is_offer_with, add_offers_of}

-- What a map of offers has under a key.
abbrev pub offer_at : LedgerKey → EntryMap → Option Entry
offer_at key offers = found_or (find key offers) none

offer_at-set :
    (key k : LedgerKey) (v : Option Entry) (m : EntryMap)
    → offer_at key (set k v m) ≡ (if same_key key k then v else offer_at key m)
unfolding found_or
offer_at-set key k v m = ground (arith, find-set k v key m)

offer_at-remove :
    (key k : LedgerKey) (m : EntryMap)
    → distinct m ≡ true
    → offer_at key (remove k m) ≡ (if same_key key k then none else offer_at key m)
unfolding found_or
offer_at-remove key k m d = ground (arith, find-remove k key m d)

offer_key_same : (a b : LedgerKey) → same_key a b ≡ true → is_offer_key a ≡ is_offer_key b
offer_key_same a b h = ap is_offer_key (same_key_sound a b h)

pub offer_at-add_offers :
    (key : LedgerKey) (m offers : EntryMap)
    → distinct m ≡ true
    → distinct offers ≡ true
    → is_offer_key key ≡ true
    → offer_at key (add_offers m offers) ≡ found_or (find key m) (offer_at key offers)
unfolding add_offers distinct find found_or
offer_at-add_offers key [] offers d f o = refl
offer_at-add_offers key ((k, none) ∷ m) offers d f o = ground (
  arith,
  d,
  f,
  o,
  offer_at-add_offers key m (remove k offers),
  offer_at-add_offers key m offers,
  distinct-remove k offers f,
  offer_at-remove key k offers f,
  offer_key_same key k,
  find-same key k m,
)
offer_at-add_offers key ((k, some e) ∷ m) offers d f o = ground (
  arith,
  d,
  f,
  o,
  offer_at-add_offers key m (set k (some e) offers),
  offer_at-add_offers key m offers,
  distinct-set k (some e) offers f,
  offer_at-set key k (some e) offers,
  offer_key_same key k,
  find-same key k m,
)

pub distinct-add_offers :
    (m offers : EntryMap) → distinct offers ≡ true → distinct (add_offers m offers) ≡ true
unfolding add_offers
distinct-add_offers [] offers f = f
distinct-add_offers ((k, none) ∷ m) offers f =
    distinct-add_offers m _ (ground (arith, f, distinct-remove k offers f))
distinct-add_offers ((k, some e) ∷ m) offers f =
    distinct-add_offers m _ (ground (arith, f, distinct-set k (some e) offers f))

-- The version that counts for the offers of an account and an asset.
unfoldable pub only : ℕ → Asset → Option Entry → Option Entry
only account asset none = none
only account asset (some e) = if is_offer_with (is_of account asset) e.body then some e else none

abbrev pub only_found : ℕ → Asset → Option (Option Entry) → Option (Option Entry)
only_found account asset none = none
only_found account asset (some v) = some (only account asset v)

pub offer_at-add_offers_of :
    (account : ℕ) (asset : Asset) (key : LedgerKey) (m offers : EntryMap)
    → distinct m ≡ true
    → distinct offers ≡ true
    → is_offer_key key ≡ true
    → offer_at key (add_offers_of account asset m offers)
      ≡ found_or (only_found account asset (find key m)) (offer_at key offers)
unfolding add_offers_of distinct find found_or only
offer_at-add_offers_of account asset key [] offers d f o = refl
offer_at-add_offers_of account asset key ((k, none) ∷ m) offers d f o = ground (
  arith,
  d,
  f,
  o,
  offer_at-add_offers_of account asset key m (remove k offers),
  offer_at-add_offers_of account asset key m offers,
  distinct-remove k offers f,
  offer_at-remove key k offers f,
  offer_key_same key k,
  find-same key k m,
)
offer_at-add_offers_of account asset key ((k, some e) ∷ m) offers d f o = ground (
  arith,
  d,
  f,
  o,
  offer_at-add_offers_of account asset key m (set k (some e) offers),
  offer_at-add_offers_of account asset key m (remove k offers),
  offer_at-add_offers_of account asset key m offers,
  distinct-remove k offers f,
  distinct-set k (some e) offers f,
  offer_at-remove key k offers f,
  offer_at-set key k (some e) offers,
  offer_key_same key k,
  find-same key k m,
)

pub distinct-add_offers_of :
    (account : ℕ) (asset : Asset) (m offers : EntryMap)
    → distinct offers ≡ true
    → distinct (add_offers_of account asset m offers) ≡ true
unfolding add_offers_of
distinct-add_offers_of account asset [] offers f = f
distinct-add_offers_of account asset ((k, none) ∷ m) offers f =
    distinct-add_offers_of account asset m _ (ground (arith, f, distinct-remove k offers f))
distinct-add_offers_of account asset ((k, some e) ∷ m) offers f =
    distinct-add_offers_of account asset m _
      (ground (arith, f, distinct-remove k offers f, distinct-set k (some e) offers f))

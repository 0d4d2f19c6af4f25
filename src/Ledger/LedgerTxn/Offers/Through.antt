-- ===== src/Ledger/LedgerTxn/Offers/Through.antt =====
-- The offers that are read through every level of nested transactions: src/ledger/LedgerTxn.cpp.
use essa_core.Prelude.{ℕ, ◌≡◌, refl, true, arith, Option, none, some, List, [], ◌∷◌, ap, ◌∙◌}
use essa_core.Ledger.Entry.{Asset, LedgerHeader}
use essa_core.Ledger.LedgerKey.{LedgerKey, Entry, is_offer_key}
use essa_core.Ledger.EntryMap.{EntryMap, find, distinct}
use essa_core.Ledger.LedgerTxn.{Newest, LedgerTxn, found_or, get_newest_version}
use essa_core.Ledger.LedgerTxn.Offers.{get_all_offers, get_offers_by_account_and_asset}
use essa_core.Ledger.LedgerTxn.Offers.All.{
  offer_at, offer_at-add_offers, distinct-add_offers, only, only_found, offer_at-add_offers_of,
  distinct-add_offers_of,
}
use essa_core.Ledger.LedgerTxn.Nested.{newest_of, Reach}
use essa_core.Ledger.LedgerTxn.Nested.Invariant.{
  all_distinct, Reach-WellNested, WellNested-distinct,
}

-- Each level asks its parent; the root answers from the database.
unfoldable pub all_offers_of : EntryMap → List LedgerTxn → EntryMap
unfolding get_all_offers
all_offers_of stored [] = stored
all_offers_of stored (l ∷ ls) = get_all_offers (all_offers_of stored ls) l

unfoldable pub account_offers_of : ℕ → Asset → EntryMap → List LedgerTxn → EntryMap
unfolding get_offers_by_account_and_asset
account_offers_of account asset stored [] = stored
account_offers_of account asset stored (l ∷ ls) =
    get_offers_by_account_and_asset account asset (account_offers_of account asset stored ls) l

all_offers_of-distinct :
    (stored : EntryMap) (ls : List LedgerTxn)
    → distinct stored ≡ true
    → distinct (all_offers_of stored ls) ≡ true
unfolding all_offers_of
all_offers_of-distinct stored [] d = d
all_offers_of-distinct stored (l ∷ ls) d =
    distinct-add_offers l.entries (all_offers_of stored ls) (all_offers_of-distinct stored ls d)

account_offers_of-distinct :
    (account : ℕ) (asset : Asset) (stored : EntryMap) (ls : List LedgerTxn)
    → distinct stored ≡ true
    → distinct (account_offers_of account asset stored ls) ≡ true
unfolding account_offers_of
account_offers_of-distinct account asset stored [] d = d
account_offers_of-distinct account asset stored (l ∷ ls) d =
    distinct-add_offers_of account asset l.entries (account_offers_of account asset stored ls)
      (account_offers_of-distinct account asset stored ls d)

all_offers-newest :
    (root : Newest) (stored : EntryMap) (key : LedgerKey) (ls : List LedgerTxn)
    → distinct stored ≡ true
    → offer_at key stored ≡ root key
    → is_offer_key key ≡ true
    → all_distinct ls ≡ true
    → offer_at key (all_offers_of stored ls) ≡ newest_of root ls key
unfolding all_offers_of newest_of get_newest_version
all_offers-newest root stored key [] d r o w = r
all_offers-newest root stored key (l ∷ ls) d r o w =
    offer_at-add_offers key l.entries (all_offers_of stored ls) (ground (arith, w))
      (all_offers_of-distinct stored ls d) o
    ∙ ap (found_or (find key l.entries))
        (all_offers-newest root stored key ls d r o (ground (arith, w)))

only-found_or :
    (account : ℕ) (asset : Asset) (f : Option (Option Entry)) (p : Option Entry)
    → found_or (only_found account asset f) (only account asset p)
      ≡ only account asset (found_or f p)
unfolding found_or
only-found_or account asset none p = refl
only-found_or account asset (some v) p = refl

account_offers-newest :
    (account : ℕ) (asset : Asset) (root : Newest) (stored : EntryMap) (key : LedgerKey)
    (ls : List LedgerTxn)
    → distinct stored ≡ true
    → offer_at key stored ≡ only account asset (root key)
    → is_offer_key key ≡ true
    → all_distinct ls ≡ true
    → offer_at key (account_offers_of account asset stored ls)
      ≡ only account asset (newest_of root ls key)
unfolding account_offers_of newest_of get_newest_version
account_offers-newest account asset root stored key [] d r o w = r
account_offers-newest account asset root stored key (l ∷ ls) d r o w =
    offer_at-add_offers_of account asset key l.entries (account_offers_of account asset stored ls)
      (ground (arith, w)) (account_offers_of-distinct account asset stored ls d) o
    ∙ ap (found_or (only_found account asset (find key l.entries)))
        (account_offers-newest account asset root stored key ls d r o (ground (arith, w)))
    ∙ only-found_or account asset (find key l.entries) (newest_of root ls key)

-- In nested transactions that were reached by any steps: if what the database answers for all offers,
-- and for those of an account that sell or buy an asset, is what the root has under the keys of
-- offers, each key once, then so are the answers through all levels what the innermost transaction
-- has.
pub offers-newest :
    (root : Newest) (header : LedgerHeader) (ls : List LedgerTxn) (account : ℕ) (asset : Asset)
    (stored mine : EntryMap)
    → Reach root header ls
    → distinct stored ≡ true
    → distinct mine ≡ true
    → (key : LedgerKey) → is_offer_key key ≡ true
    → offer_at key stored ≡ root key
    → offer_at key mine ≡ only account asset (root key)
    → (offer_at key (all_offers_of stored ls) ≡ newest_of root ls key)
      × (offer_at key (account_offers_of account asset mine ls)
          ≡ only account asset (newest_of root ls key))
offers-newest root header ls account asset stored mine r d f key o h g =
    let w = WellNested-distinct root ls (Reach-WellNested root header ls r) in
    (
      all_offers-newest root stored key ls d h o w,
      account_offers-newest account asset root mine key ls f g o w,
    )

-- ===== src/Ledger/LedgerTxn/Offers.antt =====
-- Queries on offers through nested transactions: getAllOffers, getOffersByAccountAndAsset and
-- getBestOffer of src/ledger/LedgerTxn.cpp, with isBetterOffer of src/ledger/LedgerTxnOfferSQL.cpp.
-- Prices are compared as doubles there: `quotient n d` stands for the bits of double(n) / double(d),
-- which order the positive doubles. The assertions of isBetterOffer, that both offers are of one pair
-- of assets, hold where it is called from here: both have passed the same test.
pub mod All
pub mod Through
pub mod Best
pub mod Scan
pub mod Book
use essa_core.Prelude.{
  ℕ, Bool, true, false, not, ◌&&◌, ◌||◌, ltb, ◌==◌, Option, none, some, List, [], ◌∷◌,
  if◌then◌else◌,
}
use essa_core.Ledger.Entry.{Asset, OfferEntry, Price, LedgerEntry, offer}
use essa_core.Ledger.LedgerKey.{LedgerKey, Entry, is_offer_key, same_key, same_asset}
use essa_core.Ledger.EntryMap.{EntryMap, set, remove}
use essa_core.Ledger.LedgerTxn.{LedgerTxn}

-- entry->data.offer() passes the test.
unfoldable pub is_offer_with : (OfferEntry → Bool) → LedgerEntry → Bool
is_offer_with p (offer o) = p o
is_offer_with p _ = false

unfoldable pub add_offers : EntryMap → EntryMap → EntryMap
add_offers [] offers = offers
add_offers ((k, none) ∷ m) offers =
    add_offers m (if is_offer_key k then remove k offers else offers)
add_offers ((k, some e) ∷ m) offers =
    add_offers m (if is_offer_key k then set k (some e) offers else offers)

-- The offers of the parent, with the entries of the transaction over them.
unfoldable pub get_all_offers : EntryMap → LedgerTxn → EntryMap
unfolding add_offers
get_all_offers parent_offers l = add_offers l.entries parent_offers

unfoldable pub is_of : ℕ → Asset → OfferEntry → Bool
is_of account asset o =
    o.seller_id == account && (same_asset o.selling asset || same_asset o.buying asset)

-- An offer that has gone over to another pair of assets is dropped like an erased one.
unfoldable pub add_offers_of : ℕ → Asset → EntryMap → EntryMap → EntryMap
unfolding is_of is_offer_with
add_offers_of account asset [] offers = offers
add_offers_of account asset ((k, none) ∷ m) offers =
    add_offers_of account asset m (if is_offer_key k then remove k offers else offers)
add_offers_of account asset ((k, some e) ∷ m) offers = add_offers_of account asset m (
    if is_offer_key k
    then (if is_offer_with (is_of account asset) e.body
        then set k (some e) offers
        else remove k offers)
    else offers)

unfoldable pub get_offers_by_account_and_asset : ℕ → Asset → EntryMap → LedgerTxn → EntryMap
unfolding add_offers_of
get_offers_by_account_and_asset account asset parent_offers l =
    add_offers_of account asset l.entries parent_offers

-- The price of an offer as a double; no other entry is compared.
unfoldable pub price_of : (ℕ → ℕ → ℕ) → LedgerEntry → ℕ
price_of quotient (offer o) = quotient o.price.n o.price.d
price_of quotient _ = 0

unfoldable pub offer_id_of : LedgerEntry → ℕ
offer_id_of (offer o) = o.offer_id
offer_id_of _ = 0

unfoldable pub is_better_offer : (ℕ → ℕ → ℕ) → Entry → Entry → Bool
unfolding price_of offer_id_of
is_better_offer quotient l r =
    ltb (price_of quotient l.body) (price_of quotient r.body)
    || price_of quotient l.body == price_of quotient r.body
      && ltb (offer_id_of l.body) (offer_id_of r.body)

unfoldable pub trades : Asset → Asset → OfferEntry → Bool
trades buying selling o = same_asset o.buying buying && same_asset o.selling selling

unfoldable pub excluded : LedgerKey → List LedgerKey → Bool
excluded key [] = false
excluded key (k ∷ ks) = same_key key k || excluded key ks

-- The better of two offers, the second one at a tie.
unfoldable pub better_of : (ℕ → ℕ → ℕ) → Option Entry → Option Entry → Option Entry
unfolding is_better_offer
better_of quotient none b = b
better_of quotient (some a) none = some a
better_of quotient (some a) (some b) = if is_better_offer quotient a b then some a else some b

-- An entry of the pair of assets takes the place of the best one so far if it is better.
unfoldable pub take_better : (ℕ → ℕ → ℕ) → Option Entry → Option Entry → Option Entry
unfolding is_better_offer
take_better quotient none best = best
take_better quotient (some o) none = some o
take_better quotient (some o) (some b) = if is_better_offer quotient o b then some o else some b

-- The entry, if it is there and trades the pair.
unfoldable pub traded : Asset → Asset → Option Entry → Option Entry
unfolding is_offer_with trades
traded buying selling none = none
traded buying selling (some e) =
    if is_offer_with (trades buying selling) e.body then some e else none

-- The loop over mEntry: the best offer, and the keys to exclude in the parent.
unfoldable pub scan :
    (ℕ → ℕ → ℕ)
    → Asset
    → Asset
    → EntryMap
    → Option Entry
    → List LedgerKey
    → Option Entry × List LedgerKey
unfolding excluded take_better traded
scan quotient buying selling [] best exclude = (best, exclude)
scan quotient buying selling ((k, v) ∷ m) best exclude =
    if is_offer_key k && not (excluded k exclude)
    then scan quotient buying selling m (take_better quotient (traded buying selling v) best)
        (k ∷ exclude)
    else scan quotient buying selling m best exclude

-- What a parent answers when it is asked for its best offer beside those to exclude.
abbrev pub BestOffer : Type 0
BestOffer = List LedgerKey → Option Entry

unfoldable pub get_best_offer : (ℕ → ℕ → ℕ) → Asset → Asset → BestOffer → LedgerTxn → BestOffer
unfolding scan better_of
get_best_offer quotient buying selling parent l exclude =
    let (best, exclude') = scan quotient buying selling l.entries none exclude in
    better_of quotient best (parent exclude')

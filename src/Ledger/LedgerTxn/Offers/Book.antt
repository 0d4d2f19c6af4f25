-- ===== src/Ledger/LedgerTxn/Offers/Book.antt =====
-- The best offer of the order book, read through every level of nested transactions:
-- LedgerTxn::Impl::getBestOffer of src/ledger/LedgerTxn.cpp.
use essa_core.Prelude.{
  ℕ, ◌≡◌, Bool, true, false, ◌||◌, arith, Option, none, List, [], ◌∷◌, if◌then◌else◌, ◌∙◌, sym,
  Bool-cases, inl, inr, ◌⊎◌,
}
use essa_core.Ledger.Entry.{Asset, LedgerHeader}
use essa_core.Ledger.LedgerKey.{LedgerKey, Entry, is_offer_key}
use essa_core.Ledger.EntryMap.{find, distinct}
use essa_core.Ledger.LedgerTxn.{Newest, LedgerTxn, found_or, is_some, get_newest_version}
use essa_core.Ledger.LedgerTxn.Offers.{better_of, traded, excluded, scan, BestOffer, get_best_offer}
use essa_core.Ledger.LedgerTxn.Offers.Best.{
  candidate, no_worse, no_worse_trans, better_of-no_worse, better_of-one,
}
use essa_core.Ledger.LedgerTxn.Offers.Scan.{here, Scanned, scan-Scanned}
use essa_core.Ledger.LedgerTxn.Nested.{newest_of, Reach}
use essa_core.Ledger.LedgerTxn.Nested.Invariant.{
  all_distinct, Reach-WellNested, WellNested-distinct,
}

-- An offer of the pair under a key that is not excluded, to which no other one is preferred; none, if
-- there is no such offer.
pub record IsBest (quotient : ℕ → ℕ → ℕ) (buying selling : Asset) (exclude : List LedgerKey)
    (f : Newest) (r : Option Entry) : Type 0 where
  pub no_worse_all :
      (key : LedgerKey) → no_worse quotient r (candidate buying selling exclude f key) ≡ true
  pub is_one : (r ≡ none) ⊎ ((key : LedgerKey) × (candidate buying selling exclude f key ≡ r))

-- Every level asks its parent, with its own offers excluded.
unfoldable pub best_offer_of : (ℕ → ℕ → ℕ) → Asset → Asset → BestOffer → List LedgerTxn → BestOffer
unfolding get_best_offer
best_offer_of quotient buying selling stored [] = stored
best_offer_of quotient buying selling stored (l ∷ ls) =
    get_best_offer quotient buying selling (best_offer_of quotient buying selling stored ls) l

module _ (quotient : ℕ → ℕ → ℕ) (buying selling : Asset) (f : Newest) (l : LedgerTxn) where
  -- A key is seen here, or its version is the parent's.
  candidate-newest :
      (ex ex' : List LedgerKey) (key : LedgerKey)
      → (is_offer_key key ≡ true
          → excluded key ex' ≡ (excluded key ex || is_some (find key l.entries)))
      → candidate buying selling ex (get_newest_version f l) key ≡ (
          if is_some (find key l.entries)
          then candidate buying selling ex (here l.entries) key
          else candidate buying selling ex' f key)
  unfolding candidate get_newest_version found_or is_some
  candidate-newest ex ex' key h = ground (arith, h)

  seen_nowhere :
      (ex : List LedgerKey) (key : LedgerKey)
      → is_some (find key l.entries) ≡ false
      → candidate buying selling ex (here l.entries) key ≡ none
  unfolding candidate found_or is_some traded
  seen_nowhere ex key h = ground (arith, h)

  excluded_above :
      (ex ex' : List LedgerKey) (key : LedgerKey)
      → (is_offer_key key ≡ true
          → excluded key ex' ≡ (excluded key ex || is_some (find key l.entries)))
      → is_some (find key l.entries) ≡ true
      → candidate buying selling ex' f key ≡ none
  unfolding candidate
  excluded_above ex ex' key h e = ground (arith, h, e)

  if_no_worse :
      (b : Bool) (x y r : Option Entry)
      → no_worse quotient r x ≡ true
      → no_worse quotient r y ≡ true
      → no_worse quotient r (if b then x else y) ≡ true
  if_no_worse true x y r h g = h
  if_no_worse false x y r h g = g

  -- An offer that was found on either side is an offer of the newest versions.
  found_here :
      (ex ex' : List LedgerKey) (r : Option Entry) (key : LedgerKey)
      → (is_offer_key key ≡ true
          → excluded key ex' ≡ (excluded key ex || is_some (find key l.entries)))
      → candidate buying selling ex (here l.entries) key ≡ r
      → (r ≡ none)
        ⊎ ((k : LedgerKey) × (candidate buying selling ex (get_newest_version f l) k ≡ r))
  found_here ex ex' r key h e = elim (Bool-cases (is_some (find key l.entries))) [
    | inl s ↦ inr (key, rw (candidate-newest ex ex' key h, s) e)
    | inr s ↦ inl (sym e ∙ seen_nowhere ex key s)
  ]

  found_above :
      (ex ex' : List LedgerKey) (r : Option Entry) (key : LedgerKey)
      → (is_offer_key key ≡ true
          → excluded key ex' ≡ (excluded key ex || is_some (find key l.entries)))
      → candidate buying selling ex' f key ≡ r
      → (r ≡ none)
        ⊎ ((k : LedgerKey) × (candidate buying selling ex (get_newest_version f l) k ≡ r))
  found_above ex ex' r key h e = elim (Bool-cases (is_some (find key l.entries))) [
    | inl s ↦ inl (sym e ∙ excluded_above ex ex' key h s)
    | inr s ↦ inr (key, rw (candidate-newest ex ex' key h, s) e)
  ]

  combined :
      (ex : List LedgerKey) (mine : Option Entry × List LedgerKey) (above : Option Entry)
      → Scanned quotient buying selling l.entries none ex mine
      → IsBest quotient buying selling mine.1 f above
      → IsBest quotient buying selling ex (get_newest_version f l) (better_of quotient mine.0 above)
  combined ex mine above s b =
      let r = better_of quotient mine.0 above in
      let (left, right) = better_of-no_worse quotient mine.0 above in
      record {
        no_worse_all = λ key. rw (candidate-newest ex mine.1 key (s.excludes key)) (
            if_no_worse (is_some (find key l.entries)) _ _ r
              (no_worse_trans quotient r mine.0 _ left (s.no_worse_all key))
              (no_worse_trans quotient r above _ right (b.no_worse_all key)));
        is_one = elim (better_of-one quotient mine.0 above) [
          | inl e ↦ elim s.is_one [
            | inl n ↦ inl (e ∙ n)
            | inr (key, c) ↦ found_here ex mine.1 r key (s.excludes key) (c ∙ sym e)
          ]
          | inr e ↦ elim b.is_one [
            | inl n ↦ inl (e ∙ n)
            | inr (key, c) ↦ found_above ex mine.1 r key (s.excludes key) (c ∙ sym e)
          ]
        ];
      }

  get_best_offer-IsBest :
      (parent : BestOffer) (ex : List LedgerKey)
      → distinct l.entries ≡ true
      → ((ex' : List LedgerKey) → IsBest quotient buying selling ex' f (parent ex'))
      → IsBest quotient buying selling ex
          (get_newest_version f l)
          (get_best_offer quotient buying selling parent l ex)
  unfolding get_best_offer
  get_best_offer-IsBest parent ex d b =
      let mine = scan quotient buying selling l.entries none ex in
      combined ex mine (parent mine.1) (scan-Scanned quotient buying selling l.entries none ex d)
        (b mine.1)

levels-IsBest :
    (quotient : ℕ → ℕ → ℕ) (buying selling : Asset) (root : Newest) (stored : BestOffer)
    (ls : List LedgerTxn)
    → all_distinct ls ≡ true
    → ((ex : List LedgerKey) → IsBest quotient buying selling ex root (stored ex))
    → (ex : List LedgerKey)
    → IsBest quotient buying selling ex
        (newest_of root ls)
        (best_offer_of quotient buying selling stored ls ex)
unfolding newest_of best_offer_of
levels-IsBest quotient buying selling root stored [] d b ex = b ex
levels-IsBest quotient buying selling root stored (l ∷ ls) d b ex =
    get_best_offer-IsBest quotient buying selling (newest_of root ls) l
      (best_offer_of quotient buying selling stored ls) ex (ground (arith, d))
      (levels-IsBest quotient buying selling root stored ls (ground (arith, d)) b)

-- In nested transactions that were reached by any steps: if the root answers with a best offer of the
-- pair among its own, whichever keys are excluded, then getBestOffer answers through all levels with
-- a best one among the newest versions, and none exactly if there is no offer of the pair.
pub best_offer_of-IsBest :
    (quotient : ℕ → ℕ → ℕ) (buying selling : Asset) (root : Newest) (stored : BestOffer)
    (header : LedgerHeader) (ls : List LedgerTxn)
    → Reach root header ls
    → ((ex : List LedgerKey) → IsBest quotient buying selling ex root (stored ex))
    → (ex : List LedgerKey)
    → IsBest quotient buying selling ex
        (newest_of root ls)
        (best_offer_of quotient buying selling stored ls ex)
best_offer_of-IsBest quotient buying selling root stored header ls r =
    levels-IsBest quotient buying selling root stored ls
      (WellNested-distinct root ls (Reach-WellNested root header ls r))

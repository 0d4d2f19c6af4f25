-- ===== src/Ledger/LedgerTxn/Offers/Scan.antt =====
-- The loop of LedgerTxn::Impl::getBestOffer and its call on the parent: src/ledger/LedgerTxn.cpp.
use essa_core.Prelude.{
  ℕ, ◌≡◌, refl, Bool, true, false, not, ◌&&◌, ◌||◌, arith, Option, none, some, List, [], ◌∷◌,
  if◌then◌else◌, ◌∙◌, sym, Bool-cases, inl, inr, ◌⊎◌,
}
use essa_core.Ledger.Entry.{Asset}
use essa_core.Ledger.LedgerKey.{
  LedgerKey, Entry, same_key, same_key_refl, same_key_sound, is_offer_key,
}
use essa_core.Ledger.EntryMap.{EntryMap, find, distinct}
use essa_core.Ledger.LedgerTxn.{Newest, found_or, is_some}
use essa_core.Ledger.LedgerTxn.Offers.{take_better, traded, excluded, scan}
use essa_core.Ledger.LedgerTxn.Offers.Best.{
  candidate, no_worse, no_worse_trans, no_worse_refl, take_better-no_worse, take_better-one,
}

-- The entries of one transaction as a map.
abbrev pub here : EntryMap → Newest
here m key = found_or (find key m) none

module _ (quotient : ℕ → ℕ → ℕ) (buying selling : Asset) where
  -- What is left to see after the head of the entries.
  candidate_seen :
      (k key : LedgerKey) (v : Option Entry) (m : EntryMap) (ex : List LedgerKey)
      → distinct ((k, v) ∷ m) ≡ true
      → (is_offer_key k && not (excluded k ex)) ≡ true
      → candidate buying selling ex (here ((k, v) ∷ m)) key ≡ (
          if same_key key k
          then traded buying selling v
          else candidate buying selling (k ∷ ex) (here m) key)
  unfolding candidate found_or find excluded distinct
  candidate_seen k key v m ex d h = ground (arith, d, h, same_key_sound key k)

  candidate_skipped :
      (k key : LedgerKey) (v : Option Entry) (m : EntryMap) (ex : List LedgerKey)
      → distinct ((k, v) ∷ m) ≡ true
      → (is_offer_key k && not (excluded k ex)) ≡ false
      → candidate buying selling ex (here ((k, v) ∷ m)) key
        ≡ candidate buying selling ex (here m) key
  unfolding candidate found_or find distinct traded
  candidate_skipped k key v m ex d h = ground (arith, d, h, same_key_sound key k)

  -- The scan in the two cases of its head.
  scan_seen :
      (k : LedgerKey) (v best : Option Entry) (m : EntryMap) (ex : List LedgerKey)
      → (is_offer_key k && not (excluded k ex)) ≡ true
      → scan quotient buying selling ((k, v) ∷ m) best ex
        ≡ scan quotient buying selling m
            (take_better quotient (traded buying selling v) best)
            (k ∷ ex)
  unfolding scan
  scan_seen k v best m ex h = rw h refl

  scan_skipped :
      (k : LedgerKey) (v best : Option Entry) (m : EntryMap) (ex : List LedgerKey)
      → (is_offer_key k && not (excluded k ex)) ≡ false
      → scan quotient buying selling ((k, v) ∷ m) best ex ≡ scan quotient buying selling m best ex
  unfolding scan
  scan_skipped k v best m ex h = rw h refl

  -- What the scan is to deliver of entries: an offer at least as good as the best one so far and as
  -- every candidate among them, and one of those; and every offer among them is excluded.
  pub record Scanned (m : EntryMap) (best : Option Entry) (ex : List LedgerKey)
      (r : Option Entry × List LedgerKey) : Type 0 where
    pub no_worse_best : no_worse quotient r.0 best ≡ true
    pub no_worse_all :
        (key : LedgerKey) → no_worse quotient r.0 (candidate buying selling ex (here m) key) ≡ true
    pub is_one :
        (r.0 ≡ best) ⊎ ((key : LedgerKey) × (candidate buying selling ex (here m) key ≡ r.0))
    pub excludes :
        (key : LedgerKey)
        → is_offer_key key ≡ true
        → excluded key r.1 ≡ (excluded key ex || is_some (find key m))

  excludes_head :
      (k key : LedgerKey) (v : Option Entry) (m : EntryMap) (ex : List LedgerKey)
      → is_offer_key key ≡ true
      → (is_offer_key k && not (excluded k ex)) ≡ false
      → (excluded key ex || is_some (find key m))
        ≡ (excluded key ex || is_some (find key ((k, v) ∷ m)))
  unfolding is_some find
  excludes_head k key v m ex o h = ground (arith, o, h, same_key_sound key k)

  excludes_seen :
      (k key : LedgerKey) (v : Option Entry) (m : EntryMap) (ex : List LedgerKey)
      → (excluded key (k ∷ ex) || is_some (find key m))
        ≡ (excluded key ex || is_some (find key ((k, v) ∷ m)))
  unfolding is_some find excluded
  excludes_seen k key v m ex = ground arith

  tail-distinct :
      (k : LedgerKey) (v : Option Entry) (m : EntryMap)
      → distinct ((k, v) ∷ m) ≡ true
      → distinct m ≡ true
  unfolding distinct
  tail-distinct k v m d = ground (arith, d)

  -- A test that holds of the two branches holds of the choice.
  if_no_worse :
      (b : Bool) (x y r : Option Entry)
      → no_worse quotient r x ≡ true
      → no_worse quotient r y ≡ true
      → no_worse quotient r (if b then x else y) ≡ true
  if_no_worse true x y r h g = h
  if_no_worse false x y r h g = g

  no_worse_than_nothing : (b : Option Entry) → no_worse quotient none b ≡ true → b ≡ none
  unfolding no_worse
  no_worse_than_nothing none h = refl
  no_worse_than_nothing (some b) h = absurd (ground (arith, h))

  excluded_none :
      (k key : LedgerKey) (m : EntryMap) (ex : List LedgerKey)
      → same_key key k ≡ true
      → candidate buying selling (k ∷ ex) (here m) key ≡ none
  unfolding candidate excluded
  excluded_none k key m ex h = ground (arith, h)

  seen_at :
      (k key : LedgerKey) (v : Option Entry) (m : EntryMap) (ex : List LedgerKey)
      → distinct ((k, v) ∷ m) ≡ true
      → (is_offer_key k && not (excluded k ex)) ≡ true
      → same_key key k ≡ false
      → candidate buying selling ex (here ((k, v) ∷ m)) key
        ≡ candidate buying selling (k ∷ ex) (here m) key
  seen_at k key v m ex d h e = rw (candidate_seen k key v m ex d h, e) refl

  seen_head :
      (k : LedgerKey) (v : Option Entry) (m : EntryMap) (ex : List LedgerKey)
      → distinct ((k, v) ∷ m) ≡ true
      → (is_offer_key k && not (excluded k ex)) ≡ true
      → candidate buying selling ex (here ((k, v) ∷ m)) k ≡ traded buying selling v
  seen_head k v m ex d h = rw (candidate_seen k k v m ex d h, same_key_refl k) refl

  seen_one :
      (k : LedgerKey) (v best : Option Entry) (m : EntryMap) (ex : List LedgerKey)
      (r : Option Entry × List LedgerKey)
      → distinct ((k, v) ∷ m) ≡ true
      → (is_offer_key k && not (excluded k ex)) ≡ true
      → Scanned m (take_better quotient (traded buying selling v) best) (k ∷ ex) r
      → (r.0 ≡ best)
        ⊎ ((key : LedgerKey) × (candidate buying selling ex (here ((k, v) ∷ m)) key ≡ r.0))
  seen_one k v best m ex r d h s =
      let o = traded buying selling v in
      elim s.is_one [
        | inl e ↦ elim (take_better-one quotient o best) [
          | inl old ↦ inl (e ∙ old)
          | inr new ↦ inr (k, seen_head k v m ex d h ∙ sym (e ∙ new))
        ]
        | inr (key, e) ↦ elim (Bool-cases (same_key key k)) [
          | inl same ↦
              let nothing = sym e ∙ excluded_none k key m ex same in
              inl (
                nothing
                ∙ sym (
                    no_worse_than_nothing best (
                      rw (← nothing) (
                        no_worse_trans quotient r.0 (take_better quotient o best) best
                          s.no_worse_best (take_better-no_worse quotient o best).1))))
          | inr other ↦ inr (key, seen_at k key v m ex d h other ∙ e)
        ]
      ]

  seen :
      (k : LedgerKey) (v best : Option Entry) (m : EntryMap) (ex : List LedgerKey)
      (r : Option Entry × List LedgerKey)
      → distinct ((k, v) ∷ m) ≡ true
      → (is_offer_key k && not (excluded k ex)) ≡ true
      → Scanned m (take_better quotient (traded buying selling v) best) (k ∷ ex) r
      → Scanned ((k, v) ∷ m) best ex r
  seen k v best m ex r d h s =
      let o = traded buying selling v in
      let (new, old) = take_better-no_worse quotient o best in
      record {
        no_worse_best =
            no_worse_trans quotient r.0 (take_better quotient o best) best s.no_worse_best old;
        no_worse_all = λ key. rw (candidate_seen k key v m ex d h) (
            if_no_worse (same_key key k) o _ r.0
              (no_worse_trans quotient r.0 (take_better quotient o best) o s.no_worse_best new)
              (s.no_worse_all key));
        is_one = seen_one k v best m ex r d h s;
        excludes = λ key q. s.excludes key q ∙ excludes_seen k key v m ex;
      }

  skipped :
      (k : LedgerKey) (v best : Option Entry) (m : EntryMap) (ex : List LedgerKey)
      (r : Option Entry × List LedgerKey)
      → distinct ((k, v) ∷ m) ≡ true
      → (is_offer_key k && not (excluded k ex)) ≡ false
      → Scanned m best ex r
      → Scanned ((k, v) ∷ m) best ex r
  skipped k v best m ex r d h s = record {
    no_worse_best = s.no_worse_best;
    no_worse_all = λ key. rw (candidate_skipped k key v m ex d h) (s.no_worse_all key);
    is_one = elim s.is_one [
      | inl e ↦ inl e
      | inr (key, e) ↦ inr (key, candidate_skipped k key v m ex d h ∙ e)
    ];
    excludes = λ key q. s.excludes key q ∙ excludes_head k key v m ex q h;
  }

  nothing_here :
      (ex : List LedgerKey) (best : Option Entry) (key : LedgerKey)
      → no_worse quotient best (candidate buying selling ex (here []) key) ≡ true
  unfolding candidate no_worse found_or find traded
  nothing_here ex best key = ground arith

  none_found :
      (ex : List LedgerKey) (key : LedgerKey)
      → excluded key ex ≡ (excluded key ex || is_some (find key []))
  unfolding is_some find
  none_found ex key = ground arith

  pub scan-Scanned :
      (m : EntryMap) (best : Option Entry) (ex : List LedgerKey)
      → distinct m ≡ true
      → Scanned m best ex (scan quotient buying selling m best ex)
  unfolding scan
  scan-Scanned [] best ex d = record {
    no_worse_best = no_worse_refl quotient best;
    no_worse_all = λ key. nothing_here ex best key;
    is_one = inl refl;
    excludes = λ key q. none_found ex key;
  }
  scan-Scanned ((k, v) ∷ m) best ex d = elim (Bool-cases (is_offer_key k && not (excluded k ex))) [
    | inl h ↦ rw (scan_seen k v best m ex h) (
        seen k v best m ex _ d h (
          scan-Scanned m (take_better quotient (traded buying selling v) best) (k ∷ ex)
            (tail-distinct k v m d)))
    | inr h ↦
        rw (scan_skipped k v best m ex h)
          (skipped k v best m ex _ d h (scan-Scanned m best ex (tail-distinct k v m d)))
  ]

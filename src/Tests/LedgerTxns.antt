-- ===== src/Tests/LedgerTxns.antt =====
-- Nested transactions over one account: ledger/LedgerTxn.cpp.
use essa_core.Prelude.{
  ℕ, ◌*◌, ◌/◌, inl, arith, ◌≡◌, refl, true, false, none, some, List, [], ◌∷◌, if◌then◌else◌,
}
use essa_core.Prelude.Int.{pos}
use essa_core.Prelude.Result.{ok}
use essa_core.Ledger.Entry.{native, alpha_num4, offer, data_entry, account, LedgerHeader, v0}
use essa_core.Ledger.LedgerKey.{
  LedgerKey, Entry, account_key, data_key, offer_key, trust_line_key, is_offer_key, same_key,
  same_asset, ledger_entry_key, body_key,
}
use essa_core.Ledger.EntryMap.{find, set, remove, distinct}
use essa_core.Ledger.LedgerTxn.{
  Newest, LedgerTxn, new_ledger_txn, get_newest_version, found_or, is_some, add_child, create,
  erase, erase_entry, find_active, remove_active, throw_if_child, throw_if_sealed, exact,
  mutable_impl,
}
use essa_core.Ledger.LedgerTxn.Sealing.{LedgerEntryChange, commit, get_changes}
use essa_core.Ledger.LedgerTxn.Sound.{Sound, new_ledger_txn-Sound}
use essa_core.Ledger.LedgerTxn.Commit.{final, map_found}
use essa_core.Ledger.LedgerTxn.Changes.{replay, keyed}
use essa_core.Ledger.LedgerTxn.Nested.{
  creates, erases, run, newest_of, Reach, start, later, opens, nests, calls,
}
use essa_core.Ledger.LedgerTxn.Nested.Invariant.{WellNested, Reach-WellNested}
use essa_core.Ledger.LedgerTxn.Nested.Reports.{get_changes-replay, commit-newest_of}
use essa_core.Ledger.LedgerTxn.Offers.{
  BestOffer, traded, excluded, get_best_offer, scan, better_of, take_better, trades, is_offer_with,
}
use essa_core.Ledger.LedgerTxn.Offers.All.{offer_at, only}
use essa_core.Ledger.LedgerTxn.Offers.Best.{candidate, no_worse}
use essa_core.Ledger.LedgerTxn.Offers.Book.{IsBest, best_offer_of, best_offer_of-IsBest}
use essa_core.Ledger.LedgerTxn.Offers.Through.{all_offers_of, account_offers_of, offers-newest}
use essa_core.Ledger.LedgerTxn.Nested.Effect.{flat, run-flat}

abbrev header : LedgerHeader
header = record { ledger_version = 10; ledger_seq = 7; base_reserve = 5; id_pool = 0 }

abbrev alice : Entry
alice = record {
  last_modified_ledger_seq = 3;
  body = account (record {
    account_id = 1;
    balance = pos 1000;
    seq_num = pos 4;
    num_sub_entries = 0;
    inflation_dest = none;
    flags = 0;
    home_domain = 0;
    thresholds = record { master_weight = 1; low = 0; medium = 0; high = 0 };
    signers = [];
    ext = v0;
  });
}

abbrev note : Entry
note = record {
  last_modified_ledger_seq = 0;
  body = data_entry (record { account_id = 1; data_name = 8; data_value = 9 });
}

-- The root has alice only.
abbrev root : Newest
root (account_key a) = if same_key (account_key a) (account_key 1) then some alice else none
root _ = none

abbrev outer : LedgerTxn
outer = record {
  entries = (data_key 1 8, some note) ∷ [];
  header = header;
  active = [];
  active_header = false;
  should_update_last_modified = false;
  is_sealed = false;
  consistency = exact;
  has_child = true;
}

-- It erased what `outer` created, and the account of the root.
abbrev inner : LedgerTxn
inner = record {
  entries = (account_key 1, none) ∷ (data_key 1 8, none) ∷ [];
  header = header;
  active = [];
  active_header = false;
  should_update_last_modified = true;
  is_sealed = false;
  consistency = exact;
  has_child = false;
}

reached : Reach root header (inner ∷ outer ∷ [])
unfolding run newest_of create erase erase_entry get_newest_version found_or is_some find set remove
    same_key same_asset ledger_entry_key body_key find_active remove_active throw_if_child
    throw_if_sealed new_ledger_txn add_child
reached =
    later
      (later
        (later (later (later start (opens false)) (calls (creates note) refl)) (nests true refl))
        (calls (erases (account_key 1)) refl))
      (calls (erases (data_key 1 8)) refl)

Reach-WellNested_example : WellNested root (inner ∷ outer ∷ [])
Reach-WellNested_example = Reach-WellNested root header (inner ∷ outer ∷ []) reached

get_changes-replay_example :
    (cs : List LedgerEntryChange) × (l' : LedgerTxn) × (get_changes
        (newest_of root (outer ∷ []))
        inner
      ≡ ok (cs, l'))
    × (l'.is_sealed ≡ true)
    × ((key : LedgerKey)
        → replay cs (newest_of root (outer ∷ [])) key
          ≡ get_newest_version (newest_of root (outer ∷ [])) l' key)
unfolding keyed
get_changes-replay_example = get_changes-replay root header inner (outer ∷ []) reached refl refl

commit-newest_of_example :
    (p' : LedgerTxn) × (commit (newest_of root []) outer inner ≡ ok p')
    × (p'.header ≡ header)
    × ((key : LedgerKey)
        → newest_of root (p' ∷ []) key
          ≡ found_or
              (map_found (final inner) (find key inner.entries))
              (newest_of root (outer ∷ []) key))
commit-newest_of_example = commit-newest_of root header inner outer [] reached

abbrev fresh : LedgerTxn
fresh = record {
  entries = [];
  header = header;
  active = [];
  active_header = false;
  should_update_last_modified = true;
  is_sealed = false;
  consistency = exact;
  has_child = false;
}

abbrev without_alice : LedgerTxn
without_alice = record fresh { entries = (account_key 1, none) ∷ [] }

fresh-Sound : Sound root fresh
unfolding new_ledger_txn
fresh-Sound = new_ledger_txn-Sound root header true

erases_alice : run root (erases (account_key 1)) fresh ≡ ok without_alice
unfolding run erase erase_entry get_newest_version found_or is_some find set same_key remove_active
    throw_if_child throw_if_sealed
erases_alice = refl

run-flat_example :
    get_newest_version root without_alice (account_key 1)
    ≡ flat (erases (account_key 1)) (get_newest_version root fresh) (account_key 1)
run-flat_example =
    run-flat root (erases (account_key 1)) fresh without_alice fresh-Sound refl erases_alice
      (account_key 1)

abbrev asks : Entry
asks = record {
  last_modified_ledger_seq = 7;
  body = offer (record {
    seller_id = 1;
    offer_id = 2;
    selling = native;
    buying = alpha_num4 3 1;
    amount = pos 50;
    price = record { n = 3; d = 2 };
    flags = 0;
  });
}

-- It created an offer.
abbrev maker : LedgerTxn
maker = record fresh {
  entries = (offer_key 1 2, some asks) ∷ [];
  active = (offer_key 1 2, mutable_impl) ∷ [];
}

made : Reach root header (maker ∷ [])
unfolding run newest_of create get_newest_version found_or is_some find set same_key
    ledger_entry_key body_key throw_if_child throw_if_sealed new_ledger_txn
made = later (later start (opens true)) (calls (creates asks) refl)

offers-newest_example :
    (offer_at (offer_key 1 2) (all_offers_of [] (maker ∷ []))
      ≡ newest_of root (maker ∷ []) (offer_key 1 2))
    × (offer_at (offer_key 1 2) (account_offers_of 1 native [] (maker ∷ []))
        ≡ only 1 native (newest_of root (maker ∷ []) (offer_key 1 2)))
unfolding distinct is_offer_key found_or find only
offers-newest_example =
    offers-newest root header (maker ∷ []) 1 native [] [] made refl refl (offer_key 1 2) refl refl
      refl

-- A price in millionths, for the double.
abbrev millionths : ℕ → ℕ → ℕ
millionths n d = n * 1000000 / d

no_offers : BestOffer
no_offers ex = none

no_candidate :
    (ex : List LedgerKey) (key : LedgerKey)
    → no_worse millionths none (candidate (alpha_num4 3 1) native ex root key) ≡ true
unfolding no_worse candidate traded is_offer_key
no_candidate ex (account_key a) = refl
no_candidate ex (trust_line_key a x) = refl
no_candidate ex (offer_key s i) = ground arith
no_candidate ex (data_key a n) = refl

no_offers-IsBest :
    (ex : List LedgerKey) → IsBest millionths (alpha_num4 3 1) native ex root (no_offers ex)
unfolding no_offers
no_offers-IsBest ex = record { no_worse_all = λ key. no_candidate ex key; is_one = inl refl }

best_offer_of-IsBest_example :
    IsBest millionths
      (alpha_num4 3 1)
      native
      []
      (newest_of root (maker ∷ []))
      (best_offer_of millionths (alpha_num4 3 1) native no_offers (maker ∷ []) [])
best_offer_of-IsBest_example =
    best_offer_of-IsBest millionths (alpha_num4 3 1) native root no_offers header (maker ∷ []) made
      no_offers-IsBest []

-- The offer is the best one.
asks_is_best :
    best_offer_of millionths (alpha_num4 3 1) native no_offers (maker ∷ []) [] ≡ some asks
unfolding best_offer_of get_best_offer scan better_of take_better traded excluded trades
    is_offer_with is_offer_key same_asset no_offers
asks_is_best = refl

-- ===== src/Ledger/LedgerTxn/Changes.antt =====
-- The changes that a nested transaction reports, LedgerTxn::Impl::getChanges of
-- src/ledger/LedgerTxn.cpp, and what a reader of the metadata makes of them.
use essa_core.Prelude.{
  ◌≡◌, refl, Bool, true, ◌&&◌, arith, Option, none, some, List, [], ◌∷◌, ◌++◌, if◌then◌else◌, ap,
  ◌∙◌, sym,
}
use essa_core.Prelude.Result.{ok, bind_ok, ok_injective}
use essa_core.Ledger.LedgerKey.{
  LedgerKey, Entry, same_key, same_key_refl, same_key_sound, ledger_entry_key,
}
use essa_core.Ledger.EntryMap.{EntryMap, find, find-same, distinct}
use essa_core.Ledger.LedgerTxn.{Newest, found_or, is_some}
use essa_core.Ledger.LedgerTxn.Sealing.{
  LedgerEntryChange, ledger_entry_state, ledger_entry_updated, ledger_entry_created,
  ledger_entry_removed, entry_changes, all_changes,
}
use essa_core.Ledger.LedgerTxn.Sound.{ErasesKnown}

-- The map after one entry is written.
abbrev pub write : LedgerKey → Option Entry → Newest → Newest
write k v f key = if same_key key k then v else f key

-- What is left when the changes are made one after the other; the state before a change is for
-- reference.
unfoldable pub replay : List LedgerEntryChange → Newest → Newest
unfolding ledger_entry_key
replay [] f = f
replay (ledger_entry_state e ∷ cs) f = replay cs f
replay (ledger_entry_updated e ∷ cs) f = replay cs (write (ledger_entry_key e) (some e) f)
replay (ledger_entry_created e ∷ cs) f = replay cs (write (ledger_entry_key e) (some e) f)
replay (ledger_entry_removed k ∷ cs) f = replay cs (write k none f)

-- Every entry stands under its own key.
unfoldable pub keyed : EntryMap → Bool
keyed [] = true
keyed ((k, none) ∷ m) = keyed m
keyed ((k, some e) ∷ m) = same_key k (ledger_entry_key e) && keyed m

tail-ErasesKnown :
    (parent : Newest) (k : LedgerKey) (v : Option Entry) (m : EntryMap)
    → distinct ((k, v) ∷ m) ≡ true
    → ErasesKnown parent ((k, v) ∷ m)
    → ErasesKnown parent m
unfolding distinct find
tail-ErasesKnown parent k v m d s other h = s other (ground (arith, d, h, find-same other k m))

entry_changes_total :
    (k : LedgerKey) (v p : Option Entry)
    → (v ≡ none → is_some p ≡ true)
    → (cs : List LedgerEntryChange) × (entry_changes k v p ≡ ok cs)
unfolding entry_changes is_some
entry_changes_total k (some e) (some p) h = (_, refl)
entry_changes_total k none (some p) h = (_, refl)
entry_changes_total k (some e) none h = (_, refl)
entry_changes_total k none none h = absurd (ground (arith, h refl))

head_known :
    (parent : Newest) (k : LedgerKey) (v : Option Entry) (m : EntryMap)
    → ErasesKnown parent ((k, v) ∷ m)
    → v ≡ none
    → is_some (parent k) ≡ true
unfolding find
head_known parent k v m s h = s k (ground (arith, h, same_key_refl k))

tail-distinct :
    (k : LedgerKey) (v : Option Entry) (m : EntryMap)
    → distinct ((k, v) ∷ m) ≡ true
    → (find k m ≡ none) × (distinct m ≡ true)
unfolding distinct
tail-distinct k v m d = ground (arith, d)

pub all_changes_total :
    (parent : Newest) (m : EntryMap)
    → distinct m ≡ true
    → ErasesKnown parent m
    → (cs : List LedgerEntryChange) × (all_changes parent m ≡ ok cs)
unfolding all_changes
all_changes_total parent [] d s = ([], refl)
all_changes_total parent ((k, v) ∷ m) d s =
    let (first, e) = entry_changes_total k v (parent k) (head_known parent k v m s) in
    let (rest, f) =
      all_changes_total parent m (tail-distinct k v m d).1 (tail-ErasesKnown parent k v m d s) in
    (first ++ rest, rw (e, f) refl)

write_same :
    (k key : LedgerKey) (v : Option Entry) (f : Newest) (m : EntryMap)
    → find k m ≡ none
    → found_or (find key m) (write k v f key)
      ≡ found_or (if same_key key k then some v else find key m) (f key)
unfolding found_or
write_same k key v f m h = ground (arith, h, find-same key k m)

at_key :
    (k : LedgerKey) (e : Entry) (rest : List LedgerEntryChange) (f : Newest)
    → keyed ((k, some e) ∷ []) ≡ true
    → replay rest (write (ledger_entry_key e) (some e) f) ≡ replay rest (write k (some e) f)
unfolding keyed
at_key k e rest f d =
    ap (λ x. replay rest (write x (some e) f))
      (sym (same_key_sound k (ledger_entry_key e) (ground (arith, d))))

replay_head :
    (k : LedgerKey) (v p : Option Entry) (first rest : List LedgerEntryChange) (f : Newest)
    → entry_changes k v p ≡ ok first
    → keyed ((k, v) ∷ []) ≡ true
    → replay (first ++ rest) f ≡ replay rest (write k v f)
unfolding entry_changes replay keyed
replay_head k (some e) (some p) first rest f h d = rw (← ok_injective h) (at_key k e rest f d)
replay_head k none (some p) first rest f h d = rw (← ok_injective h) refl
replay_head k (some e) none first rest f h d = rw (← ok_injective h) (at_key k e rest f d)
replay_head k none none first rest f h d = absurd (ground (arith, h))

keyed_cons :
    (k : LedgerKey) (v : Option Entry) (m : EntryMap)
    → keyed ((k, v) ∷ m) ≡ true
    → (keyed ((k, v) ∷ []) ≡ true) × (keyed m ≡ true)
unfolding keyed
keyed_cons k none m d = (refl, d)
keyed_cons k (some e) m d = (ground (arith, d), ground (arith, d))

pub replay-all_changes :
    (parent : Newest) (m : EntryMap) (cs : List LedgerEntryChange) (f : Newest) (key : LedgerKey)
    → distinct m ≡ true
    → keyed m ≡ true
    → all_changes parent m ≡ ok cs
    → replay cs f key ≡ found_or (find key m) (f key)
unfolding all_changes find replay found_or
replay-all_changes parent [] cs f key d w h = rw (← ok_injective h) refl
replay-all_changes parent ((k, v) ∷ m) cs f key d w h =
    let (first, e, h') = bind_ok (entry_changes k v (parent k)) _ cs h in
    let (rest, e', h'') = bind_ok (all_changes parent m) _ cs h' in
    rw (← ok_injective h'') (
      ap (λ g. g key) (replay_head k v (parent k) first rest f e (keyed_cons k v m w).0)
      ∙ replay-all_changes parent m rest (write k v f) key (tail-distinct k v m d).1
          (keyed_cons k v m w).1 e'
      ∙ write_same k key v f m (tail-distinct k v m d).0)

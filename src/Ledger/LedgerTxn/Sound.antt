-- ===== src/Ledger/LedgerTxn/Sound.antt =====
-- Well-formed nested transactions over what their parent answers: src/ledger/LedgerTxn.cpp.
use essa_core.Prelude.{◌≡◌, refl, Bool, true, false, arith, Option, none, some, ap, ◌∙◌, sym}
use essa_core.Prelude.Result.{ok}
use essa_core.Ledger.Entry.{LedgerHeader}
use essa_core.Ledger.LedgerKey.{LedgerKey, Entry, same_key, same_key_sound, ledger_entry_key}
use essa_core.Ledger.EntryMap.{
  EntryMap, find, set, find-set, find-remove, distinct, distinct-set, distinct-remove,
}
use essa_core.Ledger.LedgerTxn.{
  Newest, LedgerTxn, LedgerTxnConsistency, exact, extra_deletes, get_newest_version, is_some,
  create, create_or_update_without_loading, erase, erase_entry, erase_without_loading, load,
  activate, set_current, new_ledger_txn,
}

abbrev pub is_exact : LedgerTxnConsistency → Bool
is_exact exact = true
is_exact extra_deletes = false

-- Every key that these entries erase is one that the parent has.
abbrev pub ErasesKnown : Newest → EntryMap → Type 0
ErasesKnown parent m = (key : LedgerKey) → find key m ≡ some none → is_some (parent key) ≡ true

-- No key twice, and nothing erased that the parent lacks as long as the consistency is exact.
pub record Sound (parent : Newest) (l : LedgerTxn) : Type 0 where
  pub unique : distinct l.entries ≡ true
  pub erases_known : is_exact l.consistency ≡ true → ErasesKnown parent l.entries

pub set-ErasesKnown :
    (parent : Newest) (key : LedgerKey) (e : Entry) (m : EntryMap)
    → ErasesKnown parent m
    → ErasesKnown parent (set key (some e) m)
set-ErasesKnown parent key e m s k h = ground (arith, h, s k, find-set key (some e) k m)

same_parent : (parent : Newest) (a b : LedgerKey) → same_key a b ≡ true → parent a ≡ parent b
same_parent parent a b h = ap parent (same_key_sound a b h)

pub erase_entry-ErasesKnown :
    (parent : Newest) (key : LedgerKey) (m : EntryMap)
    → distinct m ≡ true
    → ErasesKnown parent m
    → ErasesKnown parent (erase_entry parent key m)
unfolding erase_entry is_some
erase_entry-ErasesKnown parent key m d s k h =
    ground (arith, h, s k, find-set key none k m, find-remove key k m d, same_parent parent k key)

pub distinct-erase_entry :
    (parent : Newest) (key : LedgerKey) (m : EntryMap)
    → distinct m ≡ true
    → distinct (erase_entry parent key m) ≡ true
unfolding erase_entry
distinct-erase_entry parent key m d =
    ground (arith, distinct-set key none m d, distinct-remove key m d)

-- Entries replaced, at the same consistency.
replaced :
    (parent : Newest) (l l' : LedgerTxn)
    → l'.consistency ≡ l.consistency
    → distinct l'.entries ≡ true
    → (ErasesKnown parent l.entries → ErasesKnown parent l'.entries)
    → Sound parent l
    → Sound parent l'
replaced parent l l' c d f s = record {
  unique = d;
  erases_known = λ e. f (s.erases_known (ap is_exact (sym c) ∙ e));
}

pub new_ledger_txn-Sound :
    (parent : Newest) (header : LedgerHeader) (u : Bool) → Sound parent (new_ledger_txn header u)
unfolding distinct new_ledger_txn find
new_ledger_txn-Sound parent header u = record {
  unique = refl;
  erases_known = λ e k h. absurd (ground (arith, h));
}

-- One entry written.
pub written-Sound :
    (parent : Newest) (l l' : LedgerTxn) (key : LedgerKey) (e : Entry)
    → l'.consistency ≡ l.consistency
    → l'.entries ≡ set key (some e) l.entries
    → Sound parent l
    → Sound parent l'
written-Sound parent l l' key e c m s =
    replaced parent l l' c (rw m (distinct-set key (some e) l.entries s.unique))
      (λ f. rw m (set-ErasesKnown parent key e l.entries f)) s

-- No entry changed.
pub kept-Sound :
    (parent : Newest) (l l' : LedgerTxn)
    → l'.consistency ≡ l.consistency
    → l'.entries ≡ l.entries
    → Sound parent l
    → Sound parent l'
kept-Sound parent l l' c m s = replaced parent l l' c (rw m s.unique) (λ f. rw m f) s

pub create-Sound :
    (parent : Newest) (l l' : LedgerTxn) (e : Entry)
    → create parent l e ≡ ok l'
    → Sound parent l
    → Sound parent l'
unfolding create
create-Sound parent l l' e h =
    written-Sound parent l l' (ledger_entry_key e) e (ground (arith, h)) (ground (arith, h))

pub create_or_update-Sound :
    (parent : Newest) (l l' : LedgerTxn) (e : Entry)
    → create_or_update_without_loading l e ≡ ok l'
    → Sound parent l
    → Sound parent l'
unfolding create_or_update_without_loading
create_or_update-Sound parent l l' e h =
    written-Sound parent l l' (ledger_entry_key e) e (ground (arith, h)) (ground (arith, h))

pub set_current-Sound :
    (parent : Newest) (l l' : LedgerTxn) (e : Entry)
    → set_current l e ≡ ok l'
    → Sound parent l
    → Sound parent l'
unfolding set_current
set_current-Sound parent l l' e h =
    written-Sound parent l l' (ledger_entry_key e) e (ground (arith, h)) (ground (arith, h))

pub erase-Sound :
    (parent : Newest) (l l' : LedgerTxn) (key : LedgerKey)
    → erase parent l key ≡ ok l'
    → Sound parent l
    → Sound parent l'
unfolding erase
erase-Sound parent l l' key h s =
    let m : l'.entries ≡ erase_entry parent key l.entries = ground (arith, h) in
    replaced parent l l' (ground (arith, h))
      (rw m (distinct-erase_entry parent key l.entries s.unique))
      (λ f. rw m (erase_entry-ErasesKnown parent key l.entries s.unique f)) s

-- An erasure that is not checked gives the exact consistency up.
pub erase_without_loading-Sound :
    (parent : Newest) (l l' : LedgerTxn) (key : LedgerKey)
    → erase_without_loading l key ≡ ok l'
    → Sound parent l
    → Sound parent l'
unfolding erase_without_loading
erase_without_loading-Sound parent l l' key h s =
    let m : l'.entries ≡ set key none l.entries = ground (arith, h) in
    let c : is_exact l'.consistency ≡ false = ground (arith, h) in
    record {
      unique = rw m (distinct-set key none l.entries s.unique);
      erases_known = λ e. absurd (ground (arith, e, c));
    }

activate-Sound :
    (parent : Newest) (l : LedgerTxn) (key : LedgerKey) (v : Option Entry)
    → Sound parent l
    → Sound parent (activate l key v)
unfolding activate
activate-Sound parent l key none s = s
activate-Sound parent l key (some e) s = written-Sound parent l _ key e refl refl s

pub load-Sound :
    (parent : Newest) (l l' : LedgerTxn) (key : LedgerKey) (v : Option Entry)
    → load parent l key ≡ ok (v, l')
    → Sound parent l
    → Sound parent l'
unfolding load
load-Sound parent l l' key v h s =
    let same : activate l key (get_newest_version parent l key) ≡ l' = ground (arith, h) in
    rw (← same) (activate-Sound parent l key (get_newest_version parent l key) s)

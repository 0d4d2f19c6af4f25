-- ===== src/Ledger/LedgerTxn/Commit.antt =====
-- The commit of a nested transaction to its parent: LedgerTxn::Impl::commit and commitChild of
-- src/ledger/LedgerTxn.cpp.
use essa_core.Prelude.{
  ◌≡◌, refl, true, false, arith, Option, none, some, [], ◌∷◌, if◌then◌else◌, Bool-cases, inl, inr,
  ap, ◌∙◌,
}
use essa_core.Prelude.Result.{ok}
use essa_core.Ledger.LedgerKey.{LedgerKey, Entry}
use essa_core.Ledger.EntryMap.{EntryMap, find, set, find-same, distinct, distinct-set}
use essa_core.Ledger.LedgerTxn.{
  Newest, LedgerTxn, LedgerTxnConsistency, exact, extra_deletes, get_newest_version, found_or,
  erase_entry,
}
use essa_core.Ledger.LedgerTxn.Sealing.{
  stamp, stamp_all, merge_entries, commit, commit_child, join_consistency_levels, invoke_then_seal,
}
use essa_core.Ledger.LedgerTxn.Flat.{found_or-set, found_or-erase_entry}
use essa_core.Ledger.LedgerTxn.Sound.{
  is_exact, ErasesKnown, Sound, set-ErasesKnown, erase_entry-ErasesKnown, distinct-erase_entry,
}

-- The version that is left of one written here.
unfoldable pub final : LedgerTxn → Option Entry → Option Entry
unfolding stamp
final l none = none
final l (some e) = some (if l.is_sealed then e else stamp l e)

-- The entries that a commit hands to the parent.
unfoldable pub committed_entries : LedgerTxn → EntryMap
unfolding stamp_all
committed_entries l = if l.is_sealed then l.entries else stamp_all l l.entries

abbrev pub map_found : (Option Entry → Option Entry) → Option (Option Entry) → Option (Option Entry)
map_found f none = none
map_found f (some v) = some (f v)

unfoldable pub stamped : LedgerTxn → Option Entry → Option Entry
unfolding stamp
stamped l none = none
stamped l (some e) = some (stamp l e)

pub find-stamp_all :
    (l : LedgerTxn) (key : LedgerKey) (m : EntryMap)
    → find key (stamp_all l m) ≡ map_found (stamped l) (find key m)
unfolding find stamp_all stamped
find-stamp_all l key [] = refl
find-stamp_all l key ((k, none) ∷ m) = ground (arith, find-stamp_all l key m)
find-stamp_all l key ((k, some e) ∷ m) = ground (arith, find-stamp_all l key m)

pub distinct-stamp_all :
    (l : LedgerTxn) (m : EntryMap) → distinct m ≡ true → distinct (stamp_all l m) ≡ true
unfolding distinct stamp_all
distinct-stamp_all l [] d = refl
distinct-stamp_all l ((k, none) ∷ m) d =
    ground (arith, d, find-stamp_all l k m, distinct-stamp_all l m)
distinct-stamp_all l ((k, some e) ∷ m) d =
    ground (arith, d, find-stamp_all l k m, distinct-stamp_all l m)

pub merge_entries-newest :
    (gp : Newest) (key : LedgerKey) (es m : EntryMap)
    → distinct es ≡ true
    → distinct m ≡ true
    → found_or (find key (merge_entries gp es m)) (gp key)
      ≡ found_or (find key es) (found_or (find key m) (gp key))
unfolding distinct merge_entries find found_or
merge_entries-newest gp key [] m ds dm = refl
merge_entries-newest gp key ((k, some e) ∷ es) m ds dm = ground (
  arith,
  ds,
  found_or-set gp k (some e) m key,
  merge_entries-newest gp key es (set k (some e) m),
  distinct-set k (some e) m dm,
  find-same key k es,
)
merge_entries-newest gp key ((k, none) ∷ es) m ds dm = ground (
  arith,
  ds,
  found_or-erase_entry gp k m dm key,
  merge_entries-newest gp key es (erase_entry gp k m),
  distinct-erase_entry gp k m dm,
  find-same key k es,
)

pub distinct-merge_entries :
    (gp : Newest) (es m : EntryMap) → distinct m ≡ true → distinct (merge_entries gp es m) ≡ true
unfolding merge_entries
distinct-merge_entries gp [] m d = d
distinct-merge_entries gp ((k, some e) ∷ es) m d =
    distinct-merge_entries gp es (set k (some e) m) (distinct-set k (some e) m d)
distinct-merge_entries gp ((k, none) ∷ es) m d =
    distinct-merge_entries gp es (erase_entry gp k m) (distinct-erase_entry gp k m d)

merge_entries-ErasesKnown :
    (gp : Newest) (es m : EntryMap)
    → distinct m ≡ true
    → ErasesKnown gp m
    → ErasesKnown gp (merge_entries gp es m)
unfolding merge_entries
merge_entries-ErasesKnown gp [] m d s = s
merge_entries-ErasesKnown gp ((k, some e) ∷ es) m d s =
    merge_entries-ErasesKnown gp es (set k (some e) m) (distinct-set k (some e) m d)
      (set-ErasesKnown gp k e m s)
merge_entries-ErasesKnown gp ((k, none) ∷ es) m d s =
    merge_entries-ErasesKnown gp es (erase_entry gp k m) (distinct-erase_entry gp k m d)
      (erase_entry-ErasesKnown gp k m d s)

pub commit_is :
    (gp : Newest) (p c p' : LedgerTxn)
    → commit gp p c ≡ ok p'
    → commit_child gp p c.header (committed_entries c) c.consistency ≡ p'
unfolding committed_entries commit invoke_then_seal
commit_is gp p c p' h = ground (arith, h)

final_sealed :
    (c : LedgerTxn) (f : Option (Option Entry)) → c.is_sealed ≡ true → f ≡ map_found (final c) f
unfolding final
final_sealed c none e = refl
final_sealed c (some none) e = refl
final_sealed c (some (some v)) e = ground (arith, e)

final_unsealed :
    (c : LedgerTxn) (f : Option (Option Entry))
    → c.is_sealed ≡ false
    → map_found (stamped c) f ≡ map_found (final c) f
unfolding final stamped
final_unsealed c none e = refl
final_unsealed c (some none) e = refl
final_unsealed c (some (some v)) e = ground (arith, e)

pub committed_sealed : (c : LedgerTxn) → c.is_sealed ≡ true → committed_entries c ≡ c.entries
unfolding committed_entries
committed_sealed c e = ap (λ b. if b then c.entries else stamp_all c c.entries) e

pub committed_stamped :
    (c : LedgerTxn) → c.is_sealed ≡ false → committed_entries c ≡ stamp_all c c.entries
unfolding committed_entries
committed_stamped c e = ap (λ b. if b then c.entries else stamp_all c c.entries) e

pub find-committed_entries :
    (c : LedgerTxn) (key : LedgerKey)
    → find key (committed_entries c) ≡ map_found (final c) (find key c.entries)
find-committed_entries c key = elim (Bool-cases c.is_sealed) [
  | inl e ↦ ap (find key) (committed_sealed c e) ∙ final_sealed c (find key c.entries) e
  | inr e ↦
      ap (find key) (committed_stamped c e)
      ∙ find-stamp_all c key c.entries
      ∙ final_unsealed c (find key c.entries) e
]

pub distinct-committed_entries :
    (c : LedgerTxn) → distinct c.entries ≡ true → distinct (committed_entries c) ≡ true
distinct-committed_entries c d = elim (Bool-cases c.is_sealed) [
  | inl e ↦ ap distinct (committed_sealed c e) ∙ d
  | inr e ↦ ap distinct (committed_stamped c e) ∙ distinct-stamp_all c c.entries d
]

join_exact :
    (a b : LedgerTxnConsistency) → is_exact (join_consistency_levels a b) ≡ true → is_exact a ≡ true
unfolding join_consistency_levels
join_exact exact b h = refl
join_exact extra_deletes b h = h

pub commit-Sound :
    (gp : Newest) (p c p' : LedgerTxn) → commit gp p c ≡ ok p' → Sound gp p → Sound gp p'
unfolding commit_child
commit-Sound gp p c p' h s = rw (← commit_is gp p c p' h) (record {
  unique = distinct-merge_entries gp (committed_entries c) p.entries s.unique;
  erases_known = λ e.
      merge_entries-ErasesKnown gp (committed_entries c) p.entries s.unique
        (s.erases_known (join_exact p.consistency c.consistency e));
})

-- After a commit the parent answers what the child has written last, stamped if the commit is what
-- seals the child, and its own version of every other key; it has the child's header and no child.
pub commit-newest :
    (gp : Newest) (p c p' : LedgerTxn)
    → Sound gp p
    → Sound (get_newest_version gp p) c
    → commit gp p c ≡ ok p'
    → ((key : LedgerKey)
        → get_newest_version gp p' key
          ≡ found_or (map_found (final c) (find key c.entries)) (get_newest_version gp p key))
      × (p'.header ≡ c.header)
      × (p'.has_child ≡ false)
unfolding commit_child get_newest_version
commit-newest gp p c p' sp sc h = rw (← commit_is gp p c p' h) (
  λ key.
      merge_entries-newest gp key (committed_entries c) p.entries
        (distinct-committed_entries c sc.unique) sp.unique
      ∙ ap (λ f. found_or f (found_or (find key p.entries) (gp key)))
          (find-committed_entries c key),
  refl,
  refl,
)

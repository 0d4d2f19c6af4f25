-- ===== src/Ledger/LedgerTxn/Nested/Reports.antt =====
-- What the innermost of the nested transactions can always do: src/ledger/LedgerTxn.cpp.
use essa_core.Prelude.{
  ◌≡◌, refl, true, false, arith, Option, none, some, List, [], ◌∷◌, ap, ◌∙◌, sym, Bool-cases, inl,
  inr,
}
use essa_core.Prelude.Result.{Result, ok}
use essa_core.Ledger.Entry.{LedgerHeader}
use essa_core.Ledger.LedgerKey.{LedgerKey, Entry, ledger_entry_key}
use essa_core.Ledger.EntryMap.{EntryMap, find}
use essa_core.Ledger.LedgerTxn.{
  Newest, LedgerTxn, get_newest_version, found_or, throw_if_not_exact_consistency,
}
use essa_core.Ledger.LedgerTxn.Sealing.{
  LedgerEntryChange, stamp, stamp_all, sealed_with, invoke_then_seal, invoke_sealed,
  update_invoke_seal, maybe_update_last_modified, commit, commit_child, get_changes, all_changes,
}
use essa_core.Ledger.LedgerTxn.Sound.{ErasesKnown, is_exact}
use essa_core.Ledger.LedgerTxn.Commit.{
  committed_entries, committed_sealed, committed_stamped, distinct-committed_entries,
  find-committed_entries, map_found, final, commit-newest,
}
use essa_core.Ledger.LedgerTxn.Changes.{replay, keyed, all_changes_total, replay-all_changes}
use essa_core.Ledger.LedgerTxn.Nested.{newest_of, Reach}
use essa_core.Ledger.LedgerTxn.Nested.Invariant.{WellNested, Parents, Reach-WellNested}

module _ {ℓ} {A : Type ℓ} (l : LedgerTxn) (f : EntryMap → Result A) (a : A) where
  already : l.is_sealed ≡ true → f l.entries ≡ ok a → invoke_then_seal l f ≡ ok (a, l)
  unfolding invoke_then_seal invoke_sealed
  already s e = ground (arith, s, e)

  newly :
      l.is_sealed ≡ false
      → l.has_child ≡ false
      → f (stamp_all l l.entries) ≡ ok a
      → invoke_then_seal l f ≡ ok (a, sealed_with (stamp_all l l.entries) l)
  unfolding invoke_then_seal update_invoke_seal maybe_update_last_modified
  newly s c e = ground (arith, s, c, e)

  -- A transaction without a child can be sealed.
  seals :
      l.has_child ≡ false
      → f (committed_entries l) ≡ ok a
      → (l' : LedgerTxn) × (invoke_then_seal l f ≡ ok (a, l'))
        × (l'.entries ≡ committed_entries l)
        × (l'.is_sealed ≡ true)
  unfolding sealed_with
  seals c e = elim (Bool-cases l.is_sealed) [
    | inl s ↦ (l, already s (ap f (sym (committed_sealed l s)) ∙ e), sym (committed_sealed l s), s)
    | inr s ↦ (
      sealed_with (stamp_all l l.entries) l,
      newly s c (ap f (sym (committed_stamped l s)) ∙ e),
      sym (committed_stamped l s),
      refl,
    )
  ]

exact_passes :
    (l : LedgerTxn) → is_exact l.consistency ≡ true → throw_if_not_exact_consistency l ≡ ok tt
unfolding throw_if_not_exact_consistency
exact_passes l h = ground (arith, h)

final_erased :
    (l : LedgerTxn) (f : Option (Option Entry)) → map_found (final l) f ≡ some none → f ≡ some none
unfolding final
final_erased l none h = absurd (ground (arith, h))
final_erased l (some none) h = refl
final_erased l (some (some e)) h = absurd (ground (arith, h))

committed_entries-ErasesKnown :
    (parent : Newest) (l : LedgerTxn)
    → ErasesKnown parent l.entries
    → ErasesKnown parent (committed_entries l)
committed_entries-ErasesKnown parent l s k h =
    s k (final_erased l (find k l.entries) (sym (find-committed_entries l k) ∙ h))

keyed-stamp_all : (l : LedgerTxn) (m : EntryMap) → keyed m ≡ true → keyed (stamp_all l m) ≡ true
unfolding keyed stamp_all stamp ledger_entry_key
keyed-stamp_all l [] w = refl
keyed-stamp_all l ((k, none) ∷ m) w = keyed-stamp_all l m w
keyed-stamp_all l ((k, some e) ∷ m) w = ground (arith, w, keyed-stamp_all l m)

keyed-committed_entries :
    (l : LedgerTxn) → keyed l.entries ≡ true → keyed (committed_entries l) ≡ true
keyed-committed_entries l w = elim (Bool-cases l.is_sealed) [
  | inl s ↦ ap keyed (committed_sealed l s) ∙ w
  | inr s ↦ ap keyed (committed_stamped l s) ∙ keyed-stamp_all l l.entries w
]

-- In nested transactions that were reached by any steps, the innermost one reports its changes, as long
-- as its consistency is exact: the assertion on an entry that was created and erased here never
-- fails. If its entries stand under their own keys, the changes made in order turn what the parent
-- answers into what the transaction, sealed by the call, answers.
pub get_changes-replay :
    (root : Newest) (header : LedgerHeader) (l : LedgerTxn) (ls : List LedgerTxn)
    → Reach root header (l ∷ ls)
    → is_exact l.consistency ≡ true
    → keyed l.entries ≡ true
    → (cs : List LedgerEntryChange) × (l' : LedgerTxn) × (get_changes (newest_of root ls) l
        ≡ ok (cs, l'))
      × (l'.is_sealed ≡ true)
      × ((key : LedgerKey)
          → replay cs (newest_of root ls) key ≡ get_newest_version (newest_of root ls) l' key)
unfolding get_changes get_newest_version WellNested Parents
get_changes-replay root header l ls r x w =
    let parent = newest_of root ls in
    let (s, c, _) = Reach-WellNested root header (l ∷ ls) r in
    let d = distinct-committed_entries l s.unique in
    let (cs, e) =
      all_changes_total parent (committed_entries l) d
        (committed_entries-ErasesKnown parent l (s.erases_known x)) in
    let (l', f, m, g) = seals l (all_changes parent) cs c e in
    (
      cs,
      l',
      rw (exact_passes l x) f,
      g,
      λ key.
          replay-all_changes parent (committed_entries l) cs parent key d
            (keyed-committed_entries l w) e
          ∙ ap (λ es. found_or (find key es) (parent key)) (sym m),
    )

-- In nested transactions that were reached by any steps, the innermost one can be committed to its
-- parent, which then answers what it answered with the entries that the child wrote over it.
pub commit-newest_of :
    (root : Newest) (header : LedgerHeader) (c p : LedgerTxn) (ls : List LedgerTxn)
    → Reach root header (c ∷ p ∷ ls)
    → (p' : LedgerTxn) × (commit (newest_of root ls) p c ≡ ok p')
      × (p'.header ≡ c.header)
      × ((key : LedgerKey)
          → newest_of root (p' ∷ ls) key
            ≡ found_or (map_found (final c) (find key c.entries)) (newest_of root (p ∷ ls) key))
unfolding commit newest_of WellNested Parents
commit-newest_of root header c p ls r =
    let gp = newest_of root ls in
    let (s, h, below) = Reach-WellNested root header (c ∷ p ∷ ls) r in
    let (sp, _, _, _) = below in
    let (_, e, _, _) = seals c (λ es. ok (commit_child gp p c.header es c.consistency)) _ h refl in
    let p' = commit_child gp p c.header (committed_entries c) c.consistency in
    let (n, hd, _) = commit-newest gp p c p' sp s (rw e refl) in (p', rw e refl, hd, n)

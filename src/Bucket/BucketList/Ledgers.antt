-- ===== src/Bucket/BucketList/Ledgers.antt =====
-- addBatch of bucket/BucketList.cpp over a history of ledgers.
use essa_core.Prelude.{
  ℕ, zero, suc, ◌+◌, ◌-◌, ◌%◌, ◌<◌, ◌≡◌, refl, ◌∙◌, Bool, true, false, none, List, [], ◌∷◌, ◌++◌,
  length, ltb, ◌==◌, if◌then◌else◌, arith, inl, inr, Bool-cases, Option-cases,
}
use essa_core.Prelude.Result.{Result, ok, returns, ◌>>=◌}
use essa_core.Bucket.BucketList.{
  num_levels, level_should_spill, keep_dead_entries, Buckets, BucketLevel, commit, prepare,
  snap_level, spill_levels, add_batch, new_level, new_bucket_list,
}
use essa_core.Bucket.BucketList.Spill.{level_should_spill_exact, first_half}

module _ (k : Buckets) where
  open k use {Bucket, Batch, empty, fresh, merge}

  commit-settled : (l : BucketLevel k) → (commit k l).next ≡ none
  unfolding commit
  commit-settled l = elim (Option-cases l.next) [ inl e ↦ rw e refl | inr (b, e) ↦ rw e refl ]

  prepare-returns :
      (level ledger : ℕ) (l : BucketLevel k) (snap : Bucket) (shadows : List Bucket)
      → l.next ≡ none
      → (l' : BucketLevel k) × (prepare k level ledger l snap shadows ≡ ok l')
  unfolding prepare
  prepare-returns level ledger l snap shadows e =
      returns (prepare k level ledger l snap shadows) (λ err p. ground (arith, e, p))

  -- The level after the pass: with its curr moved to snap, if it spills and there is one above it.
  abbrev moved_on : ℕ → ℕ → List (BucketLevel k) → BucketLevel k → BucketLevel k
  moved_on ledger level [] l = l
  moved_on ledger level (u ∷ us) l =
      if level_should_spill ledger level then (snap_level k l).0 else l

  spill_levels-returns :
      (ledger level : ℕ) (shadows : List Bucket) (l : BucketLevel k) (us : List (BucketLevel k))
      → (us' : List (BucketLevel k)) × (spill_levels k ledger level shadows l us
          ≡ ok (moved_on ledger level us l, us'))
        × (length us' ≡ length us)
  unfolding spill_levels snap_level
  spill_levels-returns ledger level shadows l [] = ([], refl, refl)
  spill_levels-returns ledger level shadows l (u ∷ us) =
      let (us', e, n) =
        spill_levels-returns ledger (suc level) (shadows ++ l.curr ∷ l.snap ∷ []) u us in
      let u' = moved_on ledger (suc level) us u in
      elim (Bool-cases (level_should_spill ledger level)) [
        | inr still ↦ (u' ∷ us', rw (e, still) refl, omega (arith, n))
        | inl spills ↦
            let (w, p) =
              prepare-returns (suc level) ledger (commit k u') l.curr shadows (commit-settled u') in
            (w ∷ us', rw (e, spills, p) refl, omega (arith, n))
      ]

  -- All levels are there, and nothing is pending in the first.
  unfoldable pub IsSettled : List (BucketLevel k) → Type 0
  IsSettled [] = ⊥
  IsSettled (l ∷ us) = (l.next ≡ none) × (length us ≡ num_levels - 1)

  -- The first level: the batch is merged into its curr, or into an empty one after every second
  -- ledger, when its curr has become its snap.
  unfoldable pub TakesIn : ℕ → Batch → List (BucketLevel k) → List (BucketLevel k) → Type 0
  TakesIn ledger batch [] ls' = ⊥
  TakesIn ledger batch (l ∷ us) [] = ⊥
  TakesIn ledger batch (l ∷ us) (l' ∷ us') =
      (l'.curr ≡ merge (if ledger % 2 == 0 then empty else l.curr) (fresh batch) [] true)
      × (l'.snap ≡ (if ledger % 2 == 0 then l.curr else l.snap))

  -- The first level after a batch.
  with_batch : Bool → Batch → BucketLevel k → BucketLevel k
  with_batch even batch l = record {
    curr = merge (if even then empty else l.curr) (fresh batch) [] true;
    snap = if even then l.curr else l.snap;
    next = none;
  }

  first_spill : (ledger : ℕ) → level_should_spill ledger 0 ≡ (ledger % 2 == 0)
  first_spill ledger = let e = level_should_spill_exact ledger 0 (omega arith) in rw first_half at e

  pub add_batch-IsSettled :
      (ledger : ℕ) (batch : Batch) (ls : List (BucketLevel k))
      → 0 < ledger
      → IsSettled ls
      → (ls' : List (BucketLevel k)) × (add_batch k ledger batch ls ≡ ok ls')
        × IsSettled ls'
        × TakesIn ledger batch ls ls'
  unfolding IsSettled TakesIn add_batch prepare commit snap_level with_batch keep_dead_entries
  add_batch-IsSettled ledger batch [] h i = absurd i
  add_batch-IsSettled ledger batch (l ∷ []) h (quiet, n) = absurd (omega (arith, n))
  add_batch-IsSettled ledger batch (l ∷ u ∷ us) h (quiet, n) =
      let (us', e, n') = spill_levels-returns ledger 0 [] l (u ∷ us) in
      let started : ltb 0 ledger ≡ true = ground (arith, h) in
      elim (Bool-cases (ledger % 2 == 0)) [
        | inl even ↦
            let spills = first_spill ledger ∙ even in
            (
              with_batch true batch l ∷ us',
              rw (started, e, spills, quiet) refl,
              (refl, n' ∙ n),
              (rw even refl, rw even refl),
            )
        | inr odd ↦
            let stays = first_spill ledger ∙ odd in
            (
              with_batch false batch l ∷ us',
              rw (started, e, stays, quiet) refl,
              (refl, n' ∙ n),
              (rw odd refl, rw odd refl),
            )
      ]

  -- The ledgers from 1 on, with a batch each.
  unfoldable pub after_ledgers : (ℕ → Batch) → ℕ → Result (List (BucketLevel k))
  after_ledgers batch zero = ok (new_bucket_list k)
  after_ledgers batch (suc n) = do
    ls ← after_ledgers batch n
    add_batch k (n + 1) (batch (n + 1)) ls

  new-IsSettled : IsSettled (new_bucket_list k)
  unfolding IsSettled new_bucket_list new_level
  new-IsSettled = (refl, refl)

  -- For every kind of bucket: from an empty list on, addBatch can be called for the ledgers 1, 2 and
  -- so on with no failed assertion, and all levels stay there, with nothing pending in the first.
  pub after_ledgers-IsSettled :
      (batch : ℕ → Batch) (n : ℕ)
      → (ls : List (BucketLevel k)) × (after_ledgers batch n ≡ ok ls) × IsSettled ls
  unfolding after_ledgers
  after_ledgers-IsSettled batch zero = (new_bucket_list k, refl, new-IsSettled)
  after_ledgers-IsSettled batch (suc n) =
      let (ls, e, i) = after_ledgers-IsSettled batch n in
      let (ls', e', i', _) = add_batch-IsSettled (n + 1) (batch (n + 1)) ls (omega arith) i in
      (ls', rw e e', i')

-- ===== src/Bucket/BucketList.antt =====
-- bucket/BucketList.cpp. A bucket and the merge of two of them are Bucket.cpp's: they are an
-- interface here. A merge runs in the background; its result is settled when it starts, so what is
-- pending in a level is the merged bucket. `kNumLevels` is 11.
pub mod Spill
pub mod Ledgers
use essa_core.Prelude.{
  ℕ, zero, suc, ◌+◌, ◌-◌, ◌*◌, ◌/◌, ◌%◌, ◌^◌, ◌≡◌, Bool, true, false, not, ◌&&◌, ◌||◌, Option, none,
  some, List, [], ◌∷◌, ◌++◌, ltb, leb, ◌==◌, if◌then◌else◌,
}
use essa_core.Prelude.Result.{Result, ok, ◌>>=◌, ◌>>◌, assert}

abbrev pub num_levels : ℕ
num_levels = 11

unfoldable pub level_size : ℕ → ℕ
level_size level = 2 ^ (2 * (level + 1))

unfoldable pub level_half : ℕ → ℕ
level_half level = level_size level / 2

-- `v & ~(m - 1)`, for the powers of two that are passed.
unfoldable pub mask : ℕ → ℕ → ℕ
mask v m = v / m * m

-- The last level never spills.
unfoldable pub level_should_spill : ℕ → ℕ → Bool
level_should_spill ledger level =
    if level == num_levels - 1
    then false
    else (ledger == mask ledger (level_half level) || ledger == mask ledger (level_size level))

unfoldable pub keep_dead_entries : ℕ → Bool
keep_dead_entries level = ltb level (num_levels - 1)

-- What BucketList uses of buckets. A merge takes curr, snap, the shadows and whether dead entries stay.
pub record Buckets : Type 1 where
  pub Bucket : Type 0
  pub Batch : Type 0
  pub empty : Bucket
  pub fresh : Batch → Bucket
  pub merge : Bucket → Bucket → List Bucket → Bool → Bucket

module _ (k : Buckets) where
  open k use {Bucket, Batch, empty, fresh, merge}

  pub record BucketLevel : Type 0 where
    pub curr : Bucket
    pub snap : Bucket
    pub next : Option Bucket

  unfoldable pub new_level : BucketLevel
  new_level = record { curr = empty; snap = empty; next = none }

  -- A pending merge becomes `curr`, and nothing is pending any more.
  unfoldable pub commit : BucketLevel → BucketLevel
  commit l = elim l.next [ none ↦ l | some b ↦ record l { curr = b; next = none } ]

  abbrev pub is_merging : BucketLevel → Bool
  is_merging l = elim l.next [ none ↦ false | some b ↦ true ]

  -- A level whose own `curr` will have been moved away by the next change merges into an empty one.
  unfoldable pub prepare : ℕ → ℕ → BucketLevel → Bucket → List Bucket → Result BucketLevel
  prepare level ledger l snap shadows = do
    assert (not (is_merging l))
    let moves_away =
        not (level == 0) && level_should_spill ((ledger + level_half (level - 1)) % 2 ^ 32) level
    let curr = if moves_away then empty else l.curr
    ok (record l { next = some (merge curr snap shadows (keep_dead_entries level)) })

  -- The level after it, and what is to be merged into the next one.
  unfoldable pub snap_level : BucketLevel → BucketLevel × Bucket
  snap_level l = (record l { curr = empty; snap = l.curr }, l.curr)

  -- The loop of addBatch, from the last level down to `level` + 1. `shadows` holds the buckets of the
  -- levels below `level`, newest last.
  unfoldable pub spill_levels :
      ℕ → ℕ → List Bucket → BucketLevel → List BucketLevel → Result (BucketLevel × List BucketLevel)
  spill_levels ledger level shadows l [] = ok (l, [])
  spill_levels ledger level shadows l (u ∷ us) = do
    (u', us') ← spill_levels ledger (suc level) (shadows ++ l.curr ∷ l.snap ∷ []) u us
    if level_should_spill ledger level
        then (do
          let (l', snap) = snap_level l
          next ← prepare (suc level) ledger (commit u') snap shadows
          ok (l', next ∷ us'))
        else ok (l, u' ∷ us')

  unfoldable pub add_batch : ℕ → Batch → List BucketLevel → Result (List BucketLevel)
  add_batch ledger batch [] = ok []
  add_batch ledger batch (l ∷ ls) = do
    assert (ltb 0 ledger)
    (l', ls') ← spill_levels ledger 0 [] l ls
    first ← prepare 0 ledger l' (fresh batch) []
    ok (commit first ∷ ls')

  abbrev pub replicate : ℕ → BucketLevel → List BucketLevel
  replicate zero l = []
  replicate (suc n) l = l ∷ replicate n l

  unfoldable pub new_bucket_list : List BucketLevel
  new_bucket_list = replicate num_levels new_level

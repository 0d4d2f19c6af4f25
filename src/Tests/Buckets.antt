-- ===== src/Tests/Buckets.antt =====
-- Buckets that only remember which batches went into them: bucket/BucketList.cpp.
use essa_core.Prelude.{ℕ, ◌≡◌, refl, List, ◌∷◌, ◌++◌, [], true}
use essa_core.Bucket.BucketList.{Buckets, level_should_spill, mask, level_half, level_size}

abbrev listed : Buckets
listed = record {
  Bucket = List ℕ;
  Batch = ℕ;
  empty = [];
  fresh = λ b. b ∷ [];
  merge = λ curr snap shadows keep_dead. snap ++ curr;
}

spills_at_2 : level_should_spill 6 0 ≡ true
unfolding level_should_spill mask level_half level_size
spills_at_2 = refl

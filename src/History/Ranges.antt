-- ===== src/History/Ranges.antt =====
-- A range of ledgers lies in the range of checkpoints made of it.
use essa_core.Prelude.{ℕ, ◌+◌, ◌-◌, ◌*◌, ◌/◌, ◌%◌, ◌^◌, ◌≤◌, ◌<◌, ◌≡◌, Bool, true, false, arith}
use essa_core.Prelude.Result.{ok, ◌>>=◌}
use essa_core.History.Checkpoints.{
  get_checkpoint_frequency, next_checkpoint_ledger, checkpoint_containing_ledger, make_ledger_range,
  CheckpointRange, make_checkpoint_range, checkpoint_range_of, count,
}

-- The checkpoint ledger c is the end of the checkpoint that holds the ledger.
pub record IsCheckpointOf (freq ledger c : ℕ) : Type 0 where
  pub ends : (c + 1) % freq ≡ 0
  pub after : ledger ≤ c
  pub near : c < ledger + freq
  pub small : c < 2 ^ 32 - 1

containing :
    (accelerated : Bool) (ledger : ℕ)
    → ledger < 2 ^ 32 - 64
    → IsCheckpointOf
        (get_checkpoint_frequency accelerated)
        ledger
        (checkpoint_containing_ledger accelerated ledger)
unfolding checkpoint_containing_ledger next_checkpoint_ledger get_checkpoint_frequency
containing true ledger h = ground arith
containing false ledger h = ground arith

make_checkpoint_range-spans :
    (accelerated : Bool) (first last c d : ℕ)
    → 0 < first
    → first ≤ last
    → IsCheckpointOf (get_checkpoint_frequency accelerated) first c
    → IsCheckpointOf (get_checkpoint_frequency accelerated) last d
    → (d
        ≡ c
          + ((d - c) / get_checkpoint_frequency accelerated + 1 - 1)
            * get_checkpoint_frequency accelerated)
      × (make_checkpoint_range c d (get_checkpoint_frequency accelerated)
          ≡ ok (record { first = c; last = d; frequency = get_checkpoint_frequency accelerated }))
unfolding get_checkpoint_frequency make_checkpoint_range
make_checkpoint_range-spans true first last c d h k p q =
    let order : c ≤ d = omega (arith, p, q) in
    (omega (arith, p, q), ground (arith, p.ends, q.ends, p.after, p.small, q.small))
make_checkpoint_range-spans false first last c d h k p q =
    let order : c ≤ d = omega (arith, p, q) in
    (omega (arith, p, q), ground (arith, p.ends, q.ends, p.after, p.small, q.small))

-- For a range of ledgers from 1 on that ends 64 before the largest `uint32_t`, neither constructor
-- fails: each end of the range of checkpoints is the last ledger of the checkpoint that holds that
-- end of the range of ledgers, and `count` checkpoints lead from one to the other.
pub checkpoint_range_of-covers :
    (accelerated : Bool) (first last : ℕ)
    → 0 < first
    → first ≤ last
    → last < 2 ^ 32 - 64
    → (r : CheckpointRange) × ((make_ledger_range first last >>= checkpoint_range_of accelerated)
        ≡ ok r)
      × IsCheckpointOf r.frequency first r.first
      × IsCheckpointOf r.frequency last r.last
      × (r.last ≡ r.first + (count r - 1) * r.frequency)
unfolding make_ledger_range checkpoint_range_of count
checkpoint_range_of-covers accelerated first last h k l =
    let c = containing accelerated first (omega arith) in
    let d = containing accelerated last l in
    let (whole, made) = make_checkpoint_range-spans accelerated first last _ _ h k c d in
    (
      record {
        first = checkpoint_containing_ledger accelerated first;
        last = checkpoint_containing_ledger accelerated last;
        frequency = get_checkpoint_frequency accelerated;
      },
      ground (arith, made),
      c,
      d,
      whole,
    )

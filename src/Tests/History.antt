-- ===== src/Tests/History.antt =====
-- Checkpoints of 64 ledgers: history/HistoryManagerImpl.cpp.
use essa_core.Prelude.{◌+◌, ◌-◌, ◌*◌, ◌≡◌, false, refl, arith}
use essa_core.Prelude.Result.{ok, ◌>>=◌}
use essa_core.History.Checkpoints.{
  CheckpointRange, make_ledger_range, checkpoint_range_of, count, checkpoint_containing_ledger,
  next_checkpoint_ledger, get_checkpoint_frequency,
}
use essa_core.History.Ranges.{IsCheckpointOf, checkpoint_range_of-covers}

containing_100 : checkpoint_containing_ledger false 100 ≡ 127
unfolding checkpoint_containing_ledger next_checkpoint_ledger get_checkpoint_frequency
containing_100 = refl

checkpoint_range_of-covers_example :
    (r : CheckpointRange) × ((make_ledger_range 100 300 >>= checkpoint_range_of false) ≡ ok r)
    × IsCheckpointOf r.frequency 100 r.first
    × IsCheckpointOf r.frequency 300 r.last
    × (r.last ≡ r.first + (count r - 1) * r.frequency)
checkpoint_range_of-covers_example =
    checkpoint_range_of-covers false 100 300 (omega arith) (omega arith) (omega arith)

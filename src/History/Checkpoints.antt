-- ===== src/History/Checkpoints.antt =====
-- The checkpoints of history/HistoryManagerImpl.cpp, and the ranges of ledger/LedgerRange.cpp and
-- ledger/CheckpointRange.cpp. Whether time is accelerated for tests is the configuration's; ledgers
-- are `uint32_t`.
use essa_core.Prelude.{ℕ, ◌+◌, ◌-◌, ◌*◌, ◌/◌, ◌%◌, ◌^◌, Bool, ltb, leb, ◌==◌, if◌then◌else◌}
use essa_core.Prelude.Result.{Result, ok, ◌>>◌, assert}

unfoldable pub get_checkpoint_frequency : Bool → ℕ
get_checkpoint_frequency accelerated = if accelerated then 8 else 64

unfoldable pub next_checkpoint_ledger : Bool → ℕ → ℕ
next_checkpoint_ledger accelerated ledger =
    let freq = get_checkpoint_frequency accelerated in
    if ledger == 0 then freq else (ledger + freq - 1) % 2 ^ 32 / freq * freq % 2 ^ 32

unfoldable pub prev_checkpoint_ledger : Bool → ℕ → ℕ
prev_checkpoint_ledger accelerated ledger =
    let freq = get_checkpoint_frequency accelerated in ledger / freq * freq

-- The last ledger of a checkpoint is one before a multiple of the frequency.
unfoldable pub checkpoint_containing_ledger : Bool → ℕ → ℕ
checkpoint_containing_ledger accelerated ledger =
    (next_checkpoint_ledger accelerated ((ledger + 1) % 2 ^ 32) + 2 ^ 32 - 1) % 2 ^ 32

pub record LedgerRange : Type 0 where
  pub first : ℕ
  pub last : ℕ

unfoldable pub make_ledger_range : ℕ → ℕ → Result LedgerRange
make_ledger_range first last = do
  assert (ltb 0 first)
  assert (leb first last)
  ok (record { first = first; last = last })

pub record CheckpointRange : Type 0 where
  pub first : ℕ
  pub last : ℕ
  pub frequency : ℕ

unfoldable pub make_checkpoint_range : ℕ → ℕ → ℕ → Result CheckpointRange
make_checkpoint_range first last frequency = do
  assert (ltb 0 first)
  assert (leb first last)
  assert ((first + 1) % 2 ^ 32 % frequency == 0)
  assert ((last + 1) % 2 ^ 32 % frequency == 0)
  ok (record { first = first; last = last; frequency = frequency })

unfoldable pub checkpoint_range_of : Bool → LedgerRange → Result CheckpointRange
checkpoint_range_of accelerated range =
    make_checkpoint_range (checkpoint_containing_ledger accelerated range.first)
      (checkpoint_containing_ledger accelerated range.last) (get_checkpoint_frequency accelerated)

unfoldable pub count : CheckpointRange → ℕ
count range = (range.last - range.first) / range.frequency + 1

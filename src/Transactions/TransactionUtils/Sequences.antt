-- ===== src/Transactions/TransactionUtils/Sequences.antt =====
-- The sequence number that an account starts with: transactions/TransactionUtils.cpp.
use essa_core.Prelude.{ℕ, ◌-◌, ◌*◌, ◌^◌, ◌<◌, ◌≡◌, ltb, if◌then◌else◌, arith}
use essa_core.Prelude.Int.{ℤ, pos, negsuc}
use essa_core.Ledger.Entry.{LedgerHeader}
use essa_core.Transactions.TransactionUtils.{get_starting_sequence_number, to_sequence_number}

-- 2^32 times the ledger, in 64 bits with a sign: below zero from the ledger 2^31 on.
abbrev pub starting_sequence : ℕ → ℤ
starting_sequence ledger =
    if ltb ledger (2 ^ 31) then pos (ledger * 2 ^ 32) else negsuc ((2 ^ 32 - ledger) * 2 ^ 32 - 1)

pub starting_sequence_exact :
    (h : LedgerHeader)
    → h.ledger_seq < 2 ^ 32
    → to_sequence_number (get_starting_sequence_number h) ≡ starting_sequence h.ledger_seq
unfolding get_starting_sequence_number to_sequence_number
starting_sequence_exact h small = ground (arith, small)

-- ===== src/Transactions/TransactionUtils/Settles.antt =====
-- What it is for a change of an entry to keep the invariant of `Valid`, and the arithmetic of it.
use essa_core.Prelude.{◌≡◌, Bool, true, false, not, ◌&&◌, if◌then◌else◌, arith, refl}
use essa_core.Prelude.Result.{Result, ok}
use essa_core.Prelude.Int.{ℤ, pos, ◌+ℤ◌, ◌-ℤ◌, ltb_ℤ, ◌≤ℤ◌, +ℤ_parts, -ℤ_parts, neg_part}
use essa_core.Ledger.Entry.{LedgerEntry}
use essa_core.Transactions.TransactionUtils.{max_balance}
use essa_core.Transactions.TransactionUtils.Valid.{IsValid}
use essa_core.Transactions.TransactionUtils.Limits.{within}

-- The call returns; the entry is valid after it, and as it was if the change was refused.
abbrev pub Settles : LedgerEntry → Result (Bool × LedgerEntry) → Type 0
Settles e m = (r : Bool × LedgerEntry) × (m ≡ ok r) × IsValid r.1 × (r.0 ≡ false → r.1 ≡ e)

-- A change made under a test that keeps the invariant.
pub Settles-if :
    (e e' : LedgerEntry) (m : Result (Bool × LedgerEntry)) (c : Bool)
    → IsValid e
    → (c ≡ true → IsValid e')
    → m ≡ ok (if c then (true, e') else (false, e))
    → Settles e m
Settles-if e e' m true v keeps h = ((true, e'), h, keeps refl, λ x. cc)
Settles-if e e' m false v keeps h = ((false, e), h, v, λ _. refl)

pub moved_account :
    (b d m s buy : ℤ)
    → neg_part m ≡ 0
    → pos 0 ≤ℤ b
    → pos 0 ≤ℤ s
    → b +ℤ buy ≤ℤ max_balance
    → within (b -ℤ m -ℤ s) (max_balance -ℤ (b +ℤ buy)) d ≡ true
    → (pos 0 ≤ℤ b +ℤ d) × (b +ℤ d +ℤ buy ≤ℤ max_balance)
moved_account b d m s buy hm hb hs room e = ground (
  arith,
  +ℤ_parts b d,
  +ℤ_parts (b +ℤ d) buy,
  -ℤ_parts b m,
  -ℤ_parts (b -ℤ m) s,
  +ℤ_parts b buy,
  -ℤ_parts max_balance (b +ℤ buy),
  -ℤ_parts (pos 0) d,
)

pub moved_line :
    (b d limit s buy : ℤ)
    → s ≤ℤ b
    → b +ℤ buy ≤ℤ limit
    → within (b -ℤ s) (limit -ℤ b -ℤ buy) d ≡ true
    → (s ≤ℤ b +ℤ d) × (b +ℤ d +ℤ buy ≤ℤ limit)
moved_line b d limit s buy covered room e = ground (
  arith,
  +ℤ_parts b d,
  +ℤ_parts (b +ℤ d) buy,
  -ℤ_parts b s,
  +ℤ_parts b buy,
  -ℤ_parts limit b,
  -ℤ_parts (limit -ℤ b) buy,
  -ℤ_parts (pos 0) d,
)

-- The test of addBalance in util/types.cpp.
abbrev pub fits : ℤ → ℤ → Bool
fits m new = not (ltb_ℤ new (pos 0)) && not (ltb_ℤ m new)

pub fits_arith : (b m new : ℤ) → fits (m -ℤ b) new ≡ true → (pos 0 ≤ℤ new) × (b +ℤ new ≤ℤ m)
fits_arith b m new e = ground (arith, -ℤ_parts m b, +ℤ_parts b new)

-- ===== src/Transactions/TransactionUtils.antt =====
-- transactions/TransactionUtils.cpp: balances, liabilities, reserves and flags of ledger entries.
-- A sum of `int64_t` that would overflow is undefined in the source; here it is the exact integer,
-- and the invariant of `Valid` bounds those that the operations form. A `uint32_t` wraps around.
pub mod Valid
pub mod Limits
pub mod Settles
pub mod Sequences
pub mod Preserved
use essa_core.Prelude.{
  ℕ, ◌+◌, ◌-◌, ◌*◌, ◌/◌, ◌%◌, ◌^◌, Bool, true, false, not, ◌&&◌, ltb, leb, ◌==◌, if◌then◌else◌,
}
use essa_core.Prelude.Result.{Result, ok, throw, runtime, ◌>>=◌, ◌>>◌, throw_if}
use essa_core.Prelude.Int.{ℤ, pos, negsuc, ◌+ℤ◌, ◌-ℤ◌, ltb_ℤ, eqb_ℤ}
use essa_core.Util.Numeric.{int64_max}
use essa_core.Util.Types
use essa_core.Ledger.Entry.{
  Liabilities, Extension, v0, v1, AccountEntry, TrustLineEntry, LedgerEntry, account, trust_line,
  LedgerHeader,
}

abbrev pub max_balance : ℤ
max_balance = pos int64_max

-- A version 0 entry has no liabilities.
unfoldable pub liabilities_of : Extension → Liabilities
liabilities_of v0 = record { buying = pos 0; selling = pos 0 }
liabilities_of (v1 l) = l

-- The lowest flag of a trust line is AUTHORIZED_FLAG.
unfoldable pub is_authorized : TrustLineEntry → Bool
is_authorized tl = tl.flags % 2 == 1

unfoldable pub set_authorized : TrustLineEntry → Bool → TrustLineEntry
set_authorized tl authorized = record tl {
  flags = if authorized then tl.flags / 2 * 2 + 1 else tl.flags / 2 * 2;
}

-- AUTH_REQUIRED_FLAG is 1 and AUTH_IMMUTABLE_FLAG is 4.
unfoldable pub is_auth_required : AccountEntry → Bool
is_auth_required acc = acc.flags % 2 == 1

unfoldable pub is_immutable_auth : AccountEntry → Bool
is_immutable_auth acc = acc.flags / 4 % 2 == 1

-- The reserve of an account. Up to version 8 the product is of two `uint32_t`; after it it is of two
-- `int64_t`, and below 2^63 for the sub entries that an account can have.
unfoldable pub get_min_balance : LedgerHeader → ℕ → ℤ
get_min_balance header owner_count =
    if leb header.ledger_version 8
    then pos ((2 + owner_count) % 2 ^ 32 * header.base_reserve % 2 ^ 32)
    else pos ((2 + owner_count) % 2 ^ 32 * header.base_reserve)

unfoldable pub get_buying_liabilities : LedgerHeader → LedgerEntry → Result ℤ
get_buying_liabilities header le = do
  throw_if (ltb header.ledger_version 10) runtime
  elim le [
    | account acc ↦ ok (liabilities_of acc.ext).buying
    | trust_line tl ↦ ok (liabilities_of tl.ext).buying
    | _ ↦ throw runtime
  ]

unfoldable pub get_selling_liabilities : LedgerHeader → LedgerEntry → Result ℤ
get_selling_liabilities header le = do
  throw_if (ltb header.ledger_version 10) runtime
  elim le [
    | account acc ↦ ok (liabilities_of acc.ext).selling
    | trust_line tl ↦ ok (liabilities_of tl.ext).selling
    | _ ↦ throw runtime
  ]

-- The two further tests of addBalance on an account, from version 10 on.
unfoldable pub account_has_room : LedgerHeader → AccountEntry → ℤ → ℤ → Result Bool
account_has_room header acc delta new_balance =
    if ltb header.ledger_version 10 then ok true else (do
      selling ← get_selling_liabilities header (account acc)
      buying ← get_buying_liabilities header (account acc)
      let min_balance = get_min_balance header acc.num_sub_entries
      ok (
          not (ltb_ℤ delta (pos 0) && ltb_ℤ (new_balance -ℤ min_balance) selling)
          && not (ltb_ℤ (max_balance -ℤ buying) new_balance)))

unfoldable pub trust_line_has_room : LedgerHeader → TrustLineEntry → ℤ → Result Bool
trust_line_has_room header tl new_balance = if ltb header.ledger_version 10 then ok true else (do
  selling ← get_selling_liabilities header (trust_line tl)
  buying ← get_buying_liabilities header (trust_line tl)
  ok (not (ltb_ℤ new_balance selling) && not (ltb_ℤ (tl.limit -ℤ buying) new_balance)))

-- Whether the balance was changed, and the entry after it.
unfoldable pub add_balance : LedgerHeader → LedgerEntry → ℤ → Result (Bool × LedgerEntry)
add_balance header (account acc) delta = if eqb_ℤ delta (pos 0) then ok (true, account acc) else (do
  (added, new_balance) ← Types.add_balance acc.balance delta max_balance
  room ← if added then account_has_room header acc delta new_balance else ok false
  ok (
      if room
      then (true, account (record acc { balance = new_balance }))
      else (false, account acc)))
add_balance header (trust_line tl) delta =
    if eqb_ℤ delta (pos 0)
    then ok (true, trust_line tl)
    else (if not (is_authorized tl) then ok (false, trust_line tl) else (do
      (added, new_balance) ← Types.add_balance tl.balance delta tl.limit
      room ← if added then trust_line_has_room header tl new_balance else ok false
      ok (
          if room
          then (true, trust_line (record tl { balance = new_balance }))
          else (false, trust_line tl))))
add_balance header le delta = throw runtime

abbrev pub with_buying : Extension → ℤ → Extension
with_buying ext l = v1 (record { buying = l; selling = (liabilities_of ext).selling })

abbrev pub with_selling : Extension → ℤ → Extension
with_selling ext l = v1 (record { buying = (liabilities_of ext).buying; selling = l })

-- The liabilities are read first, which throws below version 10.
unfoldable pub add_buying_liabilities : LedgerHeader → LedgerEntry → ℤ → Result (Bool × LedgerEntry)
add_buying_liabilities header (account acc) delta = do
  buying ← get_buying_liabilities header (account acc)
  if eqb_ℤ delta (pos 0) then ok (true, account acc) else (do
    (added, new) ← Types.add_balance buying delta (max_balance -ℤ acc.balance)
    ok (
        if added
        then (true, account (record acc { ext = with_buying acc.ext new }))
        else (false, account acc)))
add_buying_liabilities header (trust_line tl) delta = do
  buying ← get_buying_liabilities header (trust_line tl)
  if eqb_ℤ delta (pos 0)
      then ok (true, trust_line tl)
      else (if not (is_authorized tl) then ok (false, trust_line tl) else (do
        (added, new) ← Types.add_balance buying delta (tl.limit -ℤ tl.balance)
        ok (
            if added
            then (true, trust_line (record tl { ext = with_buying tl.ext new }))
            else (false, trust_line tl))))
add_buying_liabilities header le delta = throw runtime

unfoldable pub add_selling_liabilities :
    LedgerHeader → LedgerEntry → ℤ → Result (Bool × LedgerEntry)
add_selling_liabilities header (account acc) delta = do
  selling ← get_selling_liabilities header (account acc)
  let max_liabilities = acc.balance -ℤ get_min_balance header acc.num_sub_entries
  if eqb_ℤ delta (pos 0)
      then ok (true, account acc)
      else (if ltb_ℤ max_liabilities (pos 0) then ok (false, account acc) else (do
        (added, new) ← Types.add_balance selling delta max_liabilities
        ok (
            if added
            then (true, account (record acc { ext = with_selling acc.ext new }))
            else (false, account acc))))
add_selling_liabilities header (trust_line tl) delta = do
  selling ← get_selling_liabilities header (trust_line tl)
  if eqb_ℤ delta (pos 0)
      then ok (true, trust_line tl)
      else (if not (is_authorized tl) then ok (false, trust_line tl) else (do
        (added, new) ← Types.add_balance selling delta tl.balance
        ok (
            if added
            then (true, trust_line (record tl { ext = with_selling tl.ext new }))
            else (false, trust_line tl))))
add_selling_liabilities header le delta = throw runtime

-- `int count` as the `uint32_t` that is added.
unfoldable pub to_uint32 : ℤ → ℕ
to_uint32 (pos n) = n % 2 ^ 32
to_uint32 (negsuc n) = 2 ^ 32 - 1 - n % 2 ^ 32

-- The sum is a `uint32_t`, read as an `int`: it throws where that is negative.
unfoldable pub add_num_entries : LedgerHeader → AccountEntry → ℤ → Result (Bool × AccountEntry)
add_num_entries header acc count = do
  let new_entries_count = (acc.num_sub_entries + to_uint32 count) % 2 ^ 32
  throw_if (leb (2 ^ 31) new_entries_count) runtime
  selling ←
      if ltb header.ledger_version 10
      then ok (pos 0)
      else get_selling_liabilities header (account acc)
  let eff_min_balance = get_min_balance header new_entries_count +ℤ selling
  ok (
      if ltb_ℤ (pos 0) count && ltb_ℤ acc.balance eff_min_balance
      then (false, acc)
      else (true, record acc { num_sub_entries = new_entries_count }))

unfoldable pub get_available_balance : LedgerHeader → LedgerEntry → Result ℤ
get_available_balance header le = do
  avail ← elim le [
    | account acc ↦ ok (acc.balance -ℤ get_min_balance header acc.num_sub_entries)
    | trust_line tl ↦ ok tl.balance
    | _ ↦ throw runtime
  ]
  if ltb header.ledger_version 10
      then ok avail
      else (do selling ← get_selling_liabilities header le; ok (avail -ℤ selling))

unfoldable pub get_max_amount_receive : LedgerHeader → LedgerEntry → Result ℤ
get_max_amount_receive header (account acc) =
    if ltb header.ledger_version 10 then ok max_balance else (do
      buying ← get_buying_liabilities header (account acc)
      ok (max_balance -ℤ (acc.balance +ℤ buying)))
get_max_amount_receive header (trust_line tl) =
    if not (is_authorized tl)
    then ok (pos 0)
    else (if ltb header.ledger_version 10 then ok (tl.limit -ℤ tl.balance) else (do
      buying ← get_buying_liabilities header (trust_line tl)
      ok (tl.limit -ℤ tl.balance -ℤ buying)))
get_max_amount_receive header le = throw runtime

unfoldable pub get_minimum_limit : LedgerHeader → TrustLineEntry → Result ℤ
get_minimum_limit header tl =
    if ltb header.ledger_version 10
    then ok tl.balance
    else (do buying ← get_buying_liabilities header (trust_line tl); ok (tl.balance +ℤ buying))

-- `uint64_t` counters.
unfoldable pub generate_id : LedgerHeader → LedgerHeader × ℕ
generate_id header =
    (record header { id_pool = (header.id_pool + 1) % 2 ^ 64 }, (header.id_pool + 1) % 2 ^ 64)

unfoldable pub get_starting_sequence_number : LedgerHeader → ℕ
get_starting_sequence_number header = header.ledger_seq * 2 ^ 32 % 2 ^ 64

-- A `uint64_t` that is assigned to a SequenceNumber, which is an `int64_t`.
unfoldable pub to_sequence_number : ℕ → ℤ
to_sequence_number x = if ltb x (2 ^ 63) then pos x else negsuc (2 ^ 64 - 1 - x)

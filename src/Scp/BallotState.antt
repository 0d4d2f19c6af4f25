-- ===== src/Scp/BallotState.antt =====
-- The state of scp/BallotProtocol.cpp and the functions that change it without looking at statements.
-- A dbgAssert is modelled as in a debug build, where it aborts. What the driver is told is left out,
-- but for the envelopes that are emitted, the value that is externalized and the timer.
pub mod Invariant
pub mod Advances
pub mod Local
use Prim.Native.Nat.Ordering.{lt, eq, gt}
use essa_core.Prelude.{
  ℕ, ◌+◌, ◌%◌, ◌^◌, Bool, true, false, not, ◌&&◌, ◌||◌, Option, none, some, List, [], ◌∷◌, ltb, leb,
  ◌==◌, if◌then◌else◌,
}
use essa_core.Prelude.Result.{Result, ok, throw, runtime, ◌>>=◌, ◌>>◌, assert, throw_if, deref}
use essa_core.Scp.Ballot.{
  ScpBallot, Prepare, Confirm, Externalize, Pledges, st_prepare, st_confirm, st_externalize,
  Statement, uint32_max, compare_ballots, is_below, is_at_most, is_same, are_ballots_compatible,
  are_ballots_less_and_compatible, are_ballots_less_and_incompatible,
}
use essa_core.Scp.Federated.{Envelopes, Context}

pub data Phase : Type 0 where
  phase_prepare phase_confirm phase_externalize : Phase

abbrev pub is_prepare : Phase → Bool
is_prepare phase_prepare = true
is_prepare phase_confirm = false
is_prepare phase_externalize = false

abbrev pub is_confirm : Phase → Bool
is_confirm phase_prepare = false
is_confirm phase_confirm = true
is_confirm phase_externalize = false

abbrev pub is_externalize : Phase → Bool
is_externalize phase_prepare = false
is_externalize phase_confirm = false
is_externalize phase_externalize = true

-- `last_is_emitted` says whether mLastEnvelopeEmit is mLastEnvelope; `fully_validated` is the slot's.
pub record BallotProtocol : Type 0 where
  pub heard_from_quorum : Bool
  pub phase : Phase
  pub current_ballot : Option ScpBallot
  pub prepared : Option ScpBallot
  pub prepared_prime : Option ScpBallot
  pub high_ballot : Option ScpBallot
  pub commit : Option ScpBallot
  pub latest_envelopes : Envelopes
  pub value_override : Option ℕ
  pub message_level : ℕ
  pub last_envelope : Option Statement
  pub last_is_emitted : Bool
  pub fully_validated : Bool
  pub emitted : List Statement
  pub externalized : List ℕ
  pub timer : Option ℕ

unfoldable pub new_ballot_protocol : Bool → BallotProtocol
new_ballot_protocol fully_validated = record {
  heard_from_quorum = false;
  phase = phase_prepare;
  current_ballot = none;
  prepared = none;
  prepared_prime = none;
  high_ballot = none;
  commit = none;
  latest_envelopes = [];
  value_override = none;
  message_level = 0;
  last_envelope = none;
  last_is_emitted = false;
  fully_validated = fully_validated;
  emitted = [];
  externalized = [];
  timer = none;
}

-- Tests on pointers: `p && test(*p)`, and `!p || test(*p)`.
abbrev pub is_some {ℓ} : {A : Type ℓ} → Option A → Bool
is_some none = false
is_some (some a) = true

abbrev pub and_also {ℓ} : {A : Type ℓ} → Option A → (A → Bool) → Bool
and_also none test = false
and_also (some a) test = test a

abbrev pub or_else {ℓ} : {A : Type ℓ} → Option A → (A → Bool) → Bool
or_else none test = true
or_else (some a) test = test a

abbrev pub fits_phase : Phase → BallotProtocol → Bool
fits_phase phase_prepare s = true
fits_phase phase_confirm s = is_some s.commit
fits_phase phase_externalize s = is_some s.commit && is_some s.high_ballot

-- The assertions of checkInvariants; a null pointer in the place of an argument fails them too.
unfoldable pub invariants_hold : BallotProtocol → Bool
invariants_hold s =
    or_else s.current_ballot (λ b. not (b.counter == 0))
    && or_else s.prepared_prime
        (λ prime. or_else s.prepared (are_ballots_less_and_incompatible prime))
    && or_else s.high_ballot (λ h. and_also s.current_ballot (are_ballots_less_and_compatible h))
    && or_else s.commit (λ c. and_also s.high_ballot (are_ballots_less_and_compatible c))
    && fits_phase s.phase s

unfoldable pub check_invariants : BallotProtocol → Result (Unit {0})
check_invariants s = assert (invariants_hold s)

unfoldable pub bump_to_ballot : BallotProtocol → ScpBallot → Bool → Result BallotProtocol
bump_to_ballot s ballot check = do
  assert (not (is_externalize s.phase))
  assert (not check || or_else s.current_ballot (λ b. is_at_most (compare_ballots b ballot)))
  let got_bumped = or_else s.current_ballot (λ b. not (b.counter == ballot.counter))
  ok (record s {
    current_ballot = some ballot;
    high_ballot =
        if and_also s.high_ballot (λ h. not (are_ballots_compatible ballot h))
        then none
        else s.high_ballot;
    heard_from_quorum = if got_bumped then false else s.heard_from_quorum;
  })

unfoldable pub update_current_if_needed :
    BallotProtocol → ScpBallot → Result (Bool × BallotProtocol)
update_current_if_needed s h =
    if or_else s.current_ballot (λ b. is_below (compare_ballots b h))
    then (do s' ← bump_to_ballot s h true; ok (true, s'))
    else ok (false, s)

-- A commit that is not compatible stops the update; checkInvariants ends it otherwise.
unfoldable pub update_current_value : BallotProtocol → ScpBallot → Result (Bool × BallotProtocol)
update_current_value s ballot = if is_externalize s.phase then ok (false, s) else (do
  assert (or_else s.current_ballot (λ b. is_at_most (compare_ballots b ballot)))
  if is_some s.current_ballot && and_also s.commit (λ c. not (are_ballots_compatible c ballot))
      then ok (false, s)
      else (do
        (updated, s') ← update_current_if_needed s ballot
        check_invariants s'
        ok (updated, s')))

unfoldable pub set_prepared : BallotProtocol → ScpBallot → Bool × BallotProtocol
set_prepared s ballot = elim s.prepared [
  | none ↦ (true, record s { prepared = some ballot })
  | some p ↦ elim (compare_ballots p ballot) [
    | lt ↦ (
      true,
      record s {
        prepared = some ballot;
        prepared_prime = if are_ballots_compatible p ballot then s.prepared_prime else some p;
      },
    )
    | gt ↦
        if or_else s.prepared_prime (λ prime.
          is_below (compare_ballots prime ballot) && not (are_ballots_compatible p ballot))
        then (true, record s { prepared_prime = some ballot })
        else (false, s)
    | eq ↦ (false, s)
  ]
]

-- The part of setPreparedAccept that clears the commit.
unfoldable pub clear_commit : BallotProtocol → Result (Bool × BallotProtocol)
clear_commit s =
    if is_some s.commit
      && and_also s.high_ballot (λ h.
        and_also s.prepared (are_ballots_less_and_incompatible h)
        || and_also s.prepared_prime (are_ballots_less_and_incompatible h))
    then (do assert (is_prepare s.phase); ok (true, record s { commit = none }))
    else ok (false, s)

abbrev pub null_ballot : ScpBallot
null_ballot = record { counter = 0; value = 0 }

abbrev pub or_ballot : Option ScpBallot → ScpBallot
or_ballot none = null_ballot
or_ballot (some b) = b

abbrev pub counter_of : Option ScpBallot → ℕ
counter_of none = 0
counter_of (some b) = b.counter

-- createStatement for the type that emitCurrentStateStatement chooses by the phase.
abbrev pub statement_of : Context → Phase → BallotProtocol → Result Pledges
statement_of ctx phase_prepare s = ok (
    st_prepare (record {
      quorum_set_hash = ctx.quorum_set_hash;
      ballot = or_ballot s.current_ballot;
      prepared = s.prepared;
      prepared_prime = s.prepared_prime;
      n_c = counter_of s.commit;
      n_h = counter_of s.high_ballot;
    }))
statement_of ctx phase_confirm s = do
  b ← deref s.current_ballot
  p ← deref s.prepared
  c ← deref s.commit
  h ← deref s.high_ballot
  ok (
      st_confirm (record {
        ballot = b;
        n_prepared = p.counter;
        n_commit = c.counter;
        n_h = h.counter;
        quorum_set_hash = ctx.quorum_set_hash;
      }))
statement_of ctx phase_externalize s = do
  c ← deref s.commit
  h ← deref s.high_ballot
  ok (
      st_externalize
        (record { commit = c; n_h = h.counter; commit_quorum_set_hash = ctx.quorum_set_hash }))

unfoldable pub create_statement : Context → BallotProtocol → Result Pledges
create_statement ctx s = do check_invariants s; statement_of ctx s.phase s

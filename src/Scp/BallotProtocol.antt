-- ===== src/Scp/BallotProtocol.antt =====
-- scp/BallotProtocol.cpp: envelopes in, the steps they allow, statements and values out.
-- emitCurrentStateStatement processes its own envelope, which advances the slot again: `levels` is
-- what the code's limit leaves of that recursion. The loop on attemptBump has no limit in the code:
-- `rounds` bounds it, and where they run out the result is `unfinished`: Rounds is about how many are enough.
pub mod Emits
pub mod Advances
pub mod Bump
pub mod Confirms
pub mod Rounds
use essa_core.Prelude.{
  ℕ, zero, suc, ◌+◌, ◌-◌, ◌%◌, ◌^◌, Bool, true, false, not, ◌&&◌, ◌||◌, Option, none, some, List,
  [], ◌∷◌, ltb, leb, ◌==◌, if◌then◌else◌,
}
use essa_core.Prelude.Result.{Result, ok, throw, runtime, unfinished, ◌>>=◌, ◌>>◌, deref}
use essa_core.Scp.LocalNode.{is_quorum, is_v_blocking_filtered}
use essa_core.Scp.Ballot.{
  ScpBallot, Prepare, Confirm, Externalize, Pledges, st_prepare, st_confirm, st_externalize,
  Statement, uint32_max, is_newer_statement, get_working_ballot, statement_ballot_counter,
  are_ballots_compatible,
}
use essa_core.Scp.Federated.{
  ValidationLevel, invalid_value, maybe_valid_value, fully_validated_value, Context, Envelopes,
  get_quorum_set_from_statement, or_false,
}
use essa_core.Scp.Envelopes.{
  find_envelope, record_envelope, is_newer_than_recorded, is_statement_sane, insert_value,
  validate_values, same_pledges,
}
use essa_core.Scp.BallotState.{
  phase_prepare, phase_confirm, phase_externalize, is_externalize, BallotProtocol, is_some,
  and_also, or_else, counter_of, bump_to_ballot, update_current_value, create_statement,
}
use essa_core.Scp.BallotCounters.{
  reaches, has_v_blocking_ahead, heard_from, set_timer, check_heard_from_quorum, counters_above,
  first_not_ahead, bump_target,
}
use essa_core.Scp.BallotSteps.{ballot_at}
use essa_core.Scp.BallotAttempts.{
  attempt_prepared_accept, attempt_prepared_confirmed, attempt_accept_commit,
  attempt_confirm_commit,
}

abbrev pub max_advance_slot_recursion : ℕ
max_advance_slot_recursion = 50

unfoldable pub send_latest_envelope : BallotProtocol → BallotProtocol
send_latest_envelope s = elim s.last_envelope [
  | none ↦ s
  | some st ↦
      if s.message_level == 0 && s.fully_validated && not s.last_is_emitted
      then record s { last_is_emitted = true; emitted = st ∷ s.emitted }
      else s
]

-- The local node validates its own values as the others'.
abbrev pub lower_validation : ValidationLevel → BallotProtocol → BallotProtocol
lower_validation invalid_value s = s
lower_validation maybe_valid_value s = record s { fully_validated = false }
lower_validation fully_validated_value s = s

abbrev pub is_invalid : ValidationLevel → Bool
is_invalid invalid_value = true
is_invalid maybe_valid_value = false
is_invalid fully_validated_value = false

abbrev pub recorded : Statement → BallotProtocol → BallotProtocol
recorded st s = record s { latest_envelopes = record_envelope st s.latest_envelopes }

abbrev pub is_last : Option Statement → Pledges → Bool
is_last none pledges = false
is_last (some old) pledges = same_pledges old.pledges pledges

-- After the own envelope was processed.
abbrev pub note_emitted : Bool → Statement → BallotProtocol → BallotProtocol
note_emitted can_emit st s =
    if can_emit && or_else s.last_envelope (λ last. is_newer_statement last.pledges st.pledges)
    then send_latest_envelope (record s { last_envelope = some st; last_is_emitted = false })
    else s

abbrev pub or_value : Option ℕ → ℕ → ℕ
or_value none value = value
or_value (some v) value = v

abbrev pub value_of : Option ScpBallot → ℕ
value_of none = 0
value_of (some b) = b.value

unfoldable pub leave_level : Bool → BallotProtocol → BallotProtocol
leave_level did_work s =
    let s1 = record s { message_level = s.message_level - 1 } in
    if did_work then send_latest_envelope s1 else s1

module _ (ctx : Context) where
  -- Whether a statement goes no further than the checks.
  unfoldable pub refuses : BallotProtocol → Statement → Bool → Bool
  refuses s st self =
      not (is_statement_sane ctx st self)
      || not (is_newer_than_recorded s.latest_envelopes st)
      || is_invalid (validate_values ctx st.pledges)

  -- After EXTERNALIZE: statements for the value only.
  unfoldable pub process_settled : BallotProtocol → Statement → Result (Bool × BallotProtocol)
  process_settled s st = do
    c ← deref s.commit
    if c.value == (get_working_ballot st.pledges).value
        then ok (true, recorded st s)
        else ok (false, s)

  unfoldable pub process_going :
      (Statement → BallotProtocol → Result BallotProtocol)
      → BallotProtocol
      → Statement
      → Result (Bool × BallotProtocol)
  process_going advance s st = do
    s' ← advance st (recorded st (lower_validation (validate_values ctx st.pledges) s))
    ok (true, s')

  -- With the result: whether the envelope is VALID.
  unfoldable pub process_envelope :
      (Statement → BallotProtocol → Result BallotProtocol)
      → BallotProtocol
      → Statement
      → Bool
      → Result (Bool × BallotProtocol)
  process_envelope advance s st self =
      if refuses s st self
      then ok (false, s)
      else (if is_externalize s.phase then process_settled s st else process_going advance s st)

  unfoldable pub emit_own :
      (Statement → BallotProtocol → Result BallotProtocol)
      → BallotProtocol
      → Statement
      → Result BallotProtocol
  emit_own advance s st = do
    (valid, s') ← process_envelope advance s st true
    if valid then ok (note_emitted (is_some s.current_ballot) st s') else throw runtime

  abbrev pub own_statement : Pledges → Statement
  own_statement pledges = record { node_id = ctx.node_id; pledges = pledges }

  unfoldable pub emit_current_state_statement :
      (Statement → BallotProtocol → Result BallotProtocol) → BallotProtocol → Result BallotProtocol
  emit_current_state_statement advance s = do
    pledges ← create_statement ctx s
    if is_last (find_envelope ctx.node_id s.latest_envelopes) pledges
        then ok s
        else emit_own advance s (own_statement pledges)

  -- bumpState with a counter.
  unfoldable pub bump_to_counter :
      (Statement → BallotProtocol → Result BallotProtocol)
      → BallotProtocol
      → ScpBallot
      → Result (Bool × BallotProtocol)
  bump_to_counter advance s ballot = do
    (updated, s1) ← update_current_value s ballot
    if updated
        then (do
          s2 ← emit_current_state_statement advance s1
          ok (true, check_heard_from_quorum ctx s2))
        else ok (false, s1)

  unfoldable pub bump_state_to :
      (Statement → BallotProtocol → Result BallotProtocol)
      → BallotProtocol
      → ℕ
      → ℕ
      → Result (Bool × BallotProtocol)
  bump_state_to advance s value n =
      if is_externalize s.phase
      then ok (false, s)
      else bump_to_counter advance s (ballot_at n (or_value s.value_override value))

  -- The counter wraps around.
  unfoldable pub bump_state :
      (Statement → BallotProtocol → Result BallotProtocol)
      → BallotProtocol
      → ℕ
      → Bool
      → Result (Bool × BallotProtocol)
  bump_state advance s value force = elim s.current_ballot [
    | none ↦ bump_state_to advance s value 1
    | some b ↦
        if force then bump_state_to advance s value ((b.counter + 1) % 2 ^ 32) else ok (false, s)
  ]

  -- An empty value is 0.
  unfoldable pub abandon_ballot :
      (Statement → BallotProtocol → Result BallotProtocol)
      → BallotProtocol
      → ℕ
      → Result (Bool × BallotProtocol)
  abandon_ballot advance s n =
      let candidate = ctx.composite_candidate in
      let v = if candidate == 0 then value_of s.current_ballot else candidate in
      if v == 0
      then ok (false, s)
      else (if n == 0 then bump_state advance s v true else bump_state_to advance s v n)

  unfoldable pub attempt_bump :
      (Statement → BallotProtocol → Result BallotProtocol)
      → BallotProtocol
      → Result (Bool × BallotProtocol)
  attempt_bump advance s = elim (bump_target ctx s) [
    | none ↦ ok (false, s)
    | some n ↦ abandon_ballot advance s n
  ]

  -- do { } while (didBump)
  unfoldable pub bump_while :
      (Statement → BallotProtocol → Result BallotProtocol)
      → ℕ
      → BallotProtocol
      → Result (Bool × BallotProtocol)
  bump_while advance zero s = throw unfinished
  bump_while advance (suc rounds) s = do
    (did_bump, s1) ← attempt_bump advance s
    if did_bump then (do (_, s2) ← bump_while advance rounds s1; ok (true, s2)) else ok (false, s1)

  -- The four attempts, in the order of the white paper.
  unfoldable pub attempt_all :
      (Statement → BallotProtocol → Result BallotProtocol)
      → Pledges
      → BallotProtocol
      → Result (Bool × BallotProtocol)
  attempt_all advance hint s = do
    let emit = emit_current_state_statement advance
    (a, s1) ← attempt_prepared_accept ctx emit s hint
    (b, s2) ← attempt_prepared_confirmed ctx emit s1 hint
    (c, s3) ← attempt_accept_commit ctx emit s2 hint
    (d, s4) ← attempt_confirm_commit ctx emit s3 hint
    ok (d || c || b || a, s4)

  abbrev pub bump_at_top :
      (Statement → BallotProtocol → Result BallotProtocol)
      → ℕ
      → BallotProtocol
      → Result (Bool × BallotProtocol)
  bump_at_top advance rounds s =
      if s.message_level == 1
      then (do
        (did_bump, s1) ← bump_while advance rounds s
        ok (did_bump, check_heard_from_quorum ctx s1))
      else ok (false, s)

  -- `levels` counts what is left of the code's own limit on the recursion.
  unfoldable pub advance_slot : ℕ → ℕ → Statement → BallotProtocol → Result BallotProtocol
  advance_slot rounds zero hint s = throw runtime
  advance_slot rounds (suc levels) hint s =
      let advance = advance_slot rounds levels in
      attempt_all advance hint.pledges (record s { message_level = s.message_level + 1 }) >>= λ x.
      bump_at_top advance rounds x.1 >>= λ y. ok (leave_level (y.0 || x.0) y.1)

  -- At message level 0: mCurrentMessageLevel reaches the limit at the 50th call.
  unfoldable pub advance_from_outside : ℕ → Statement → BallotProtocol → Result BallotProtocol
  advance_from_outside rounds = advance_slot rounds (max_advance_slot_recursion - 1)

-- ===== src/Tests/Ballots.antt =====
-- Three nodes of which two are a quorum: scp/BallotProtocol.cpp.
use essa_core.Prelude.{
  ℕ, ◌≡◌, ◌≤◌, ◌<◌, Bool, true, false, Option, ◌&&◌, ◌||◌, ◌==◌, ltb, leb, none, some, [], ◌∷◌, mem,
  refl, if◌then◌else◌, arith, ◌*◌, ◌^◌, zero, suc, sym, ◌∙◌, ap,
}
use essa_core.Prelude.Result.{ok_injective, Result, ok, throw, assertion, ◌>>=◌}
use essa_core.Scp.QuorumSet.{
  ScpQuorumSet, quorum_set, no_sets, is_quorum_set_sane, insert_nodes, threshold_sane, check_sanity,
}
use essa_core.Scp.Ballot.{
  ScpBallot, Prepare, st_prepare, st_confirm, Statement, uint32_max, is_newer_statement,
  are_pledges_sane, companion_hash, compare_ballots, are_ballots_less_and_incompatible,
  newer_confirm, are_ballots_compatible, statement_ballot_counter, has_prepared_ballot,
  get_working_ballot, are_ballots_less_and_compatible, newer_prepare, compare_pointers,
}
use essa_core.Scp.Ballot.Newer.{is_newer_statement-order}
use essa_core.Scp.Federated.{
  Context, invalid_value, maybe_valid_value, fully_validated_value, federated_accept,
  federated_ratify, get_quorum_set_from_statement,
}
use essa_core.Scp.Envelopes.{
  find_envelope, record_envelope, validate_values, validate_all, values_of, insert_value,
  is_newer_than_recorded, same_pledges, is_statement_sane,
}
use essa_core.Scp.Envelopes.Values.{validate_values-greater, level_of_two, is_full}
use essa_core.Scp.BallotState.{
  BallotProtocol, counter_of, new_ballot_protocol, is_prepare, is_externalize, phase_confirm,
  create_statement, bump_to_ballot, update_current_value, invariants_hold, set_prepared,
  clear_commit, check_invariants, update_current_if_needed,
}
use essa_core.Scp.BallotState.Advances.{Advances}
use essa_core.Scp.BallotState.Invariant.{is_coherent, b_positive, p_order, h_below}
use essa_core.Scp.BallotSteps.{
  ballot_at, find_extended_interval, hint_ballots, commit_predicate, candidates_from, insert_number,
  get_prepare_candidates, votes_to_commit, candidates_for, insert_ballot, candidates_of_all,
  get_commit_boundaries, votes_to_prepare,
}
use essa_core.Scp.BallotSteps.Intervals.{find_extended_interval-greatest}
use essa_core.Scp.BallotMoves.{
  accept_prepared, confirm_prepared, accept_commit, confirm_commit, set_accept_commit, with_commit,
  enter_confirm, raise_high, set_prepared_accept, set_confirm_commit, raise_commit,
  set_prepared_confirmed, moves_commit, raise_both, update_to_high,
}
use essa_core.Scp.BallotAttempts.Sound.{Accepts, Confirms, attempt_accept_commit_sound}
use essa_core.Scp.BallotProtocol.Rounds.{Rounds, Ends, bump_while-Ends}
use essa_core.Scp.BallotProtocol.Confirms.{attempt_confirm_commit_sound}
use essa_core.Scp.BallotMoves.Accepted.{Accepted}
use essa_core.Scp.BallotMoves.Sound.{
  EndsCoherent, confirm_prepared_sound, accept_commit_sound, confirm_commit_sound,
}
use essa_core.Scp.BallotCounters.{
  bump_target, first_not_ahead, counters_above, has_v_blocking_ahead, check_heard_from_quorum,
  heard_from,
}
use essa_core.Scp.BallotProtocol.{
  process_envelope, bump_state, abandon_ballot, advance_from_outside, process_going, bump_while,
  refuses, bump_to_counter, attempt_all, emit_current_state_statement, bump_state_to,
  send_latest_envelope, advance_slot, attempt_bump, process_settled, leave_level, emit_own,
}
use essa_core.Scp.BallotProtocol.Advances.{process_envelope-progress}
use essa_core.Scp.BallotProtocol.Bump.{bump_target-least, bump_state-overflow}
use essa_core.Scp.BallotStored.{set_state_from_envelope}
use essa_core.Scp.BallotStored.RoundTrip.{create_statement-set_state_from_envelope}
use essa_core.Scp.BallotAttempts.{
  confirms_other, confirm_commit_of, ratifies_commit, attempt_prepared_confirmed,
  attempt_prepared_accept, find_new_commit, attempt_accept_commit, accept_hint, accept_commit_of,
  confirm_hint, high_reaches, accept_first, accepts_commit, accepts_prepared, find_new_high,
  ratifies_prepared, attempt_confirm_commit, passes_over,
}
use essa_core.Scp.LocalNode.{
  is_v_blocking_filtered, filter_nodes, to_int, find_statement, is_quorum_slice, block_validators,
  slice_validators, decrement, is_v_blocking, quorum_filter, is_quorum, prune,
  build_singleton_q_set,
}
use essa_core.Prelude.Int.{◌-ℤ◌}

abbrev nodes : ScpQuorumSet
nodes = quorum_set 2 (0 ∷ 1 ∷ 2 ∷ []) no_sets

abbrev node_0 : Context
node_0 = record {
  node_id = 0;
  quorum_set = nodes;
  quorum_set_hash = 9;
  get_q_set = λ _. some nodes;
  validate_value = λ _. fully_validated_value;
  composite_candidate = 7;
}

abbrev prepares : ℕ → ℕ → Option ScpBallot → Statement
prepares id n p = record {
  node_id = id;
  pledges = st_prepare (record {
    quorum_set_hash = 9;
    ballot = ballot_at n 7;
    prepared = p;
    prepared_prime = none;
    n_c = 0;
    n_h = 0;
  });
}

-- Node 0 votes for (1, 7).
abbrev voting : BallotProtocol
voting = record (new_ballot_protocol true) {
  current_ballot = some (ballot_at 1 7);
  latest_envelopes = (0, prepares 0 1 none) ∷ [];
  last_envelope = some (prepares 0 1 none);
  last_is_emitted = true;
  emitted = prepares 0 1 none ∷ [];
}

abbrev votes_1 : Statement
votes_1 = prepares 1 1 none

-- With node 1's vote there is a quorum: (1, 7) is accepted as prepared.
abbrev prepared_1 : BallotProtocol
prepared_1 = record voting {
  heard_from_quorum = true;
  prepared = some (ballot_at 1 7);
  latest_envelopes = (0, prepares 0 1 (some (ballot_at 1 7))) ∷ (1, votes_1) ∷ [];
  last_envelope = some (prepares 0 1 (some (ballot_at 1 7)));
  emitted = prepares 0 1 (some (ballot_at 1 7)) ∷ prepares 0 1 none ∷ [];
  timer = some 1;
}

abbrev prepare_7 : Prepare
prepare_7 = record {
  quorum_set_hash = 9;
  ballot = ballot_at 3 7;
  prepared = some (ballot_at 2 8);
  prepared_prime = none;
  n_c = 0;
  n_h = 0;
}

is_newer_statement-order_example :
    (is_newer_statement (st_prepare prepare_7) (st_prepare prepare_7) ≡ false)
    × (is_newer_statement (st_prepare prepare_7) votes_1.pledges ≡ true
        → is_newer_statement votes_1.pledges (st_prepare prepare_7) ≡ false)
    × (is_newer_statement (st_prepare prepare_7) votes_1.pledges ≡ true
        → is_newer_statement votes_1.pledges (st_prepare prepare_7) ≡ true
        → is_newer_statement (st_prepare prepare_7) (st_prepare prepare_7) ≡ true)
is_newer_statement-order_example =
    is_newer_statement-order (st_prepare prepare_7) votes_1.pledges (st_prepare prepare_7)

-- 7 is invalid and 8 may be valid.
abbrev wary : Context
wary = record node_0 { validate_value = λ v. if v == 7 then invalid_value else maybe_valid_value }

validate_values-greater_example :
    (validate_values wary (st_prepare prepare_7) ≡ (
      if prepare_7.ballot.counter == 0
      then wary.validate_value 8
      else (if ltb 8 7
          then level_of_two (wary.validate_value 8) (wary.validate_value 7)
          else level_of_two (wary.validate_value 7) (wary.validate_value 8))))
    × (is_full (validate_values wary (st_prepare prepare_7)) ≡ (
        (prepare_7.ballot.counter == 0 || is_full (wary.validate_value 7))
        && is_full (wary.validate_value 8)))
validate_values-greater_example = validate_values-greater wary prepare_7 (ballot_at 2 8) refl

hidden_invalid : validate_values wary (st_prepare prepare_7) ≡ maybe_valid_value
unfolding validate_values validate_all values_of insert_value
hidden_invalid = refl

abbrev at_most_5 : ℕ × ℕ → Bool
at_most_5 r = leb r.1 5 && leb 2 r.0

find_extended_interval-greatest_example :
    ((find_extended_interval (0, 0) (9 ∷ 5 ∷ 3 ∷ 1 ∷ []) at_most_5).0 == 0
        || (at_most_5 (find_extended_interval (0, 0) (9 ∷ 5 ∷ 3 ∷ 1 ∷ []) at_most_5)
            && leb
                (find_extended_interval (0, 0) (9 ∷ 5 ∷ 3 ∷ 1 ∷ []) at_most_5).0
                (find_extended_interval (0, 0) (9 ∷ 5 ∷ 3 ∷ 1 ∷ []) at_most_5).1))
      ≡ true
    × ((n : ℕ)
        → mem n (9 ∷ 5 ∷ 3 ∷ 1 ∷ []) ≡ true
        → at_most_5 (n, n) ≡ true
        → (((find_extended_interval (0, 0) (9 ∷ 5 ∷ 3 ∷ 1 ∷ []) at_most_5).0 == 0) ≡ false)
          × (n ≤ (find_extended_interval (0, 0) (9 ∷ 5 ∷ 3 ∷ 1 ∷ []) at_most_5).1))
find_extended_interval-greatest_example =
    find_extended_interval-greatest at_most_5 (9 ∷ 5 ∷ 3 ∷ 1 ∷ []) refl refl

-- Both other nodes are ahead, at the counters 3 and 5.
abbrev left_behind : BallotProtocol
left_behind = record (new_ballot_protocol true) {
  current_ballot = some (ballot_at 1 7);
  latest_envelopes = (0, prepares 0 1 none) ∷ (1, prepares 1 3 none) ∷ (2, prepares 2 5 none) ∷ [];
}

-- The node is at the counter 3, which it has accepted as prepared.
abbrev caught_up : BallotProtocol
caught_up = record left_behind {
  heard_from_quorum = true;
  current_ballot = some (ballot_at 3 7);
  prepared = some (ballot_at 3 7);
  latest_envelopes =
      (0, prepares 0 3 (some (ballot_at 3 7)))
      ∷ (1, prepares 1 3 none)
      ∷ (2, prepares 2 5 none)
      ∷ [];
  message_level = 1;
  last_envelope = some (prepares 0 3 (some (ballot_at 3 7)));
  timer = some 3;
}

target_3 : bump_target node_0 left_behind ≡ some 3
unfolding bump_target first_not_ahead counters_above has_v_blocking_ahead new_ballot_protocol
    is_v_blocking_filtered is_v_blocking block_validators filter_nodes statement_ballot_counter ◌-ℤ◌
    to_int insert_value
target_3 = refl

bump_target-least_example :
    (is_externalize left_behind.phase ≡ false)
    × (1 < 3)
    × (mem 3 (counters_above 1 left_behind.latest_envelopes) ≡ true)
    × (has_v_blocking_ahead node_0 left_behind.latest_envelopes 3 ≡ false)
    × (has_v_blocking_ahead node_0 left_behind.latest_envelopes 1 ≡ true)
    × ((m : ℕ)
        → mem m (counters_above 1 left_behind.latest_envelopes) ≡ true
        → m < 3
        → has_v_blocking_ahead node_0 left_behind.latest_envelopes m ≡ true)
unfolding new_ballot_protocol
bump_target-least_example = bump_target-least node_0 left_behind 3 target_3

abbrev last_ballot : BallotProtocol
last_ballot = record (new_ballot_protocol true) { current_ballot = some (ballot_at uint32_max 7) }

bump_state-overflow_example :
    bump_state node_0 (advance_from_outside node_0 2) last_ballot 7 true ≡ throw assertion
unfolding new_ballot_protocol
bump_state-overflow_example =
    bump_state-overflow node_0 (advance_from_outside node_0 2) last_ballot (ballot_at uint32_max 7)
      7 refl refl refl

create_statement-set_state_from_envelope_example :
    (set_state_from_envelope
        (new_ballot_protocol true)
        (record { node_id = 0; pledges = st_prepare prepare_7 })
      >>= create_statement node_0)
    ≡ ok (st_prepare prepare_7)
unfolding are_pledges_sane companion_hash
create_statement-set_state_from_envelope_example =
    create_statement-set_state_from_envelope node_0 true 0 (st_prepare prepare_7) refl refl refl

hears_1 :
    process_envelope node_0 (advance_from_outside node_0 2) voting votes_1 false
    ≡ ok (true, prepared_1)
unfolding send_latest_envelope leave_level refuses process_settled process_going process_envelope
    emit_own emit_current_state_statement bump_to_counter bump_state_to bump_state abandon_ballot
    attempt_bump bump_while attempt_all advance_slot advance_from_outside accept_prepared
    set_prepared_accept raise_high raise_commit raise_both confirm_prepared set_prepared_confirmed
    enter_confirm moves_commit with_commit update_to_high accept_commit set_accept_commit
    confirm_commit set_confirm_commit get_quorum_set_from_statement federated_ratify
    federated_accept passes_over accepts_prepared ratifies_prepared accept_hint confirm_hint
    confirms_other high_reaches find_new_high find_new_commit accepts_commit ratifies_commit
    accept_first attempt_prepared_accept attempt_prepared_confirmed accept_commit_of
    attempt_accept_commit confirm_commit_of attempt_confirm_commit insert_ballot insert_number
    hint_ballots candidates_from candidates_of_all candidates_for get_prepare_candidates
    votes_to_prepare commit_predicate votes_to_commit find_extended_interval get_commit_boundaries
    find_envelope record_envelope is_newer_than_recorded is_statement_sane insert_value values_of
    validate_all validate_values same_pledges has_v_blocking_ahead heard_from
    check_heard_from_quorum counters_above first_not_ahead bump_target compare_ballots
    compare_pointers are_ballots_compatible are_ballots_less_and_incompatible
    are_ballots_less_and_compatible newer_confirm newer_prepare is_newer_statement
    get_working_ballot statement_ballot_counter has_prepared_ballot are_pledges_sane
    new_ballot_protocol invariants_hold check_invariants bump_to_ballot update_current_if_needed
    update_current_value set_prepared clear_commit create_statement filter_nodes find_statement
    is_quorum is_quorum_slice prune quorum_filter slice_validators is_v_blocking
    is_v_blocking_filtered block_validators decrement build_singleton_q_set to_int
    is_quorum_set_sane check_sanity threshold_sane insert_nodes ◌-ℤ◌
hears_1 = refl

process_envelope-progress_example : Advances voting prepared_1
process_envelope-progress_example =
    process_envelope-progress node_0 2 voting votes_1 false true prepared_1 hears_1

first_round :
    attempt_bump node_0 (advance_slot node_0 2 2) (record left_behind { message_level = 1 })
    ≡ ok (true, caught_up)
unfolding send_latest_envelope leave_level refuses process_settled process_going process_envelope
    emit_own emit_current_state_statement bump_to_counter bump_state_to bump_state abandon_ballot
    attempt_bump bump_while attempt_all advance_slot advance_from_outside accept_prepared
    set_prepared_accept raise_high raise_commit raise_both confirm_prepared set_prepared_confirmed
    enter_confirm moves_commit with_commit update_to_high accept_commit set_accept_commit
    confirm_commit set_confirm_commit get_quorum_set_from_statement federated_ratify
    federated_accept passes_over accepts_prepared ratifies_prepared accept_hint confirm_hint
    confirms_other high_reaches find_new_high find_new_commit accepts_commit ratifies_commit
    accept_first attempt_prepared_accept attempt_prepared_confirmed accept_commit_of
    attempt_accept_commit confirm_commit_of attempt_confirm_commit insert_ballot insert_number
    hint_ballots candidates_from candidates_of_all candidates_for get_prepare_candidates
    votes_to_prepare commit_predicate votes_to_commit find_extended_interval get_commit_boundaries
    find_envelope record_envelope is_newer_than_recorded is_statement_sane insert_value values_of
    validate_all validate_values same_pledges has_v_blocking_ahead heard_from
    check_heard_from_quorum counters_above first_not_ahead bump_target compare_ballots
    compare_pointers are_ballots_compatible are_ballots_less_and_incompatible
    are_ballots_less_and_compatible newer_confirm newer_prepare is_newer_statement
    get_working_ballot statement_ballot_counter has_prepared_ballot are_pledges_sane
    new_ballot_protocol invariants_hold check_invariants bump_to_ballot update_current_if_needed
    update_current_value set_prepared clear_commit create_statement filter_nodes find_statement
    is_quorum is_quorum_slice prune quorum_filter slice_validators is_v_blocking
    is_v_blocking_filtered block_validators decrement build_singleton_q_set to_int
    is_quorum_set_sane check_sanity threshold_sane insert_nodes ◌-ℤ◌
first_round = refl

second_round : attempt_bump node_0 (advance_slot node_0 2 2) caught_up ≡ ok (false, caught_up)
unfolding send_latest_envelope leave_level refuses process_settled process_going process_envelope
    emit_own emit_current_state_statement bump_to_counter bump_state_to bump_state abandon_ballot
    attempt_bump bump_while attempt_all advance_slot advance_from_outside accept_prepared
    set_prepared_accept raise_high raise_commit raise_both confirm_prepared set_prepared_confirmed
    enter_confirm moves_commit with_commit update_to_high accept_commit set_accept_commit
    confirm_commit set_confirm_commit get_quorum_set_from_statement federated_ratify
    federated_accept passes_over accepts_prepared ratifies_prepared accept_hint confirm_hint
    confirms_other high_reaches find_new_high find_new_commit accepts_commit ratifies_commit
    accept_first attempt_prepared_accept attempt_prepared_confirmed accept_commit_of
    attempt_accept_commit confirm_commit_of attempt_confirm_commit insert_ballot insert_number
    hint_ballots candidates_from candidates_of_all candidates_for get_prepare_candidates
    votes_to_prepare commit_predicate votes_to_commit find_extended_interval get_commit_boundaries
    find_envelope record_envelope is_newer_than_recorded is_statement_sane insert_value values_of
    validate_all validate_values same_pledges has_v_blocking_ahead heard_from
    check_heard_from_quorum counters_above first_not_ahead bump_target compare_ballots
    compare_pointers are_ballots_compatible are_ballots_less_and_incompatible
    are_ballots_less_and_compatible newer_confirm newer_prepare is_newer_statement
    get_working_ballot statement_ballot_counter has_prepared_ballot are_pledges_sane
    new_ballot_protocol invariants_hold check_invariants bump_to_ballot update_current_if_needed
    update_current_value set_prepared clear_commit create_statement filter_nodes find_statement
    is_quorum is_quorum_slice prune quorum_filter slice_validators is_v_blocking
    is_v_blocking_filtered block_validators decrement build_singleton_q_set to_int
    is_quorum_set_sane check_sanity threshold_sane insert_nodes ◌-ℤ◌
second_round = refl

at_rest :
    (m : ℕ) (u : BallotProtocol)
    → Rounds node_0 (advance_slot node_0 2 2) m caught_up u
    → counter_of u.current_ballot ≤ uint32_max
unfolding Rounds
at_rest zero u same = rw same (omega arith)
at_rest (suc m) u (v, e, more) =
    let none_bumped : ok (true, v) ≡ ok (false, caught_up) = sym e ∙ second_round in
    absurd (ground (arith, none_bumped))

-- The loop bumps once.
caught_up_counters :
    (m : ℕ) (u : BallotProtocol)
    → Rounds node_0 (advance_slot node_0 2 2) m (record left_behind { message_level = 1 }) u
    → counter_of u.current_ballot ≤ uint32_max
unfolding Rounds new_ballot_protocol
caught_up_counters zero u same = rw same (omega arith)
caught_up_counters (suc m) u (v, e, more) =
    let bumped : caught_up ≡ v =
      ap (λ (r : Bool × BallotProtocol). r.1) (ok_injective (sym first_round ∙ e)) in
    at_rest m u (rw bumped more)

bump_while-Ends_example :
    (n : ℕ) × (t : BallotProtocol) × (n < 3 * 2 ^ 32)
    × Ends node_0
        (advance_slot node_0 2 2)
        (3 * 2 ^ 32)
        n
        (record left_behind { message_level = 1 })
        t
bump_while-Ends_example =
    bump_while-Ends node_0 2 2 (3 * 2 ^ 32) (record left_behind { message_level = 1 })
      caught_up_counters (omega arith)

-- b = h = (2, 7) and c = (1, 7), with p = (2, 7).
abbrev committing : BallotProtocol
committing = record (new_ballot_protocol true) {
  current_ballot = some (ballot_at 2 7);
  prepared = some (ballot_at 2 7);
  high_ballot = some (ballot_at 2 7);
  commit = some (ballot_at 1 7);
}

committing-coherent : is_coherent committing ≡ true
unfolding is_coherent new_ballot_protocol b_positive p_order h_below
committing-coherent = refl

confirm_prepared-sound_example :
    EndsCoherent (confirm_prepared committing (ballot_at 0 0) (ballot_at 4 7))
unfolding new_ballot_protocol are_ballots_less_and_compatible are_ballots_compatible compare_ballots
confirm_prepared-sound_example =
    confirm_prepared_sound committing (ballot_at 0 0) (ballot_at 4 7) committing-coherent refl refl
      refl refl

accept_commit-sound_example :
    (x : Bool × BallotProtocol) × (accept_commit committing (ballot_at 2 7) (ballot_at 3 7) ≡ ok x)
    × (is_coherent x.1 ≡ true)
    × (invariants_hold x.1 ≡ true)
    × Accepted (ballot_at 2 7) (ballot_at 3 7) x.1
    × (is_prepare committing.phase ≡ true → x.1.prepared_prime ≡ none)
unfolding new_ballot_protocol are_ballots_less_and_compatible are_ballots_compatible compare_ballots
accept_commit-sound_example =
    accept_commit_sound committing (ballot_at 2 7) (ballot_at 3 7) committing-coherent refl refl
      refl refl

abbrev confirming : BallotProtocol
confirming = record committing { phase = phase_confirm }

confirming-coherent : is_coherent confirming ≡ true
unfolding is_coherent new_ballot_protocol b_positive p_order h_below
confirming-coherent = refl

confirm_commit-sound_example :
    (t : BallotProtocol) × (confirm_commit confirming (ballot_at 2 7) (ballot_at 3 7) ≡ ok t)
    × (is_externalize t.phase ≡ true)
    × (invariants_hold t ≡ true)
unfolding new_ballot_protocol are_ballots_less_and_compatible are_ballots_compatible compare_ballots
confirm_commit-sound_example =
    confirm_commit_sound confirming (ballot_at 2 7) (ballot_at 3 7) confirming-coherent refl refl
      refl refl

abbrev confirms : ℕ → Statement
confirms id = record {
  node_id = id;
  pledges = st_confirm (record {
    ballot = ballot_at 3 7;
    n_prepared = 2;
    n_commit = 1;
    n_h = 2;
    quorum_set_hash = 9;
  });
}

-- The other two nodes have accepted the commit of (1, 7) to (2, 7).
abbrev outvoted : BallotProtocol
outvoted = record committing {
  latest_envelopes = (0, prepares 0 2 none) ∷ (1, confirms 1) ∷ (2, confirms 2) ∷ [];
}

outvoted-coherent : is_coherent outvoted ≡ true
unfolding is_coherent new_ballot_protocol b_positive p_order h_below
outvoted-coherent = refl

-- The emission, with two rounds and two levels left.
abbrev emits_own : BallotProtocol → Result BallotProtocol
emits_own = emit_current_state_statement node_0 (advance_slot node_0 2 2)

attempt_accept_commit-sound_example :
    Accepts emits_own outvoted
      (attempt_accept_commit node_0 emits_own outvoted (confirms 1).pledges)
attempt_accept_commit-sound_example =
    attempt_accept_commit_sound node_0 emits_own outvoted (confirms 1).pledges outvoted-coherent

abbrev accepted : BallotProtocol
accepted = record outvoted { phase = phase_confirm }

accepted-coherent : is_coherent accepted ≡ true
unfolding is_coherent new_ballot_protocol b_positive p_order h_below
accepted-coherent = refl

attempt_confirm_commit-sound_example :
    Confirms emits_own accepted
      (attempt_confirm_commit node_0 emits_own accepted (confirms 2).pledges)
attempt_confirm_commit-sound_example =
    attempt_confirm_commit_sound node_0 2 2 accepted (confirms 2).pledges accepted-coherent

-- ===== src/Scp/BallotCounters.antt =====
-- scp/BallotProtocol.cpp: what the counters of the statements say, of a quorum that was heard from and
-- of nodes that are ahead.
use essa_core.Prelude.{
  ℕ, Bool, true, false, not, ◌||◌, Option, none, some, List, [], ◌∷◌, ltb, leb, if◌then◌else◌,
}
use essa_core.Scp.LocalNode.{is_quorum, is_v_blocking_filtered}
use essa_core.Scp.Ballot.{
  ScpBallot, Pledges, st_prepare, st_confirm, st_externalize, statement_ballot_counter,
}
use essa_core.Scp.Federated.{Context, Envelopes, get_quorum_set_from_statement, or_false}
use essa_core.Scp.Envelopes.{insert_value}
use essa_core.Scp.BallotState.{is_externalize, BallotProtocol, counter_of}

-- A statement that votes with the counter or above; one that confirms votes with all.
abbrev pub reaches : ℕ → Pledges → Bool
reaches counter (st_prepare p) = leb counter p.ballot.counter
reaches counter (st_confirm c) = true
reaches counter (st_externalize e) = true

unfoldable pub has_v_blocking_ahead : Context → Envelopes → ℕ → Bool
has_v_blocking_ahead ctx envs n =
    is_v_blocking_filtered ctx.quorum_set envs (λ st. ltb n (statement_ballot_counter st.pledges))

unfoldable pub heard_from : Context → Envelopes → ScpBallot → Bool
heard_from ctx envs b = or_false (
    is_quorum ctx.quorum_set envs (get_quorum_set_from_statement ctx)
      (λ st. reaches b.counter st.pledges))

-- The timer, for the counter of the current ballot, or none.
abbrev pub set_timer : Bool → ScpBallot → BallotProtocol → BallotProtocol
set_timer true b s = record s {
  heard_from_quorum = true;
  timer =
      if is_externalize s.phase
      then none
      else (if s.heard_from_quorum then s.timer else some b.counter);
}
set_timer false b s = record s { heard_from_quorum = false; timer = none }

unfoldable pub check_heard_from_quorum : Context → BallotProtocol → BallotProtocol
check_heard_from_quorum ctx s = elim s.current_ballot [
  | none ↦ s
  | some b ↦ set_timer (heard_from ctx s.latest_envelopes b) b s
]

-- The counters above the local one, the least first.
unfoldable pub counters_above : ℕ → Envelopes → List ℕ
counters_above n [] = []
counters_above n ((_, st) ∷ envs) =
    let c = statement_ballot_counter st.pledges in
    let rest = counters_above n envs in if ltb n c then insert_value c rest else rest

unfoldable pub first_not_ahead : Context → Envelopes → List ℕ → Option ℕ
first_not_ahead ctx envs [] = none
first_not_ahead ctx envs (n ∷ ns) =
    let rest = first_not_ahead ctx envs ns in
    if has_v_blocking_ahead ctx envs n then rest else some n

-- The counter that attemptBump moves to.
unfoldable pub bump_target : Context → BallotProtocol → Option ℕ
bump_target ctx s =
    let local = counter_of s.current_ballot in
    if is_externalize s.phase || not (has_v_blocking_ahead ctx s.latest_envelopes local)
    then none
    else first_not_ahead ctx s.latest_envelopes (counters_above local s.latest_envelopes)

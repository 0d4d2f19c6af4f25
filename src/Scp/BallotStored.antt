-- ===== src/Scp/BallotStored.antt =====
-- scp/BallotProtocol.cpp: the state that is stored and sent, and how it is set again.
pub mod RoundTrip
use essa_core.Prelude.{
  ℕ, ◌+◌, ◌%◌, ◌^◌, Bool, true, false, not, ◌&&◌, ◌||◌, Option, none, some, List, [], ◌∷◌, ◌==◌,
  if◌then◌else◌,
}
use essa_core.Prelude.Result.{Result, ok, throw, runtime, ◌>>=◌, ◌>>◌, throw_if, deref}
use essa_core.Scp.Ballot.{
  ScpBallot, Pledges, st_prepare, st_confirm, st_externalize, Statement, uint32_max,
  are_ballots_compatible, get_working_ballot,
}
use essa_core.Scp.Federated.{Context, Envelopes}
use essa_core.Scp.Envelopes.{record_envelope}
use essa_core.Scp.BallotState.{
  phase_prepare, phase_confirm, phase_externalize, is_externalize, BallotProtocol, is_some,
  bump_to_ballot,
}
use essa_core.Scp.BallotSteps.{ballot_at}

-- A counter that is not zero sets the ballot.
abbrev pub set_counter : ℕ → ℕ → Option ScpBallot → Option ScpBallot
set_counter n value old = if n == 0 then old else some (ballot_at n value)

abbrev pub set_pointer : Option ScpBallot → Option ScpBallot → Option ScpBallot
set_pointer none old = old
set_pointer (some b) old = some b

unfoldable pub set_pledges : BallotProtocol → Pledges → Result BallotProtocol
set_pledges s (st_prepare p) = do
  s1 ← bump_to_ballot s p.ballot true
  ok (record s1 {
    prepared = set_pointer p.prepared s1.prepared;
    prepared_prime = set_pointer p.prepared_prime s1.prepared_prime;
    high_ballot = set_counter p.n_h p.ballot.value s1.high_ballot;
    commit = set_counter p.n_c p.ballot.value s1.commit;
    phase = phase_prepare;
  })
set_pledges s (st_confirm c) = do
  s1 ← bump_to_ballot s c.ballot true
  ok (record s1 {
    prepared = some (ballot_at c.n_prepared c.ballot.value);
    high_ballot = some (ballot_at c.n_h c.ballot.value);
    commit = some (ballot_at c.n_commit c.ballot.value);
    phase = phase_confirm;
  })
set_pledges s (st_externalize e) = do
  s1 ← bump_to_ballot s (ballot_at uint32_max e.commit.value) true
  ok (record s1 {
    prepared = some (ballot_at uint32_max e.commit.value);
    high_ballot = some (ballot_at e.n_h e.commit.value);
    commit = some e.commit;
    phase = phase_externalize;
  })

unfoldable pub set_state_from_envelope : BallotProtocol → Statement → Result BallotProtocol
set_state_from_envelope s st = do
  throw_if (is_some s.current_ballot) runtime
  set_pledges
      (record s {
        latest_envelopes = record_envelope st s.latest_envelopes;
        last_envelope = some st;
        last_is_emitted = true;
      })
      st.pledges

-- The own statements are sent where the slot is fully validated.
unfoldable pub current_from : Context → BallotProtocol → Envelopes → List Statement
current_from ctx s [] = []
current_from ctx s ((node, st) ∷ envs) =
    let rest = current_from ctx s envs in
    if not (node == ctx.node_id) || s.fully_validated then st ∷ rest else rest

unfoldable pub get_current_state : Context → BallotProtocol → List Statement
get_current_state ctx s = current_from ctx s s.latest_envelopes

unfoldable pub externalizing_from :
    Context → BallotProtocol → ScpBallot → Envelopes → List Statement
externalizing_from ctx s commit [] = []
externalizing_from ctx s commit ((node, st) ∷ envs) =
    let rest = externalizing_from ctx s commit envs in
    let sends =
      if node == ctx.node_id
      then s.fully_validated
      else are_ballots_compatible (get_working_ballot st.pledges) commit in
    if sends then st ∷ rest else rest

-- The commit is there whenever the phase is EXTERNALIZE.
unfoldable pub get_externalizing_state : Context → BallotProtocol → Result (List Statement)
get_externalizing_state ctx s =
    if is_externalize s.phase
    then (do c ← deref s.commit; ok (externalizing_from ctx s c s.latest_envelopes))
    else ok []

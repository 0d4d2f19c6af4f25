-- ===== src/Scp/BallotStored/RoundTrip.antt =====
-- setStateFromEnvelope and createStatement, one after the other.
use essa_core.Prelude.{
  ℕ, ◌∙◌, sym, ◌≤◌, [], ◌≡◌, refl, Bool, true, false, leb, arith, Option, none, some,
}
use essa_core.Prelude.Result.{ok, ◌>>=◌}
use essa_core.Scp.Ballot.{
  ScpBallot, Prepare, Confirm, Externalize, Pledges, st_prepare, st_confirm, st_externalize,
  Statement, uint32_max, companion_hash, are_pledges_sane, compare_ballots, are_ballots_compatible,
  are_ballots_less_and_compatible,
}
use essa_core.Scp.Federated.{Context}
use essa_core.Scp.Envelopes.{record_envelope}
use essa_core.Scp.BallotState.{
  Phase, phase_prepare, phase_confirm, phase_externalize, statement_of, BallotProtocol,
  new_ballot_protocol, bump_to_ballot, invariants_hold, check_invariants, create_statement,
  counter_of,
}
use essa_core.Scp.BallotSteps.{ballot_at}
use essa_core.Scp.BallotStored.{set_counter, set_pointer, set_pledges, set_state_from_envelope}

create_statement-holds :
    (ctx : Context) (s : BallotProtocol)
    → invariants_hold s ≡ true
    → create_statement ctx s ≡ statement_of ctx s.phase s
unfolding create_statement check_invariants
create_statement-holds ctx s h = ground (arith, h)

counter_of-set_counter : (n v : ℕ) → counter_of (set_counter n v none) ≡ n
counter_of-set_counter n v = ground arith

set_pointer-none : (o : Option ScpBallot) → set_pointer o none ≡ o
set_pointer-none none = refl
set_pointer-none (some b) = refl

-- The state that a PREPARE statement stands for.
abbrev state_of :
    Bool
    → Statement
    → Option ScpBallot
    → Option ScpBallot
    → Option ScpBallot
    → Option ScpBallot
    → Option ScpBallot
    → Phase
    → BallotProtocol
state_of full st b p prime h c phase = record (new_ballot_protocol full) {
  current_ballot = b;
  prepared = p;
  prepared_prime = prime;
  high_ballot = h;
  commit = c;
  phase = phase;
  latest_envelopes = record_envelope st [];
  last_envelope = some st;
  last_is_emitted = true;
}

prepare_invariants :
    (full : Bool) (st : Statement) (p : Prepare)
    → are_pledges_sane (st_prepare p) false ≡ true
    → leb p.n_h p.ballot.counter ≡ true
    → invariants_hold (
        state_of full st
          (some p.ballot)
          (set_pointer p.prepared none)
          (set_pointer p.prepared_prime none)
          (set_counter p.n_h p.ballot.value none)
          (set_counter p.n_c p.ballot.value none)
          phase_prepare)
      ≡ true
unfolding new_ballot_protocol invariants_hold are_pledges_sane compare_ballots
    are_ballots_compatible are_ballots_less_and_compatible
prepare_invariants full st p h k = ground (arith, h, k)

-- A node that starts again with the state of its last PREPARE statement makes the same statement.
prepare_restored :
    (ctx : Context) (full : Bool) (id : ℕ) (p : Prepare)
    → are_pledges_sane (st_prepare p) false ≡ true
    → leb p.n_h p.ballot.counter ≡ true
    → p.quorum_set_hash ≡ ctx.quorum_set_hash
    → (set_state_from_envelope
          (new_ballot_protocol full)
          (record { node_id = id; pledges = st_prepare p })
        >>= create_statement ctx)
      ≡ ok (st_prepare p)
unfolding set_state_from_envelope new_ballot_protocol set_pledges bump_to_ballot
prepare_restored ctx full id p h k q =
    let st : Statement = record { node_id = id; pledges = st_prepare p } in
    create_statement-holds ctx _ (prepare_invariants full st p h k)
    ∙ rw
        (
          sym q,
          set_pointer-none p.prepared,
          set_pointer-none p.prepared_prime,
          counter_of-set_counter p.n_c p.ballot.value,
          counter_of-set_counter p.n_h p.ballot.value,
        )
        refl

confirm_invariants :
    (full : Bool) (st : Statement) (c : Confirm)
    → are_pledges_sane (st_confirm c) false ≡ true
    → invariants_hold (
        state_of full st
          (some c.ballot)
          (some (ballot_at c.n_prepared c.ballot.value))
          none
          (some (ballot_at c.n_h c.ballot.value))
          (some (ballot_at c.n_commit c.ballot.value))
          phase_confirm)
      ≡ true
unfolding new_ballot_protocol invariants_hold are_pledges_sane compare_ballots
    are_ballots_compatible are_ballots_less_and_compatible
confirm_invariants full st c h = ground (arith, h)

confirm_restored :
    (ctx : Context) (full : Bool) (id : ℕ) (c : Confirm)
    → are_pledges_sane (st_confirm c) false ≡ true
    → c.quorum_set_hash ≡ ctx.quorum_set_hash
    → (set_state_from_envelope
          (new_ballot_protocol full)
          (record { node_id = id; pledges = st_confirm c })
        >>= create_statement ctx)
      ≡ ok (st_confirm c)
unfolding set_state_from_envelope new_ballot_protocol set_pledges bump_to_ballot
confirm_restored ctx full id c h q =
    let st : Statement = record { node_id = id; pledges = st_confirm c } in
    create_statement-holds ctx _ (confirm_invariants full st c h) ∙ rw (sym q) refl

externalize_invariants :
    (full : Bool) (st : Statement) (e : Externalize)
    → are_pledges_sane (st_externalize e) false ≡ true
    → e.n_h ≤ uint32_max
    → invariants_hold (
        state_of full st
          (some (ballot_at uint32_max e.commit.value))
          (some (ballot_at uint32_max e.commit.value))
          none
          (some (ballot_at e.n_h e.commit.value))
          (some e.commit)
          phase_externalize)
      ≡ true
unfolding new_ballot_protocol invariants_hold are_pledges_sane compare_ballots
    are_ballots_compatible are_ballots_less_and_compatible
externalize_invariants full st e h k = ground (arith, h, k)

externalize_restored :
    (ctx : Context) (full : Bool) (id : ℕ) (e : Externalize)
    → are_pledges_sane (st_externalize e) false ≡ true
    → e.n_h ≤ uint32_max
    → e.commit_quorum_set_hash ≡ ctx.quorum_set_hash
    → (set_state_from_envelope
          (new_ballot_protocol full)
          (record { node_id = id; pledges = st_externalize e })
        >>= create_statement ctx)
      ≡ ok (st_externalize e)
unfolding set_state_from_envelope new_ballot_protocol set_pledges bump_to_ballot
externalize_restored ctx full id e h k q =
    let st : Statement = record { node_id = id; pledges = st_externalize e } in
    create_statement-holds ctx _ (externalize_invariants full st e h k) ∙ rw (sym q) refl

-- The h of a PREPARE or EXTERNALIZE statement is not above what the ballot's counter can be.
abbrev pub is_h_bounded : Pledges → Bool
is_h_bounded (st_prepare p) = leb p.n_h p.ballot.counter
is_h_bounded (st_confirm c) = true
is_h_bounded (st_externalize e) = leb e.n_h uint32_max

-- A node that starts again with the state of its last statement makes that statement again, and no
-- assertion fails on the way: for any statement that is sane and carries the node's quorum set, with
-- an h that is at most the ballot's counter in PREPARE and fits its 32 bits in EXTERNALIZE.
pub create_statement-set_state_from_envelope :
    (ctx : Context) (fully_validated : Bool) (id : ℕ) (pledges : Pledges)
    → are_pledges_sane pledges false ≡ true
    → is_h_bounded pledges ≡ true
    → companion_hash pledges ≡ ctx.quorum_set_hash
    → (set_state_from_envelope
          (new_ballot_protocol fully_validated)
          (record { node_id = id; pledges = pledges })
        >>= create_statement ctx)
      ≡ ok pledges
unfolding companion_hash
create_statement-set_state_from_envelope ctx full id (st_prepare p) h k q =
    prepare_restored ctx full id p h k q
create_statement-set_state_from_envelope ctx full id (st_confirm c) h k q =
    confirm_restored ctx full id c h q
create_statement-set_state_from_envelope ctx full id (st_externalize e) h k q =
    externalize_restored ctx full id e h (ground (arith, k)) q

-- ===== src/Scp/Envelopes.antt =====
-- The statements that scp/BallotProtocol.cpp receives: what it asks of them and how it keeps the
-- latest of each node. A std::map is a list in the order of its keys.
pub mod Recorded
pub mod Values
use essa_core.Prelude.{
  ℕ, Bool, true, false, ◌&&◌, not, Option, none, some, List, [], ◌∷◌, ltb, ◌==◌, if◌then◌else◌,
}
use essa_core.Scp.QuorumSet.{is_quorum_set_sane}
use essa_core.Scp.Ballot.{
  ScpBallot, Prepare, Pledges, st_prepare, st_confirm, st_externalize, Statement,
  is_newer_statement, are_pledges_sane,
}
use essa_core.Scp.Federated.{
  ValidationLevel, invalid_value, maybe_valid_value, fully_validated_value, Context, Envelopes,
  get_quorum_set_from_statement,
}

unfoldable pub find_envelope : ℕ → Envelopes → Option Statement
find_envelope id [] = none
find_envelope id ((node, st) ∷ envs) = if id == node then some st else find_envelope id envs

unfoldable pub record_envelope : Statement → Envelopes → Envelopes
record_envelope st [] = (st.node_id, st) ∷ []
record_envelope st ((node, old) ∷ envs) =
    if st.node_id == node
    then (node, st) ∷ envs
    else (if ltb st.node_id node
        then (st.node_id, st) ∷ (node, old) ∷ envs
        else (node, old) ∷ record_envelope st envs)

unfoldable pub is_newer_than_recorded : Envelopes → Statement → Bool
is_newer_than_recorded envs st = elim (find_envelope st.node_id envs) [
  | none ↦ true
  | some old ↦ is_newer_statement old.pledges st.pledges
]

unfoldable pub is_statement_sane : Context → Statement → Bool → Bool
is_statement_sane ctx st self = elim (get_quorum_set_from_statement ctx st) [
  | none ↦ false
  | some q ↦ is_quorum_set_sane q false && are_pledges_sane st.pledges self
]

-- The ascending set of a value and of another one, if there is one.
unfoldable pub insert_value : ℕ → List ℕ → List ℕ
insert_value v [] = v ∷ []
insert_value v (w ∷ ws) =
    if ltb v w then v ∷ w ∷ ws else (if v == w then w ∷ ws else w ∷ insert_value v ws)

unfoldable pub values_of : Pledges → List ℕ
values_of (st_prepare p) =
    let own = if p.ballot.counter == 0 then [] else p.ballot.value ∷ [] in
    elim p.prepared [ none ↦ own | some prepared ↦ insert_value prepared.value own ]
values_of (st_confirm c) = c.ballot.value ∷ []
values_of (st_externalize e) = e.commit.value ∷ []

-- The loop of validateValues: the last value that is not fully validated decides.
abbrev pub or_level : ValidationLevel → ValidationLevel → ValidationLevel
or_level invalid_value res = invalid_value
or_level maybe_valid_value res = maybe_valid_value
or_level fully_validated_value res = res

unfoldable pub validate_all : Context → List ℕ → ValidationLevel → ValidationLevel
validate_all ctx [] res = res
validate_all ctx (v ∷ vs) res = validate_all ctx vs (or_level (ctx.validate_value v) res)

unfoldable pub validate_values : Context → Pledges → ValidationLevel
validate_values ctx pledges = validate_all ctx (values_of pledges) fully_validated_value

-- Equality of envelopes; signatures are made from the statements.
abbrev pub same_ballot : ScpBallot → ScpBallot → Bool
same_ballot b c = b.counter == c.counter && b.value == c.value

abbrev pub same_pointer : Option ScpBallot → Option ScpBallot → Bool
same_pointer none none = true
same_pointer none (some c) = false
same_pointer (some b) none = false
same_pointer (some b) (some c) = same_ballot b c

unfoldable pub same_pledges : Pledges → Pledges → Bool
same_pledges (st_prepare p) (st_prepare q) =
    p.quorum_set_hash == q.quorum_set_hash
    && same_ballot p.ballot q.ballot
    && same_pointer p.prepared q.prepared
    && same_pointer p.prepared_prime q.prepared_prime
    && p.n_c == q.n_c
    && p.n_h == q.n_h
same_pledges (st_prepare p) (st_confirm d) = false
same_pledges (st_prepare p) (st_externalize f) = false
same_pledges (st_confirm c) (st_prepare q) = false
same_pledges (st_confirm c) (st_confirm d) =
    same_ballot c.ballot d.ballot
    && c.n_prepared == d.n_prepared
    && c.n_commit == d.n_commit
    && c.n_h == d.n_h
    && c.quorum_set_hash == d.quorum_set_hash
same_pledges (st_confirm c) (st_externalize f) = false
same_pledges (st_externalize e) (st_prepare q) = false
same_pledges (st_externalize e) (st_confirm d) = false
same_pledges (st_externalize e) (st_externalize f) =
    same_ballot e.commit f.commit
    && e.n_h == f.n_h
    && e.commit_quorum_set_hash == f.commit_quorum_set_hash

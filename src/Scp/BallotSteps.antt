-- ===== src/Scp/BallotSteps.antt =====
-- What scp/BallotProtocol.cpp reads from the statements for its steps: candidates to be prepared, votes
-- and the intervals of a commit. A std::set is a list without repetition, the greatest first, as the
-- loops take its elements.
pub mod Intervals
use Prim.Native.Nat.Ordering.{lt, eq, gt}
use essa_core.Prelude.{
  ℕ, ◌+◌, ◌%◌, ◌^◌, Bool, true, false, not, ◌&&◌, ◌||◌, Option, none, some, List, [], ◌∷◌, ltb, leb,
  ◌==◌, if◌then◌else◌,
}
use essa_core.Prelude.Result.{Result, ok, throw, runtime, ◌>>=◌, ◌>>◌, assert, deref}
use essa_core.Scp.Ballot.{
  ScpBallot, Prepare, Confirm, Externalize, Pledges, st_prepare, st_confirm, st_externalize,
  Statement, uint32_max, compare_ballots, is_below, is_at_most, is_same, are_ballots_compatible,
  are_ballots_less_and_compatible, are_ballots_less_and_incompatible, has_prepared_ballot,
}
use essa_core.Scp.Federated.{Envelopes, Context, federated_accept, federated_ratify}
use essa_core.Scp.BallotState.{
  Phase, phase_prepare, phase_confirm, phase_externalize, is_prepare, is_confirm, is_externalize,
  BallotProtocol, is_some, and_also, or_else, null_ballot, or_ballot, set_prepared, clear_commit,
  bump_to_ballot, update_current_if_needed,
}

-- Greatest first, each once.
unfoldable pub insert_ballot : ScpBallot → List ScpBallot → List ScpBallot
insert_ballot b [] = b ∷ []
insert_ballot b (c ∷ cs) = elim (compare_ballots b c) [
  | gt ↦ b ∷ c ∷ cs
  | eq ↦ c ∷ cs
  | lt ↦ c ∷ insert_ballot b cs
]

unfoldable pub insert_number : ℕ → List ℕ → List ℕ
insert_number n [] = n ∷ []
insert_number n (m ∷ ms) =
    if ltb m n then n ∷ m ∷ ms else (if n == m then m ∷ ms else m ∷ insert_number n ms)

abbrev pub insert_pointer : Option ScpBallot → List ScpBallot → List ScpBallot
insert_pointer none bs = bs
insert_pointer (some b) bs = insert_ballot b bs

abbrev pub ballot_at : ℕ → ℕ → ScpBallot
ballot_at counter value = record { counter = counter; value = value }

unfoldable pub hint_ballots : Pledges → List ScpBallot
hint_ballots (st_prepare p) =
    insert_pointer p.prepared_prime (insert_pointer p.prepared (insert_ballot p.ballot []))
hint_ballots (st_confirm c) =
    insert_ballot (ballot_at uint32_max c.ballot.value)
      (insert_ballot (ballot_at c.n_prepared c.ballot.value) [])
hint_ballots (st_externalize e) = insert_ballot (ballot_at uint32_max e.commit.value) []

-- A ballot of a statement that the top vote covers.
abbrev pub insert_covered : ScpBallot → Option ScpBallot → List ScpBallot → List ScpBallot
insert_covered top none bs = bs
insert_covered top (some b) bs =
    if are_ballots_less_and_compatible b top then insert_ballot b bs else bs

unfoldable pub candidates_from : ScpBallot → Pledges → List ScpBallot → List ScpBallot
candidates_from top (st_prepare p) bs =
    insert_covered top p.prepared_prime
      (insert_covered top p.prepared (insert_covered top (some p.ballot) bs))
candidates_from top (st_confirm c) bs =
    if are_ballots_compatible top c.ballot
    then (if ltb c.n_prepared top.counter
        then insert_ballot (ballot_at c.n_prepared top.value) (insert_ballot top bs)
        else insert_ballot top bs)
    else bs
candidates_from top (st_externalize e) bs =
    if are_ballots_compatible top e.commit then insert_ballot top bs else bs

unfoldable pub candidates_of_all : ScpBallot → Envelopes → List ScpBallot → List ScpBallot
candidates_of_all top [] bs = bs
candidates_of_all top ((_, st) ∷ envs) bs =
    candidates_of_all top envs (candidates_from top st.pledges bs)

unfoldable pub candidates_for : List ScpBallot → Envelopes → List ScpBallot → List ScpBallot
candidates_for [] envs bs = bs
candidates_for (top ∷ hints) envs bs = candidates_for hints envs (candidates_of_all top envs bs)

unfoldable pub get_prepare_candidates : BallotProtocol → Pledges → List ScpBallot
get_prepare_candidates s hint = candidates_for (hint_ballots hint) s.latest_envelopes []

-- Whether a statement votes to prepare the ballot.
unfoldable pub votes_to_prepare : ScpBallot → Pledges → Bool
votes_to_prepare ballot (st_prepare p) = are_ballots_less_and_compatible ballot p.ballot
votes_to_prepare ballot (st_confirm c) = are_ballots_compatible ballot c.ballot
votes_to_prepare ballot (st_externalize e) = are_ballots_compatible ballot e.commit

unfoldable pub commit_predicate : ScpBallot → ℕ × ℕ → Pledges → Bool
commit_predicate ballot check (st_prepare p) = false
commit_predicate ballot check (st_confirm c) =
    are_ballots_compatible ballot c.ballot && leb c.n_commit check.0 && leb check.1 c.n_h
commit_predicate ballot check (st_externalize e) =
    are_ballots_compatible ballot e.commit && leb e.commit.counter check.0

unfoldable pub votes_to_commit : ScpBallot → ℕ × ℕ → Pledges → Bool
votes_to_commit ballot check (st_prepare p) =
    are_ballots_compatible ballot p.ballot
    && not (p.n_c == 0)
    && leb p.n_c check.0
    && leb check.1 p.n_h
votes_to_commit ballot check (st_confirm c) =
    are_ballots_compatible ballot c.ballot && leb c.n_commit check.0
votes_to_commit ballot check (st_externalize e) =
    are_ballots_compatible ballot e.commit && leb e.commit.counter check.0

-- `first` 0 stands for no candidate yet.
unfoldable pub find_extended_interval : ℕ × ℕ → List ℕ → (ℕ × ℕ → Bool) → ℕ × ℕ
find_extended_interval candidate [] pred = candidate
find_extended_interval (first, second) (b ∷ bs) pred =
    let started = find_extended_interval (b, b) bs pred in
    let extended = find_extended_interval (b, second) bs pred in
    let skipped = find_extended_interval (first, second) bs pred in
    if first == 0
    then (if pred (b, b) then started else skipped)
    else (if ltb second b
        then skipped
        else (if pred (b, second) then extended else (first, second)))

abbrev pub boundaries_from : ScpBallot → Pledges → List ℕ → List ℕ
boundaries_from ballot (st_prepare p) ns =
    if are_ballots_compatible ballot p.ballot && not (p.n_c == 0)
    then insert_number p.n_h (insert_number p.n_c ns)
    else ns
boundaries_from ballot (st_confirm c) ns =
    if are_ballots_compatible ballot c.ballot
    then insert_number c.n_h (insert_number c.n_commit ns)
    else ns
boundaries_from ballot (st_externalize e) ns =
    if are_ballots_compatible ballot e.commit
    then insert_number uint32_max (insert_number e.n_h (insert_number e.commit.counter ns))
    else ns

unfoldable pub get_commit_boundaries : ScpBallot → Envelopes → List ℕ
get_commit_boundaries ballot [] = []
get_commit_boundaries ballot ((_, st) ∷ envs) =
    boundaries_from ballot st.pledges (get_commit_boundaries ballot envs)

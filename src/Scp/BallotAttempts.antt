-- ===== src/Scp/BallotAttempts.antt =====
-- The attempt functions of scp/BallotProtocol.cpp: what the statements of the nodes allow.
pub mod Keeps
pub mod Sound
use Prim.Native.Nat.Ordering.{lt, eq, gt}
use essa_core.Prelude.{
  ℕ, ◌+◌, ◌%◌, ◌^◌, Bool, true, false, not, ◌&&◌, ◌||◌, Option, none, some, List, [], ◌∷◌, ltb, leb,
  ◌==◌, if◌then◌else◌,
}
use essa_core.Prelude.Result.{Result, ok, ◌>>=◌, ◌>>◌, assert, deref}
use essa_core.Scp.Ballot.{
  ScpBallot, Pledges, st_prepare, st_confirm, st_externalize, Statement, compare_ballots, is_below,
  is_at_most, are_ballots_compatible, are_ballots_less_and_compatible,
  are_ballots_less_and_incompatible, has_prepared_ballot,
}
use essa_core.Scp.Federated.{Context, federated_accept, federated_ratify}
use essa_core.Scp.BallotState.{
  is_prepare, is_confirm, is_externalize, BallotProtocol, is_some, and_also, or_else, null_ballot,
  or_ballot,
}
use essa_core.Scp.BallotSteps.{
  ballot_at, get_prepare_candidates, votes_to_prepare, commit_predicate, votes_to_commit,
  find_extended_interval, get_commit_boundaries,
}
use essa_core.Scp.BallotMoves.{
  set_prepared_accept, set_prepared_confirmed, set_accept_commit, set_confirm_commit,
}

-- Whether attemptPreparedAccept passes over a candidate: it cannot raise p or p'.
unfoldable pub passes_over : BallotProtocol → ScpBallot → Result Bool
passes_over s ballot = do
  idle ←
      if is_confirm s.phase
      then (do
        p ← deref s.prepared
        if are_ballots_less_and_compatible p ballot
            then (do c ← deref s.commit; assert (are_ballots_compatible c ballot); ok false)
            else ok true)
      else ok false
  ok (
      idle
      || and_also s.prepared_prime (λ prime. is_at_most (compare_ballots ballot prime))
      || and_also s.prepared (are_ballots_less_and_compatible ballot))

unfoldable pub accepts_prepared : Context → BallotProtocol → ScpBallot → Bool
accepts_prepared ctx s ballot =
    federated_accept ctx (λ st. votes_to_prepare ballot st.pledges)
      (λ st. has_prepared_ballot ballot st.pledges) s.latest_envelopes

unfoldable pub ratifies_prepared : Context → BallotProtocol → ScpBallot → Bool
ratifies_prepared ctx s ballot =
    federated_ratify ctx (λ st. has_prepared_ballot ballot st.pledges) s.latest_envelopes

abbrev pub may_commit : BallotProtocol → ScpBallot → Bool
may_commit s new_h =
    not (is_some s.commit)
    && or_else s.prepared (λ p. not (are_ballots_less_and_incompatible new_h p))
    && or_else s.prepared_prime (λ p. not (are_ballots_less_and_incompatible new_h p))

-- The ballot of which attemptAcceptCommit uses the value, if the hint votes to commit.
unfoldable pub accept_hint : Pledges → Option ScpBallot
accept_hint (st_prepare p) = if p.n_c == 0 then none else some (ballot_at p.n_h p.ballot.value)
accept_hint (st_confirm c) = some (ballot_at c.n_h c.ballot.value)
accept_hint (st_externalize e) = some (ballot_at e.n_h e.commit.value)

unfoldable pub confirm_hint : Pledges → Option ScpBallot
confirm_hint (st_prepare p) = none
confirm_hint (st_confirm c) = some (ballot_at c.n_h c.ballot.value)
confirm_hint (st_externalize e) = some (ballot_at e.n_h e.commit.value)

-- In CONFIRM: a value that is not h's, and an interval that h covers.
unfoldable pub confirms_other : BallotProtocol → ScpBallot → Result Bool
confirms_other s ballot =
    if is_confirm s.phase
    then (do h ← deref s.high_ballot; ok (not (are_ballots_compatible ballot h)))
    else ok false

unfoldable pub high_reaches : BallotProtocol → ℕ → Result Bool
high_reaches s second =
    if is_confirm s.phase then (do h ← deref s.high_ballot; ok (leb second h.counter)) else ok false

module _ (ctx : Context) where
  -- The highest candidate above h that is confirmed prepared, with the candidates from it on.
  unfoldable pub find_new_high :
      BallotProtocol → List ScpBallot → Option (ScpBallot × List ScpBallot)
  find_new_high s [] = none
  find_new_high s (ballot ∷ rest) =
      let later = find_new_high s rest in
      if and_also s.high_ballot (λ h. is_at_most (compare_ballots ballot h))
      then none
      else (if ratifies_prepared ctx s ballot then some (ballot, ballot ∷ rest) else later)

  -- The lowest candidate down to b that is confirmed prepared with all between it and h.
  unfoldable pub find_new_commit :
      BallotProtocol → ScpBallot → ScpBallot → ScpBallot → List ScpBallot → ScpBallot
  find_new_commit s b new_h found [] = found
  find_new_commit s b new_h found (ballot ∷ rest) =
      let passed = find_new_commit s b new_h found rest in
      let taken = find_new_commit s b new_h ballot rest in
      if is_below (compare_ballots ballot b)
      then found
      else (if not (are_ballots_less_and_compatible ballot new_h)
          then passed
          else (if ratifies_prepared ctx s ballot then taken else found))

  abbrev pub new_commit_for : BallotProtocol → ScpBallot → List ScpBallot → ScpBallot
  new_commit_for s new_h from =
      if may_commit s new_h
      then find_new_commit s (or_ballot s.current_ballot) new_h null_ballot from
      else null_ballot

  unfoldable pub accepts_commit : BallotProtocol → ScpBallot → ℕ × ℕ → Bool
  accepts_commit s ballot cur =
      federated_accept ctx (λ st. votes_to_commit ballot cur st.pledges)
        (λ st. commit_predicate ballot cur st.pledges) s.latest_envelopes

  unfoldable pub ratifies_commit : BallotProtocol → ScpBallot → ℕ × ℕ → Bool
  ratifies_commit s ballot cur =
      federated_ratify ctx (λ st. commit_predicate ballot cur st.pledges) s.latest_envelopes

  abbrev pub accept_interval : BallotProtocol → ScpBallot → ℕ × ℕ
  accept_interval s ballot =
      find_extended_interval (0, 0) (get_commit_boundaries ballot s.latest_envelopes)
        (accepts_commit s ballot)

  abbrev pub ratify_interval : BallotProtocol → ScpBallot → ℕ × ℕ
  ratify_interval s ballot =
      find_extended_interval (0, 0) (get_commit_boundaries ballot s.latest_envelopes)
        (ratifies_commit s ballot)

module _ (ctx : Context) (emit : BallotProtocol → Result BallotProtocol) where
  -- The loop over the candidates: the first that can be accepted.
  unfoldable pub accept_first : BallotProtocol → List ScpBallot → Result (Bool × BallotProtocol)
  accept_first s [] = ok (false, s)
  accept_first s (ballot ∷ rest) =
      let later = accept_first s rest in
      passes_over s ballot >>= λ over.
      if over
      then later
      else (if accepts_prepared ctx s ballot then set_prepared_accept emit s ballot else later)

  unfoldable pub attempt_prepared_accept : BallotProtocol → Pledges → Result (Bool × BallotProtocol)
  attempt_prepared_accept s hint =
      if is_externalize s.phase
      then ok (false, s)
      else accept_first s (get_prepare_candidates s hint)

  unfoldable pub attempt_prepared_confirmed :
      BallotProtocol → Pledges → Result (Bool × BallotProtocol)
  attempt_prepared_confirmed s hint =
      if not (is_prepare s.phase) || not (is_some s.prepared)
      then ok (false, s)
      else elim (find_new_high ctx s (get_prepare_candidates s hint)) [
        | none ↦ ok (false, s)
        | some (new_h, from) ↦ set_prepared_confirmed emit s (new_commit_for ctx s new_h from) new_h
      ]

  -- Where there are no boundaries there is no interval either.
  unfoldable pub accept_commit_of : BallotProtocol → ScpBallot → Result (Bool × BallotProtocol)
  accept_commit_of s ballot =
      let interval = accept_interval ctx s ballot in
      let low = ballot_at interval.0 ballot.value in
      let high = ballot_at interval.1 ballot.value in
      confirms_other s ballot >>= λ other.
      if other || interval.0 == 0
      then ok (false, s)
      else (high_reaches s interval.1 >>= λ reached.
          if reached then ok (false, s) else set_accept_commit emit s low high)

  unfoldable pub attempt_accept_commit : BallotProtocol → Pledges → Result (Bool × BallotProtocol)
  attempt_accept_commit s hint =
      if is_externalize s.phase then ok (false, s) else elim (accept_hint hint) [
        | none ↦ ok (false, s)
        | some ballot ↦ accept_commit_of s ballot
      ]

  unfoldable pub confirm_commit_of : BallotProtocol → ScpBallot → Result (Bool × BallotProtocol)
  confirm_commit_of s ballot =
      let interval = ratify_interval ctx s ballot in
      if and_also s.commit (are_ballots_compatible ballot) && not (interval.0 == 0)
      then set_confirm_commit emit s (ballot_at interval.0 ballot.value)
          (ballot_at interval.1 ballot.value)
      else ok (false, s)

  unfoldable pub attempt_confirm_commit : BallotProtocol → Pledges → Result (Bool × BallotProtocol)
  attempt_confirm_commit s hint =
      if not (is_confirm s.phase) || not (is_some s.high_ballot) || not (is_some s.commit)
      then ok (false, s)
      else elim (confirm_hint hint) [
        | none ↦ ok (false, s)
        | some ballot ↦ confirm_commit_of s ballot
      ]

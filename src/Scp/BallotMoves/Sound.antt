-- ===== src/Scp/BallotMoves/Sound.antt =====
-- The moves of scp/BallotProtocol.cpp up to their emission, as a whole.
use essa_core.Prelude.{◌≡◌, Bool, true, false, none, ◌||◌, ◌==◌, arith}
use essa_core.Prelude.Result.{Result, ok}
use essa_core.Scp.Ballot.{ScpBallot, are_ballots_compatible, are_ballots_less_and_compatible}
use essa_core.Scp.BallotState.{
  BallotProtocol, is_prepare, is_confirm, is_externalize, and_also, or_else, invariants_hold,
}
use essa_core.Scp.BallotState.Invariant.{is_coherent, is_coherent-invariants_hold, within}
use essa_core.Scp.BallotMoves.{accept_prepared, confirm_prepared, accept_commit, confirm_commit}
use essa_core.Scp.BallotMoves.Coherent.{
  fits_commit, accept_prepared-coherent, confirm_prepared-coherent,
}
use essa_core.Scp.BallotMoves.Settled.{accept_commit-coherent, confirm_commit-coherent}
use essa_core.Scp.BallotMoves.Accepted.{Accepted, accept_commit-Accepted}
use essa_core.Scp.BallotMoves.Returns.{
  accept_prepared-returns, confirm_prepared-returns, accept_commit-returns, confirm_commit-returns,
}

-- Returned without a failed assertion, with a state for which checkInvariants passes.
abbrev pub EndsCoherent : Result (Bool × BallotProtocol) → Type 0
EndsCoherent r =
    (x : Bool × BallotProtocol) × (r ≡ ok x)
    × (is_coherent x.1 ≡ true)
    × (invariants_hold x.1 ≡ true)

-- In PREPARE, setting p and p' to a ballot that p does not cover, and clearing the commit they rule
-- out, fails no assertion and leaves a state for which checkInvariants passes and that has a p' only
-- beside a p, if it was one.
pub accept_prepared_sound :
    (s : BallotProtocol) (b : ScpBallot)
    → is_coherent s ≡ true
    → is_prepare s.phase ≡ true
    → and_also s.prepared (are_ballots_less_and_compatible b) ≡ false
    → EndsCoherent (accept_prepared s b)
accept_prepared_sound s b inv ph n =
    let (x, p) = accept_prepared-returns s b ph in
    let f = accept_prepared-coherent s b x inv n p in (x, p, f, is_coherent-invariants_hold x.1 f)

-- In PREPARE, confirming that h is prepared, and setting a commit under it where there is none, fails
-- no assertion and leaves a state for which checkInvariants passes and that has a p' only beside a p,
-- if it was one: for an h whose counter is not zero and that is compatible with the commit there is,
-- and a new commit that is none or h's value with at most its counter where there is no commit.
pub confirm_prepared_sound :
    (s : BallotProtocol) (c h : ScpBallot)
    → is_coherent s ≡ true
    → is_prepare s.phase ≡ true
    → (h.counter == 0) ≡ false
    → or_else s.commit (are_ballots_compatible h) ≡ true
    → fits_commit s c h ≡ true
    → EndsCoherent (confirm_prepared s c h)
confirm_prepared_sound s c h inv ph n k m =
    let (x, p) = confirm_prepared-returns s c h ph m in
    let f = confirm_prepared-coherent s c h x inv ph n k m p in
    (x, p, f, is_coherent-invariants_hold x.1 f)

-- Accepting a commit from c to h fails no assertion and leaves a state in CONFIRM with this commit and
-- this h, without a p' if it was in PREPARE, for which checkInvariants passes and that has a p' only
-- beside a p, if it was one: for c and h of one value, c's counter at most h's and h's not zero, where
-- the slot is not externalized and in CONFIRM h is compatible with the h there is.
pub accept_commit_sound :
    (s : BallotProtocol) (c h : ScpBallot)
    → is_coherent s ≡ true
    → within c h ≡ true
    → (h.counter == 0) ≡ false
    → is_externalize s.phase ≡ false
    → (is_prepare s.phase || and_also s.high_ballot (are_ballots_compatible h)) ≡ true
    → (x : Bool × BallotProtocol) × (accept_commit s c h ≡ ok x)
      × (is_coherent x.1 ≡ true)
      × (invariants_hold x.1 ≡ true)
      × Accepted c h x.1
      × (is_prepare s.phase ≡ true → x.1.prepared_prime ≡ none)
accept_commit_sound s c h inv k n going m =
    let (x, p) = accept_commit-returns s c h going in
    let f = accept_commit-coherent s c h x inv k n going m p in
    let (settled, no_prime) = accept_commit-Accepted s c h x going p in
    (x, p, f, is_coherent-invariants_hold x.1 f, settled, no_prime)

-- Confirming a commit from c to h makes CONFIRM an EXTERNALIZE, fails no assertion and leaves a state
-- for which checkInvariants passes, if it was one and has a p' only beside a p: for c and h of the
-- value of the commit there is, c's counter at most h's and h's not zero.
pub confirm_commit_sound :
    (s : BallotProtocol) (c h : ScpBallot)
    → is_coherent s ≡ true
    → within c h ≡ true
    → (h.counter == 0) ≡ false
    → is_confirm s.phase ≡ true
    → and_also s.commit (are_ballots_compatible h) ≡ true
    → (t : BallotProtocol) × (confirm_commit s c h ≡ ok t)
      × (is_externalize t.phase ≡ true)
      × (invariants_hold t ≡ true)
confirm_commit_sound s c h inv k n ph m =
    let (t, p) = confirm_commit-returns s c h (ground (arith, ph)) in
    let (f, done) = confirm_commit-coherent s c h t inv k n ph m p in
    (t, p, done, is_coherent-invariants_hold t f)

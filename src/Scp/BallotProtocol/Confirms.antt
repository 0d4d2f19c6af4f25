-- ===== src/Scp/BallotProtocol/Confirms.antt =====
-- attemptConfirmCommit of scp/BallotProtocol.cpp with emitCurrentStateStatement.
use essa_core.Prelude.{ℕ, ◌≡◌, true}
use essa_core.Scp.Ballot.{Pledges}
use essa_core.Scp.Federated.{Context}
use essa_core.Scp.BallotState.{BallotProtocol}
use essa_core.Scp.BallotState.Invariant.{is_coherent}
use essa_core.Scp.BallotAttempts.{attempt_confirm_commit}
use essa_core.Scp.BallotAttempts.Sound.{Confirms, attempt_confirm_commit-Confirms}
use essa_core.Scp.BallotProtocol.{emit_current_state_statement, advance_slot}
use essa_core.Scp.BallotProtocol.Emits.{emit_current_state_statement-Advances}
use essa_core.Scp.BallotProtocol.Advances.{advance_slot-Advances}

-- Attempting to confirm a commit, with the emission of the protocol itself at any level of its
-- recursion: if checkInvariants passes for the state and it has a p' only beside a p, no assertion
-- fails and no null pointer is read, apart from what the emission does, whatever the statements and
-- the hint. The state stays as it is, or comes to an externalized one for which the same holds, with a
-- commit that is compatible with the one there was; the result is then what the emission from it
-- answers, and the value that is externalized after it is that of this commit.
pub attempt_confirm_commit_sound :
    (ctx : Context) (rounds levels : ℕ) (s : BallotProtocol) (hint : Pledges)
    → is_coherent s ≡ true
    → Confirms (emit_current_state_statement ctx (advance_slot ctx rounds levels)) s (
        attempt_confirm_commit ctx
          (emit_current_state_statement ctx (advance_slot ctx rounds levels))
          s
          hint)
attempt_confirm_commit_sound ctx rounds levels s hint =
    attempt_confirm_commit-Confirms ctx
      (emit_current_state_statement ctx (advance_slot ctx rounds levels)) s hint
      (λ t u done e.
        (emit_current_state_statement-Advances ctx (advance_slot ctx rounds levels)
            (advance_slot-Advances ctx rounds levels) t u e).commit
          done)

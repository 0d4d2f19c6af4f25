-- ===== src/Scp.antt =====
-- scp/: federated Byzantine agreement.
pub mod QuorumSet
pub mod LocalNode
pub mod Ballot
pub mod Federated
pub mod BallotState
pub mod BallotSteps
pub mod BallotMoves
pub mod BallotAttempts
pub mod Envelopes
pub mod BallotStored
pub mod BallotCounters
pub mod BallotProtocol

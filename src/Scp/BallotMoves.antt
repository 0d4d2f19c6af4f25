-- ===== src/Scp/BallotMoves.antt =====
-- The functions of scp/BallotProtocol.cpp that change the state and emit it. `emit` is
-- emitCurrentStateStatement, by which they call the protocol again: `Scp.BallotProtocol` ties it in.
pub mod Keeps
pub mod Coherent
pub mod Settled
pub mod Returns
pub mod Accepted
pub mod Sound
use Prim.Native.Nat.Ordering.{lt, eq, gt}
use essa_core.Prelude.{
  ℕ, ◌+◌, ◌%◌, ◌^◌, Bool, true, false, not, ◌&&◌, ◌||◌, Option, none, some, List, [], ◌∷◌, ltb, leb,
  ◌==◌, if◌then◌else◌,
}
use essa_core.Prelude.Result.{Result, ok, throw, runtime, ◌>>=◌, ◌>>◌, assert, deref}
use essa_core.Scp.Ballot.{
  ScpBallot, compare_ballots, is_below, is_at_most, is_same, are_ballots_compatible,
  are_ballots_less_and_compatible, are_ballots_less_and_incompatible,
}
use essa_core.Scp.BallotState.{
  Phase, phase_prepare, phase_confirm, phase_externalize, is_prepare, is_confirm, is_externalize,
  BallotProtocol, is_some, and_also, or_else, set_prepared, clear_commit, bump_to_ballot,
  update_current_if_needed,
}

-- The emission, if work was done.
abbrev pub finish :
    (BallotProtocol → Result BallotProtocol)
    → Bool
    → BallotProtocol
    → Result (Bool × BallotProtocol)
finish emit true s = do s' ← emit s; ok (true, s')
finish emit false s = ok (false, s)

-- What setPreparedAccept changes before it emits.
unfoldable pub accept_prepared : BallotProtocol → ScpBallot → Result (Bool × BallotProtocol)
accept_prepared s ballot = do
  let (raised, s1) = set_prepared s ballot
  (cleared, s2) ← clear_commit s1
  ok (raised || cleared, s2)

unfoldable pub set_prepared_accept :
    (BallotProtocol → Result BallotProtocol)
    → BallotProtocol
    → ScpBallot
    → Result (Bool × BallotProtocol)
set_prepared_accept emit s ballot = do
  (did_work, s') ← accept_prepared s ballot
  finish emit did_work s'

-- Steps with h and c where the current ballot allows it.
unfoldable pub raise_high : BallotProtocol → ScpBallot → Bool × BallotProtocol
raise_high s new_h =
    if or_else s.high_ballot (λ h. is_below (compare_ballots h new_h))
    then (true, record s { high_ballot = some new_h })
    else (false, s)

unfoldable pub raise_commit : BallotProtocol → ScpBallot → Result (Bool × BallotProtocol)
raise_commit s new_c =
    if new_c.counter == 0
    then ok (false, s)
    else (do assert (not (is_some s.commit)); ok (true, record s { commit = some new_c }))

unfoldable pub raise_both : BallotProtocol → ScpBallot → ScpBallot → Result (Bool × BallotProtocol)
raise_both s new_c new_h =
    let (high, s1) = raise_high s new_h in
    if or_else s.current_ballot (λ b. are_ballots_compatible b new_h)
    then (do (committed, s2) ← raise_commit s1 new_c; ok (high || committed, s2))
    else ok (false, s)

unfoldable pub confirm_prepared :
    BallotProtocol → ScpBallot → ScpBallot → Result (Bool × BallotProtocol)
confirm_prepared s new_c new_h = do
  let s1 = record s { value_override = some new_h.value }
  (raised, s2) ← raise_both s1 new_c new_h
  (bumped, s3) ← update_current_if_needed s2 new_h
  ok (bumped || raised, s3)

unfoldable pub set_prepared_confirmed :
    (BallotProtocol → Result BallotProtocol)
    → BallotProtocol
    → ScpBallot
    → ScpBallot
    → Result (Bool × BallotProtocol)
set_prepared_confirmed emit s new_c new_h = do
  (did_work, s') ← confirm_prepared s new_c new_h
  finish emit did_work s'

-- From PREPARE to CONFIRM.
unfoldable pub enter_confirm : BallotProtocol → ScpBallot → Result BallotProtocol
enter_confirm s h =
    let s1 = record s { phase = phase_confirm } in
    if not (is_prepare s.phase)
    then ok s
    else (if and_also s.current_ballot (λ b. not (are_ballots_less_and_compatible h b))
        then (do s2 ← bump_to_ballot s1 h false; ok (record s2 { prepared_prime = none }))
        else ok (record s1 { prepared_prime = none }))

-- The new c and h, where one of them is other than before.
unfoldable pub moves_commit : BallotProtocol → ScpBallot → ScpBallot → Bool
moves_commit s c h =
    or_else s.high_ballot (λ old. not (is_same (compare_ballots old h)))
    || or_else s.commit (λ old. not (is_same (compare_ballots old c)))

unfoldable pub with_commit : BallotProtocol → ScpBallot → ScpBallot → BallotProtocol
with_commit s c h =
    if moves_commit s c h
    then record s { value_override = some h.value; commit = some c; high_ballot = some h }
    else record s { value_override = some h.value }

unfoldable pub update_to_high : BallotProtocol → Result (Bool × BallotProtocol)
update_to_high s = do high ← deref s.high_ballot; update_current_if_needed s high

unfoldable pub accept_commit :
    BallotProtocol → ScpBallot → ScpBallot → Result (Bool × BallotProtocol)
accept_commit s c h = do
  s1 ← enter_confirm (with_commit s c h) h
  if moves_commit s c h || is_prepare s.phase
      then (do (_, s2) ← update_to_high s1; ok (true, s2))
      else ok (false, s1)

unfoldable pub set_accept_commit :
    (BallotProtocol → Result BallotProtocol)
    → BallotProtocol
    → ScpBallot
    → ScpBallot
    → Result (Bool × BallotProtocol)
set_accept_commit emit s c h = do (did_work, s') ← accept_commit s c h; finish emit did_work s'

unfoldable pub confirm_commit : BallotProtocol → ScpBallot → ScpBallot → Result BallotProtocol
confirm_commit s c h = do
  (_, s1) ← update_current_if_needed (record s { commit = some c; high_ballot = some h }) h
  ok (record s1 { phase = phase_externalize })

-- The value is externalized after the emission.
unfoldable pub set_confirm_commit :
    (BallotProtocol → Result BallotProtocol)
    → BallotProtocol
    → ScpBallot
    → ScpBallot
    → Result (Bool × BallotProtocol)
set_confirm_commit emit s c h = do
  s1 ← confirm_commit s c h
  s2 ← emit s1
  committed ← deref s2.commit
  ok (true, record s2 { externalized = committed.value ∷ s2.externalized })

-- ===== src/Scp/BallotMoves/Returns.antt =====
-- The assertions in the moves of scp/BallotProtocol.cpp.
use essa_core.Prelude.{
  ◌≡◌, Bool, true, false, not, ◌||◌, ◌==◌, arith, some, inl, inr, ◌∙◌, Option-cases, Bool-cases,
}
use essa_core.Prelude.Result.{ok, returns}
use essa_core.Scp.Ballot.{ScpBallot, is_below, compare_ballots, are_ballots_compatible}
use essa_core.Scp.BallotState.{
  BallotProtocol, phase_externalize, is_prepare, is_externalize, is_some, and_also, or_else,
  clear_commit, set_prepared, bump_to_ballot, update_current_if_needed,
}
use essa_core.Scp.BallotMoves.{
  accept_prepared, raise_high, raise_commit, raise_both, confirm_prepared, enter_confirm,
  moves_commit, with_commit, update_to_high, accept_commit, confirm_commit,
}
use essa_core.Scp.BallotMoves.Coherent.{fits_commit}

bump_to_ballot-returns :
    (s : BallotProtocol) (b : ScpBallot) (check : Bool)
    → is_externalize s.phase ≡ false
    → (not check || or_else s.current_ballot (λ c. is_below (compare_ballots c b))) ≡ true
    → (t : BallotProtocol) × (bump_to_ballot s b check ≡ ok t)
unfolding bump_to_ballot
bump_to_ballot-returns s b check going up = returns _ (λ e h. ground (arith, going, up, h))

pub update_current_if_needed-returns :
    (s : BallotProtocol) (b : ScpBallot)
    → is_externalize s.phase ≡ false
    → (x : Bool × BallotProtocol) × (update_current_if_needed s b ≡ ok x)
unfolding update_current_if_needed
update_current_if_needed-returns s b going =
    elim (Bool-cases (or_else s.current_ballot (λ c. is_below (compare_ballots c b)))) [
      | inr stays ↦ ((false, s), ground (arith, stays))
      | inl up ↦
          let (t, p) = bump_to_ballot-returns s b true going (ground (arith, up)) in
          ((true, t), ground (arith, up, p))
    ]

pub accept_prepared-returns :
    (s : BallotProtocol) (b : ScpBallot)
    → is_prepare s.phase ≡ true
    → (x : Bool × BallotProtocol) × (accept_prepared s b ≡ ok x)
unfolding accept_prepared clear_commit set_prepared
accept_prepared-returns s b ph = returns _ (λ e h. ground (arith, ph, h))

raise_both-returns :
    (s : BallotProtocol) (c h : ScpBallot)
    → is_prepare s.phase ≡ true
    → fits_commit s c h ≡ true
    → (x : Bool × BallotProtocol) × (raise_both s c h ≡ ok x) × (is_externalize x.1.phase ≡ false)
unfolding raise_both raise_commit raise_high
raise_both-returns s c h ph m =
    let (x, p) = returns (raise_both s c h) (λ e k. ground (arith, m, k)) in
    (x, p, ground (arith, ph, p))

pub confirm_prepared-returns :
    (s : BallotProtocol) (c h : ScpBallot)
    → is_prepare s.phase ≡ true
    → fits_commit s c h ≡ true
    → (x : Bool × BallotProtocol) × (confirm_prepared s c h ≡ ok x)
unfolding confirm_prepared
confirm_prepared-returns s c h ph m =
    let s1 : BallotProtocol = record s { value_override = some h.value } in
    let (t, p, going) = raise_both-returns s1 c h ph m in
    let (u, q) = update_current_if_needed-returns t.1 h going in
    ((u.0 || t.0, u.1), ground (arith, p, q))

-- The phase after a commit is accepted, and the h there is.
enter_confirm-returns :
    (s : BallotProtocol) (h : ScpBallot)
    → is_externalize s.phase ≡ false
    → and_also s.high_ballot (λ y. y.value == h.value) ≡ true
    → (t : BallotProtocol) × (enter_confirm s h ≡ ok t)
      × (is_externalize t.phase ≡ false)
      × (is_some t.high_ballot ≡ true)
unfolding enter_confirm bump_to_ballot are_ballots_compatible
enter_confirm-returns s h going high =
    let (t, p) = returns (enter_confirm s h) (λ e k. ground (arith, going, k)) in
    (t, p, ground (arith, going, p), ground (arith, high, p))

with_commit-high :
    (s : BallotProtocol) (c h : ScpBallot)
    → (is_externalize (with_commit s c h).phase ≡ is_externalize s.phase)
      × (and_also (with_commit s c h).high_ballot (λ y. y.value == h.value) ≡ true)
unfolding with_commit moves_commit compare_ballots
with_commit-high s c h = (ground arith, ground arith)

update_to_high-returns :
    (s : BallotProtocol)
    → is_externalize s.phase ≡ false
    → is_some s.high_ballot ≡ true
    → (x : Bool × BallotProtocol) × (update_to_high s ≡ ok x)
unfolding update_to_high
update_to_high-returns s going high = elim (Option-cases s.high_ballot) [
  | inl missing ↦ absurd (ground (arith, high, missing))
  | inr (y, found) ↦
      let (x, p) = update_current_if_needed-returns s y going in (x, ground (arith, found, p))
]

pub accept_commit-returns :
    (s : BallotProtocol) (c h : ScpBallot)
    → is_externalize s.phase ≡ false
    → (x : Bool × BallotProtocol) × (accept_commit s c h ≡ ok x)
unfolding accept_commit
accept_commit-returns s c h going =
    let w = with_commit s c h in
    let (same, high) = with_commit-high s c h in
    let (t, p, on, there) = enter_confirm-returns w h (same ∙ going) high in
    let (u, q) = update_to_high-returns t on there in
    elim (Bool-cases (moves_commit s c h || is_prepare s.phase)) [
      | inl works ↦ ((true, u.1), ground (arith, p, q, works))
      | inr idles ↦ ((false, t), ground (arith, p, idles))
    ]

pub confirm_commit-returns :
    (s : BallotProtocol) (c h : ScpBallot)
    → is_externalize s.phase ≡ false
    → (t : BallotProtocol) × (confirm_commit s c h ≡ ok t)
unfolding confirm_commit
confirm_commit-returns s c h going =
    let s1 : BallotProtocol = record s { commit = some c; high_ballot = some h } in
    let (u, p) = update_current_if_needed-returns s1 h going in
    (record u.1 { phase = phase_externalize }, ground (arith, p))

-- ===== src/Scp/BallotState/Invariant.antt =====
-- What checkInvariants asserts, and the functions of scp/BallotProtocol.cpp that change the ballots.
use essa_core.Prelude.{
  ◌≡◌, refl, Bool, true, false, not, ◌&&◌, ◌||◌, ◌==◌, leb, arith, Option, none, some, inl, inr,
  Bool-cases,
}
use essa_core.Prelude.Result.{ok, bind_ok}
use essa_core.Scp.Ballot.{
  ScpBallot, is_below, compare_ballots, are_ballots_compatible, are_ballots_less_and_compatible,
  are_ballots_less_and_incompatible,
}
use essa_core.Scp.Ballot.Order.{compatible_iff}
use essa_core.Scp.BallotState.{
  BallotProtocol, and_also, or_else, fits_phase, invariants_hold, set_prepared, clear_commit,
  bump_to_ballot, update_current_if_needed,
}

-- The five parts of it: b, p and p', b and h, h and c, and what the phase asks for.
unfoldable pub b_positive : Option ScpBallot → Bool
b_positive b = or_else b (λ x. not (x.counter == 0))

unfoldable pub p_order : Option ScpBallot → Option ScpBallot → Bool
p_order p prime = or_else prime (λ q. and_also p (are_ballots_less_and_incompatible q))

-- Compatible, with at most the counter.
abbrev pub within : ScpBallot → ScpBallot → Bool
within x y = x.value == y.value && leb x.counter y.counter

unfoldable pub h_below : Option ScpBallot → Option ScpBallot → Bool
h_below h b = or_else h (λ x. and_also b (within x))

h_below-compatible :
    (h b : Option ScpBallot)
    → or_else h (λ x. and_also b (are_ballots_less_and_compatible x)) ≡ h_below h b
unfolding h_below
h_below-compatible none b = refl
h_below-compatible (some x) none = refl
h_below-compatible (some x) (some y) = ground (arith, compatible_iff x y)

-- p' is there only beside p, which checkInvariants does not ask for and the code keeps.
unfoldable pub is_coherent : BallotProtocol → Bool
is_coherent s =
    b_positive s.current_ballot
    && p_order s.prepared s.prepared_prime
    && h_below s.high_ballot s.current_ballot
    && h_below s.commit s.high_ballot
    && fits_phase s.phase s

pub is_coherent-invariants_hold :
    (s : BallotProtocol) → is_coherent s ≡ true → invariants_hold s ≡ true
unfolding is_coherent invariants_hold b_positive p_order
is_coherent-invariants_hold s h = ground (
  arith,
  h,
  h_below-compatible s.high_ballot s.current_ballot,
  h_below-compatible s.commit s.high_ballot,
)

set_prepared-p_order :
    (s : BallotProtocol) (b : ScpBallot)
    → and_also s.prepared (are_ballots_less_and_compatible b) ≡ false
    → p_order s.prepared s.prepared_prime ≡ true
    → p_order (set_prepared s b).1.prepared (set_prepared s b).1.prepared_prime ≡ true
unfolding set_prepared p_order are_ballots_less_and_compatible are_ballots_less_and_incompatible
    are_ballots_compatible compare_ballots
set_prepared-p_order s b n h = ground (arith, n, h)

pub set_prepared-coherent :
    (s : BallotProtocol) (b : ScpBallot)
    → and_also s.prepared (are_ballots_less_and_compatible b) ≡ false
    → is_coherent s ≡ true
    → is_coherent (set_prepared s b).1 ≡ true
unfolding is_coherent set_prepared
set_prepared-coherent s b n h = ground (arith, h, set_prepared-p_order s b n (ground (arith, h)))

pub clear_commit-coherent :
    (s : BallotProtocol) (x : Bool × BallotProtocol)
    → clear_commit s ≡ ok x
    → is_coherent s ≡ true
    → is_coherent x.1 ≡ true
unfolding is_coherent clear_commit h_below
clear_commit-coherent s x e h = ground (arith, e, h)

bump_to_ballot-coherent :
    (s : BallotProtocol) (b : ScpBallot) (t : BallotProtocol)
    → (b.counter == 0) ≡ false
    → or_else s.commit (are_ballots_compatible b) ≡ true
    → bump_to_ballot s b true ≡ ok t
    → is_coherent s ≡ true
    → is_coherent t ≡ true
unfolding is_coherent bump_to_ballot b_positive h_below are_ballots_compatible compare_ballots
bump_to_ballot-coherent s b t n c e h = ground (arith, n, c, e, h)

-- Where h was raised to `new`, which the current ballot may still have to follow.
unfoldable pub awaits : ScpBallot → BallotProtocol → Bool
awaits new s =
    b_positive s.current_ballot
    && p_order s.prepared s.prepared_prime
    && or_else s.high_ballot (λ h.
      and_also s.current_ballot (within h)
      || (h.counter == new.counter
          && h.value == new.value
          && or_else s.current_ballot (are_ballots_compatible new)))
    && h_below s.commit s.high_ballot
    && or_else s.commit (are_ballots_compatible new)
    && fits_phase s.phase s

stays-coherent :
    (s : BallotProtocol) (new : ScpBallot)
    → or_else s.current_ballot (λ b. is_below (compare_ballots b new)) ≡ false
    → awaits new s ≡ true
    → is_coherent s ≡ true
unfolding is_coherent awaits h_below are_ballots_compatible compare_ballots
stays-coherent s new n h = ground (arith, n, h)

bump_awaits-coherent :
    (s : BallotProtocol) (new : ScpBallot) (check : Bool) (t : BallotProtocol)
    → (new.counter == 0) ≡ false
    → or_else s.current_ballot (λ b. is_below (compare_ballots b new)) ≡ true
    → awaits new s ≡ true
    → bump_to_ballot s new check ≡ ok t
    → is_coherent t ≡ true
unfolding is_coherent awaits h_below bump_to_ballot b_positive are_ballots_compatible
    compare_ballots
bump_awaits-coherent s new check t n k h e = ground (arith, n, k, h, e)

pub update_current_if_needed-coherent :
    (s : BallotProtocol) (new : ScpBallot) (x : Bool × BallotProtocol)
    → (new.counter == 0) ≡ false
    → awaits new s ≡ true
    → update_current_if_needed s new ≡ ok x
    → is_coherent x.1 ≡ true
unfolding update_current_if_needed
update_current_if_needed-coherent s new x n h e =
    elim (Bool-cases (or_else s.current_ballot (λ b. is_below (compare_ballots b new)))) [
      | inr stays ↦ ground (arith, e, stays, stays-coherent s new stays h)
      | inl bumps ↦
          let (t, p, q) =
            bind_ok (bump_to_ballot s new true) (λ s'. ok (true, s')) x
              (ground (arith, e, bumps)) in
          ground (arith, q, bump_awaits-coherent s new true t n bumps h p)
    ]

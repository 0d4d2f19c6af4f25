-- ===== src/Scp/BallotState/Local.antt =====
-- The part of `Advances` for the functions of scp/BallotProtocol.cpp that change the ballots only.
use essa_core.Prelude.{
  ◌≤◌, ◌≡◌, inl, inr, refl, sym, ◌∙◌, Bool, true, false, arith, Bool-cases, not, ◌&&◌, ◌||◌,
}
use essa_core.Prelude.Result.{Result-cases, ok, ok_injective, bind_ok, either, ◌>>=◌}
use essa_core.Scp.Ballot.{ScpBallot, compare_ballots, is_below, are_ballots_compatible}
use essa_core.Scp.BallotState.{
  is_externalize, BallotProtocol, bump_to_ballot, update_current_if_needed, update_current_value,
  check_invariants, set_prepared, clear_commit, or_else, and_also, is_some,
}
use mathlib.Core.Path.{subst}
use essa_core.Scp.BallotState.Advances.{rank, Advances, Newer, Newer-refl, Raises, Raises-trans}

-- The part of it that a function keeps which may change a commit.
pub record Local (s s' : BallotProtocol) : Type 0 where
  pub phase : rank s.phase ≤ rank s'.phase
  pub level : s'.message_level ≡ s.message_level
  pub envelopes : s'.latest_envelopes ≡ s.latest_envelopes
  pub counter : Raises s s'

pub Local_refl : (s : BallotProtocol) → Local s s
Local_refl s = record {
  phase = omega arith;
  level = refl;
  envelopes = refl;
  counter = λ _. omega arith;
}

pub Local_trans : (a b c : BallotProtocol) → Local a b → Local b c → Local a c
Local_trans a b c f g = record {
  phase = omega (arith, f.phase, g.phase);
  level = g.level ∙ f.level;
  envelopes = g.envelopes ∙ f.envelopes;
  counter = Raises-trans a b c f.phase g.phase f.counter g.counter;
}

pub Local-Advances :
    (s s' : BallotProtocol) → is_externalize s.phase ≡ false → Local s s' → Advances s s'
Local-Advances s s' going f = record {
  phase = f.phase;
  level = f.level;
  commit = λ e. absurd (ground arith);
  high = λ e. absurd (ground arith);
  newer = subst (Newer s.latest_envelopes) (sym f.envelopes) (Newer-refl s.latest_envelopes);
  counter = f.counter;
}

pub bump_to_ballot-Local :
    (s : BallotProtocol) (b : ScpBallot) (t : BallotProtocol)
    → bump_to_ballot s b true ≡ ok t
    → Local s t
unfolding bump_to_ballot compare_ballots
bump_to_ballot-Local s b t h = record {
  phase = ground (arith, h);
  level = ground (arith, h);
  envelopes = ground (arith, h);
  counter = λ _. ground (arith, h);
}

-- The state that is returned with a flag.
pub moved :
    {s t : BallotProtocol} {b : Bool} {x : Bool × BallotProtocol}
    → Local s t
    → ok (b, t) ≡ ok x
    → Local s x.1
moved {s = s} f q = subst (λ r. Local s r.1) (ok_injective q) f

pub update_current_if_needed-Local :
    (s : BallotProtocol) (b : ScpBallot) (x : Bool × BallotProtocol)
    → update_current_if_needed s b ≡ ok x
    → Local s x.1
unfolding update_current_if_needed
update_current_if_needed-Local s b x h =
    either (λ y. Local s y.1) (or_else s.current_ballot (λ old. is_below (compare_ballots old b)))
      (bump_to_ballot s b true >>= λ t. ok (true, t)) (ok (false, s))
      (λ _ y e.
        let (t, p, q) = bind_ok (bump_to_ballot s b true) _ y e in
        moved (bump_to_ballot-Local s b t p) q)
      (λ _ y e. moved (Local_refl s) e) x h

pub update_current_value-Local :
    (s : BallotProtocol) (b : ScpBallot) (x : Bool × BallotProtocol)
    → update_current_value s b ≡ ok x
    → Local s x.1
unfolding update_current_value check_invariants
update_current_value-Local s b x h =
    let stays =
      is_externalize s.phase
      || (is_some s.current_ballot && and_also s.commit (λ c. not (are_ballots_compatible c b))) in
    elim (Bool-cases stays) [
      | inl idle ↦ let e : ok (false, s) ≡ ok x = ground (arith, h, idle) in moved (Local_refl s) e
      | inr goes ↦ elim (Result-cases (update_current_if_needed s b)) [
        | inl (err, q) ↦ absurd (ground (arith, h, q, goes))
        | inr (t, q) ↦
            let e : ok (t.0, t.1) ≡ ok x = ground (arith, h, q, goes) in
            moved (update_current_if_needed-Local s b t q) e
      ]
    ]

pub set_prepared-Local : (s : BallotProtocol) (b : ScpBallot) → Local s (set_prepared s b).1
unfolding set_prepared
set_prepared-Local s b = record {
  phase = ground arith;
  level = ground arith;
  envelopes = ground arith;
  counter = λ _. ground arith;
}

pub clear_commit-Local :
    (s : BallotProtocol) (x : Bool × BallotProtocol) → clear_commit s ≡ ok x → Local s x.1
unfolding clear_commit
clear_commit-Local s x h = record {
  phase = ground (arith, h);
  level = ground (arith, h);
  envelopes = ground (arith, h);
  counter = λ _. ground (arith, h);
}

-- ===== src/Scp/BallotMoves/Coherent.antt =====
-- What checkInvariants asserts, before and after the moves in PREPARE.
use essa_core.Prelude.{
  ℕ, ◌≡◌, Bool, true, false, not, ◌&&◌, ◌||◌, ◌==◌, arith, Option, some, inl, inr, Bool-cases,
}
use essa_core.Prelude.Result.{ok, bind_ok}
use essa_core.Scp.Ballot.{
  ScpBallot, compare_ballots, are_ballots_compatible, are_ballots_less_and_compatible,
}
use essa_core.Scp.BallotState.{
  BallotProtocol, is_prepare, is_some, and_also, or_else, set_prepared, clear_commit,
  update_current_if_needed,
}
use essa_core.Scp.BallotState.Invariant.{
  is_coherent, h_below, set_prepared-coherent, clear_commit-coherent, within, awaits,
  update_current_if_needed-coherent,
}
use essa_core.Scp.BallotMoves.{
  accept_prepared, raise_high, raise_commit, raise_both, confirm_prepared,
}

-- p and p' set, and the commit cleared.
pub accept_prepared-coherent :
    (s : BallotProtocol) (b : ScpBallot) (x : Bool × BallotProtocol)
    → is_coherent s ≡ true
    → and_also s.prepared (are_ballots_less_and_compatible b) ≡ false
    → accept_prepared s b ≡ ok x
    → is_coherent x.1 ≡ true
unfolding accept_prepared
accept_prepared-coherent s b x h n e =
    let (t, p, q) = bind_ok (clear_commit (set_prepared s b).1) _ x e in
    let f = clear_commit-coherent (set_prepared s b).1 t p (set_prepared-coherent s b n h) in
    ground (arith, q, f)

-- What a commit becomes: kept, or a new one under h.
abbrev pub fits_commit : BallotProtocol → ScpBallot → ScpBallot → Bool
fits_commit s c h = c.counter == 0 || (not (is_some s.commit) && within c h)

raise_high-awaits :
    (s : BallotProtocol) (h : ScpBallot)
    → is_coherent s ≡ true
    → or_else s.commit (are_ballots_compatible h) ≡ true
    → or_else s.current_ballot (λ b. are_ballots_compatible b h) ≡ true
    → awaits h (raise_high s h).1 ≡ true
unfolding is_coherent awaits raise_high h_below are_ballots_compatible compare_ballots
raise_high-awaits s h inv k m = ground (arith, inv, k, m)

raise_high-reaches :
    (s : BallotProtocol) (c h : ScpBallot)
    → is_coherent s ≡ true
    → or_else s.current_ballot (λ b. are_ballots_compatible b h) ≡ true
    → within c h ≡ true
    → h_below (some c) (raise_high s h).1.high_ballot ≡ true
unfolding is_coherent raise_high h_below are_ballots_compatible compare_ballots
raise_high-reaches s c h inv k m = ground (arith, inv, k, m)

raise_commit-awaits :
    (s : BallotProtocol) (c h : ScpBallot) (x : Bool × BallotProtocol)
    → is_prepare s.phase ≡ true
    → awaits h s ≡ true
    → (c.counter == 0 || (within c h && h_below (some c) s.high_ballot)) ≡ true
    → raise_commit s c ≡ ok x
    → awaits h x.1 ≡ true
unfolding awaits raise_commit h_below are_ballots_compatible
raise_commit-awaits s c h x ph inv k e = ground (arith, ph, inv, k, e)

coherent-awaits :
    (s : BallotProtocol) (h : ScpBallot)
    → is_coherent s ≡ true
    → or_else s.commit (are_ballots_compatible h) ≡ true
    → awaits h s ≡ true
unfolding is_coherent awaits h_below are_ballots_compatible
coherent-awaits s h inv k = ground (arith, inv, k)

raise_high-prepare :
    (s : BallotProtocol) (h : ScpBallot)
    → is_prepare s.phase ≡ true
    → is_prepare (raise_high s h).1.phase ≡ true
unfolding raise_high
raise_high-prepare s h ph = ground (arith, ph)

overridden :
    (s : BallotProtocol) (v : Option ℕ)
    → is_coherent s ≡ true
    → is_coherent (record s { value_override = v }) ≡ true
unfolding is_coherent
overridden s v inv = ground (arith, inv)

raise_both-awaits :
    (s : BallotProtocol) (c h : ScpBallot) (x : Bool × BallotProtocol)
    → is_coherent s ≡ true
    → is_prepare s.phase ≡ true
    → or_else s.commit (are_ballots_compatible h) ≡ true
    → fits_commit s c h ≡ true
    → raise_both s c h ≡ ok x
    → awaits h x.1 ≡ true
unfolding raise_both
raise_both-awaits s c h x inv ph k m e =
    elim (Bool-cases (or_else s.current_ballot (λ b. are_ballots_compatible b h))) [
      | inr other ↦ ground (arith, e, other, coherent-awaits s h inv k)
      | inl near ↦
          let (t, p, q) =
            bind_ok (raise_commit (raise_high s h).1 c) (λ t. ok ((raise_high s h).0 || t.0, t.1)) x
              (ground (arith, e, near)) in
          let f =
            raise_commit-awaits (raise_high s h).1 c h t (raise_high-prepare s h ph)
              (raise_high-awaits s h inv k near)
              (ground (arith, m, raise_high-reaches s c h inv near)) p in
          ground (arith, q, f)
    ]

-- h raised, and a commit set under it.
pub confirm_prepared-coherent :
    (s : BallotProtocol) (c h : ScpBallot) (x : Bool × BallotProtocol)
    → is_coherent s ≡ true
    → is_prepare s.phase ≡ true
    → (h.counter == 0) ≡ false
    → or_else s.commit (are_ballots_compatible h) ≡ true
    → fits_commit s c h ≡ true
    → confirm_prepared s c h ≡ ok x
    → is_coherent x.1 ≡ true
unfolding confirm_prepared
confirm_prepared-coherent s c h x inv ph n k m e =
    let s1 : BallotProtocol = record s { value_override = some h.value } in
    let (t, p, q) = bind_ok (raise_both s1 c h) _ x e in
    let (u, p', q') = bind_ok (update_current_if_needed t.1 h) _ x q in
    let f = raise_both-awaits s1 c h t (overridden s (some h.value) inv) ph k m p in
    ground (arith, q', update_current_if_needed-coherent t.1 h u n f p')

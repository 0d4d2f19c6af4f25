-- ===== src/Scp/BallotMoves/Settled.antt =====
-- What checkInvariants asserts, before and after a commit is accepted or confirmed.
use mathlib.Core.Path.{ap}
use essa_core.Prelude.{
  ◌≤◌, ◌≡◌, Bool, true, false, ◌&&◌, ◌||◌, ◌==◌, arith, some, inl, inr, sym, ◌∙◌, Bool-cases,
}
use essa_core.Prelude.Result.{ok, bind_ok, deref, deref_ok, ok_injective}
use essa_core.Scp.Ballot.{
  ScpBallot, compare_ballots, are_ballots_compatible, are_ballots_less_and_compatible,
}
use essa_core.Scp.BallotState.{
  BallotProtocol, phase_externalize, is_prepare, is_confirm, is_externalize, and_also,
  bump_to_ballot, update_current_if_needed,
}
use essa_core.Scp.BallotState.Invariant.{
  is_coherent, b_positive, p_order, h_below, within, awaits, update_current_if_needed-coherent,
}
use essa_core.Scp.BallotState.Advances.{rank}
use essa_core.Scp.BallotState.Local.{update_current_if_needed-Local}
use essa_core.Scp.BallotMoves.{
  enter_confirm, moves_commit, with_commit, update_to_high, accept_commit, confirm_commit,
}

with_commit-awaits :
    (s : BallotProtocol) (c h : ScpBallot)
    → is_coherent s ≡ true
    → within c h ≡ true
    → and_also s.high_ballot (are_ballots_compatible h) ≡ true
    → is_externalize s.phase ≡ false
    → (y : ScpBallot) → (with_commit s c h).high_ballot ≡ some y
    → (h.counter == 0) ≡ false
    → (awaits y (with_commit s c h) ≡ true) × ((y.counter == 0) ≡ false)
unfolding is_coherent awaits with_commit moves_commit h_below are_ballots_compatible compare_ballots
with_commit-awaits s c h inv k m g y e n = (ground (arith, inv, k, m, g, e), ground (arith, e, n))

abbrev same : ScpBallot → ScpBallot → Bool
same x y = x.counter == y.counter && x.value == y.value

-- c and h are set.
unfoldable placed : ScpBallot → ScpBallot → BallotProtocol → Bool
placed c h s =
    b_positive s.current_ballot
    && p_order s.prepared s.prepared_prime
    && and_also s.high_ballot (same h)
    && and_also s.commit (same c)

with_commit-placed :
    (s : BallotProtocol) (c h : ScpBallot)
    → is_coherent s ≡ true
    → placed c h (with_commit s c h) ≡ true
unfolding is_coherent placed with_commit moves_commit compare_ballots
with_commit-placed s c h inv = ground (arith, inv)

enter_confirm-awaits :
    (s : BallotProtocol) (c h y : ScpBallot) (t : BallotProtocol)
    → placed c h s ≡ true
    → within c h ≡ true
    → (h.counter == 0) ≡ false
    → is_prepare s.phase ≡ true
    → enter_confirm s h ≡ ok t
    → t.high_ballot ≡ some y
    → (awaits y t ≡ true) × ((y.counter == 0) ≡ false)
unfolding awaits placed enter_confirm bump_to_ballot b_positive p_order h_below
    are_ballots_less_and_compatible are_ballots_compatible compare_ballots
enter_confirm-awaits s c h y t inv k n ph e f =
    (ground (arith, inv, k, n, ph, e, f), ground (arith, inv, n, ph, e, f))

update_to_high-coherent :
    (s : BallotProtocol) (x : Bool × BallotProtocol)
    → ((y : ScpBallot) → s.high_ballot ≡ some y → (awaits y s ≡ true) × ((y.counter == 0) ≡ false))
    → update_to_high s ≡ ok x
    → is_coherent x.1 ≡ true
unfolding update_to_high
update_to_high-coherent s x f e =
    let (y, p, q) = bind_ok (deref s.high_ballot) _ x e in
    let (ready, n) = f y (deref_ok s.high_ballot y p) in
    update_current_if_needed-coherent s y x n ready q

with_commit-stays :
    (s : BallotProtocol) (c h : ScpBallot)
    → is_coherent s ≡ true
    → moves_commit s c h ≡ false
    → is_coherent (with_commit s c h) ≡ true
unfolding is_coherent with_commit
with_commit-stays s c h inv k = ground (arith, inv, k)

with_commit-phase : (s : BallotProtocol) (c h : ScpBallot) → (with_commit s c h).phase ≡ s.phase
unfolding with_commit
with_commit-phase s c h = ground arith

enter_confirm-stays :
    (s : BallotProtocol) (h : ScpBallot) → is_prepare s.phase ≡ false → enter_confirm s h ≡ ok s
unfolding enter_confirm
enter_confirm-stays s h k = ground (arith, k)

accept_prepare :
    (s : BallotProtocol) (c h : ScpBallot) (x : Bool × BallotProtocol)
    → is_coherent s ≡ true
    → within c h ≡ true
    → (h.counter == 0) ≡ false
    → is_prepare s.phase ≡ true
    → accept_commit s c h ≡ ok x
    → is_coherent x.1 ≡ true
unfolding accept_commit
accept_prepare s c h x inv k n ph e =
    let w = with_commit s c h in
    let (t, p, q) = bind_ok (enter_confirm w h) _ x e in
    let (u, p', q') = bind_ok (update_to_high t) (λ u. ok (true, u.1)) x (ground (arith, q, ph)) in
    let f =
      update_to_high-coherent t u
        (λ y.
          enter_confirm-awaits w c h y t (with_commit-placed s c h inv) k n
            (ground (arith, ph, with_commit-phase s c h)) p)
        p' in
    ground (arith, q', f)

accept_confirm :
    (s : BallotProtocol) (c h : ScpBallot) (x : Bool × BallotProtocol)
    → is_coherent s ≡ true
    → within c h ≡ true
    → (h.counter == 0) ≡ false
    → is_prepare s.phase ≡ false
    → is_externalize s.phase ≡ false
    → and_also s.high_ballot (are_ballots_compatible h) ≡ true
    → accept_commit s c h ≡ ok x
    → is_coherent x.1 ≡ true
unfolding accept_commit
accept_confirm s c h x inv k n ph going m e =
    let w = with_commit s c h in
    let (t, p, q) = bind_ok (enter_confirm w h) _ x e in
    let same_state : t ≡ w =
      ok_injective
        (sym p ∙ enter_confirm-stays w h (ap is_prepare (with_commit-phase s c h) ∙ ph)) in
    elim (Bool-cases (moves_commit s c h)) [
      | inr stays ↦
          ground (arith, q, ph, stays, ap is_coherent same_state, with_commit-stays s c h inv stays)
      | inl moves ↦
          let (u, p', q') =
            bind_ok (update_to_high t) (λ u. ok (true, u.1)) x (ground (arith, q, moves)) in
          let f =
            update_to_high-coherent w u (λ y r. with_commit-awaits s c h inv k m going y r n)
              (ap update_to_high (sym same_state) ∙ p') in
          ground (arith, q', f)
    ]

-- In PREPARE or CONFIRM.
pub accept_commit-coherent :
    (s : BallotProtocol) (c h : ScpBallot) (x : Bool × BallotProtocol)
    → is_coherent s ≡ true
    → within c h ≡ true
    → (h.counter == 0) ≡ false
    → is_externalize s.phase ≡ false
    → (is_prepare s.phase || and_also s.high_ballot (are_ballots_compatible h)) ≡ true
    → accept_commit s c h ≡ ok x
    → is_coherent x.1 ≡ true
accept_commit-coherent s c h x inv k n going m e = elim (Bool-cases (is_prepare s.phase)) [
  | inl ph ↦ accept_prepare s c h x inv k n ph e
  | inr ph ↦ accept_confirm s c h x inv k n ph going (ground (arith, m, ph)) e
]

confirm-awaits :
    (s : BallotProtocol) (c h : ScpBallot)
    → is_coherent s ≡ true
    → within c h ≡ true
    → is_confirm s.phase ≡ true
    → and_also s.commit (are_ballots_compatible h) ≡ true
    → awaits h (record s { commit = some c; high_ballot = some h }) ≡ true
unfolding is_coherent awaits h_below are_ballots_compatible
confirm-awaits s c h inv k ph m = ground (arith, inv, k, ph, m)

-- A commit under h is what EXTERNALIZE asks for.
settle-coherent :
    (s t : BallotProtocol)
    → is_confirm s.phase ≡ true
    → rank s.phase ≤ rank t.phase
    → is_coherent t ≡ true
    → is_coherent (record t { phase = phase_externalize }) ≡ true
unfolding is_coherent h_below rank
settle-coherent s t ph l inv = ground (arith, ph, l, inv)

-- From CONFIRM to EXTERNALIZE.
pub confirm_commit-coherent :
    (s : BallotProtocol) (c h : ScpBallot) (t : BallotProtocol)
    → is_coherent s ≡ true
    → within c h ≡ true
    → (h.counter == 0) ≡ false
    → is_confirm s.phase ≡ true
    → and_also s.commit (are_ballots_compatible h) ≡ true
    → confirm_commit s c h ≡ ok t
    → (is_coherent t ≡ true) × (is_externalize t.phase ≡ true)
unfolding confirm_commit
confirm_commit-coherent s c h t inv k n ph m e =
    let s1 : BallotProtocol = record s { commit = some c; high_ballot = some h } in
    let (u, p, q) = bind_ok (update_current_if_needed s1 h) _ t e in
    let f = update_current_if_needed-coherent s1 h u n (confirm-awaits s c h inv k ph m) p in
    let g = settle-coherent s1 u.1 ph (update_current_if_needed-Local s1 h u p).phase f in
    (
      ap is_coherent (ok_injective (sym q)) ∙ g,
      ap (λ r. is_externalize r.phase) (ok_injective (sym q)),
    )

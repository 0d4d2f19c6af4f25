-- ===== src/Scp/BallotMoves/Accepted.antt =====
-- What setAcceptCommit of scp/BallotProtocol.cpp leaves in the phase, the commit, h and p'.
use essa_core.Prelude.{
  ◌≡◌, ◌∙◌, Bool, true, false, ◌||◌, ◌&&◌, ◌==◌, Option, none, some, arith, inl, inr, Option-cases,
  ap,
}
use mathlib.Core.Path.{subst}
use essa_core.Prelude.Result.{ok, bind_ok, ok_injective, either, ◌>>=◌}
use essa_core.Scp.Ballot.{ScpBallot, compare_ballots, are_ballots_compatible}
use essa_core.Scp.BallotState.{
  BallotProtocol, is_prepare, is_confirm, is_externalize, and_also, bump_to_ballot,
  update_current_if_needed,
}
use essa_core.Scp.BallotMoves.{
  enter_confirm, moves_commit, with_commit, update_to_high, accept_commit,
}

-- The ballot that is there, if it is this one.
abbrev pub holds_ballot : Option ScpBallot → ScpBallot → Bool
holds_ballot o b = and_also o (λ old. old.counter == b.counter && old.value == b.value)

-- In CONFIRM, with this commit and this h.
pub record Accepted (c h : ScpBallot) (t : BallotProtocol) : Type 0 where
  pub confirms : is_confirm t.phase ≡ true
  pub commits : holds_ballot t.commit c ≡ true
  pub high : holds_ballot t.high_ballot h ≡ true

with_commit-holds :
    (s : BallotProtocol) (c h : ScpBallot)
    → (holds_ballot (with_commit s c h).commit c ≡ true)
      × (holds_ballot (with_commit s c h).high_ballot h ≡ true)
      × ((with_commit s c h).phase ≡ s.phase)
unfolding with_commit moves_commit compare_ballots
with_commit-holds s c h = (ground arith, ground arith, ground arith)

enter_confirm-Accepted :
    (s : BallotProtocol) (c h : ScpBallot) (t : BallotProtocol)
    → is_externalize s.phase ≡ false
    → holds_ballot s.commit c ≡ true
    → holds_ballot s.high_ballot h ≡ true
    → enter_confirm s h ≡ ok t
    → Accepted c h t × (is_prepare s.phase ≡ true → t.prepared_prime ≡ none)
unfolding enter_confirm bump_to_ballot are_ballots_compatible
enter_confirm-Accepted s c h t going m n e = (
  record {
    confirms = ground (arith, going, e);
    commits = ground (arith, m, e);
    high = ground (arith, n, e);
  },
  λ p. ground (arith, p, e),
)

update_current_if_needed-Accepted :
    (s : BallotProtocol) (c h y : ScpBallot) (x : Bool × BallotProtocol)
    → Accepted c h s
    → s.high_ballot ≡ some y
    → update_current_if_needed s y ≡ ok x
    → Accepted c h x.1 × (x.1.prepared_prime ≡ s.prepared_prime)
unfolding update_current_if_needed bump_to_ballot are_ballots_compatible
update_current_if_needed-Accepted s c h y x f here e = (
  record {
    confirms = ground (arith, f.confirms, e);
    commits = ground (arith, f.commits, e);
    high = ground (arith, f.high, here, e);
  },
  ground (arith, e),
)

update_to_high-Accepted :
    (s : BallotProtocol) (c h : ScpBallot) (x : Bool × BallotProtocol)
    → Accepted c h s
    → update_to_high s ≡ ok x
    → Accepted c h x.1 × (x.1.prepared_prime ≡ s.prepared_prime)
unfolding update_to_high
update_to_high-Accepted s c h x f e = elim (Option-cases s.high_ballot) [
  | inl missing ↦ absurd (ground (arith, e, missing))
  | inr (y, found) ↦ update_current_if_needed-Accepted s c h y x f found (ground (arith, e, found))
]

pub accept_commit-Accepted :
    (s : BallotProtocol) (c h : ScpBallot) (x : Bool × BallotProtocol)
    → is_externalize s.phase ≡ false
    → accept_commit s c h ≡ ok x
    → Accepted c h x.1 × (is_prepare s.phase ≡ true → x.1.prepared_prime ≡ none)
unfolding accept_commit
accept_commit-Accepted s c h x going e =
    let w = with_commit s c h in
    let (m, n, same) = with_commit-holds s c h in
    let (t, p, q) = bind_ok (enter_confirm w h) _ x e in
    let (f, gone) = enter_confirm-Accepted w c h t (ap is_externalize same ∙ going) m n p in
    either (λ y. Accepted c h y.1 × (is_prepare s.phase ≡ true → y.1.prepared_prime ≡ none))
      (moves_commit s c h || is_prepare s.phase) (update_to_high t >>= λ u. ok (true, u.1))
      (ok (false, t))
      (λ _ y r.
        let (u, p', q') = bind_ok (update_to_high t) _ y r in
        let (g, prime) = update_to_high-Accepted t c h u f p' in
        subst (λ z. Accepted c h z.1 × (is_prepare s.phase ≡ true → z.1.prepared_prime ≡ none))
          (ok_injective q') (g, λ prep. prime ∙ gone (ap is_prepare same ∙ prep)))
      (λ _ y r.
        subst (λ z. Accepted c h z.1 × (is_prepare s.phase ≡ true → z.1.prepared_prime ≡ none))
          (ok_injective r) (f, λ prep. gone (ap is_prepare same ∙ prep)))
      x q

-- ===== src/Scp/BallotAttempts/Keeps.antt =====
-- The attempts and `Advances`: what an attempt does is one of the moves, or nothing.
use essa_core.Prelude.{
  ◌≡◌, Bool, true, false, arith, not, ◌||◌, ◌&&◌, ◌==◌, List, [], ◌∷◌, if◌then◌else◌, inl, inr,
  Bool-cases, Option-cases,
}
use essa_core.Prelude.Result.{Result, ok, bind_ok, ◌>>=◌, either}
use essa_core.Scp.Ballot.{ScpBallot, Pledges, are_ballots_compatible}
use essa_core.Scp.Federated.{Context}
use essa_core.Scp.BallotState.{
  BallotProtocol, is_prepare, is_confirm, is_externalize, and_also, is_some, Phase,
}
use essa_core.Scp.BallotState.Advances.{Advances, After, idle}
use essa_core.Scp.BallotSteps.{ballot_at, get_prepare_candidates}
use essa_core.Scp.BallotMoves.{set_prepared_accept, set_accept_commit, set_confirm_commit}
use essa_core.Scp.BallotMoves.Keeps.{
  set_prepared_accept-Advances, set_prepared_confirmed-Advances, set_accept_commit-Advances,
  set_confirm_commit-Advances,
}
use essa_core.Scp.BallotAttempts.{
  passes_over, accepts_prepared, accept_first, attempt_prepared_accept, find_new_high,
  new_commit_for, attempt_prepared_confirmed, confirms_other, high_reaches, accept_hint,
  accept_interval, ratify_interval, accept_commit_of, attempt_accept_commit, confirm_hint,
  confirm_commit_of, attempt_confirm_commit,
}

prepare_open : (p : Phase) → is_prepare p ≡ true → is_externalize p ≡ false
prepare_open p h = ground arith

confirm_open : (p : Phase) → is_confirm p ≡ true → is_externalize p ≡ false
confirm_open p h = ground arith

module _ (ctx : Context) (emit : BallotProtocol → Result BallotProtocol)
    (emits : (s t : BallotProtocol) → emit s ≡ ok t → Advances s t) (s : BallotProtocol) where
  accept_first-Advances :
      is_externalize s.phase ≡ false
      → (bs : List ScpBallot) (x : Bool × BallotProtocol) → accept_first ctx emit s bs ≡ ok x
      → After s x
  unfolding accept_first
  accept_first-Advances going [] x e = idle s x e
  accept_first-Advances going (b ∷ bs) x e =
      let (over, p, q) = bind_ok (passes_over s b) _ x e in
      either (After s) over (accept_first ctx emit s bs)
        (if accepts_prepared ctx s b
          then set_prepared_accept emit s b
          else accept_first ctx emit s bs)
        (λ _. accept_first-Advances going bs)
        (λ _.
          either (After s) (accepts_prepared ctx s b) (set_prepared_accept emit s b)
            (accept_first ctx emit s bs)
            (λ _ y. set_prepared_accept-Advances emit emits s b y going)
            (λ _. accept_first-Advances going bs))
        x q

  pub attempt_prepared_accept-Advances :
      (hint : Pledges) (x : Bool × BallotProtocol)
      → attempt_prepared_accept ctx emit s hint ≡ ok x
      → After s x
  unfolding attempt_prepared_accept
  attempt_prepared_accept-Advances hint x e =
      either (After s) (is_externalize s.phase) (ok (false, s))
        (accept_first ctx emit s (get_prepare_candidates s hint)) (λ _. idle s)
        (λ going. accept_first-Advances going (get_prepare_candidates s hint)) x e

  pub attempt_prepared_confirmed-Advances :
      (hint : Pledges) (x : Bool × BallotProtocol)
      → attempt_prepared_confirmed ctx emit s hint ≡ ok x
      → After s x
  unfolding attempt_prepared_confirmed
  attempt_prepared_confirmed-Advances hint x e =
      elim (Bool-cases (is_prepare s.phase && is_some s.prepared)) [
        | inr no_p ↦ idle s x (ground (arith, e, no_p))
        | inl yes_p ↦ elim (Option-cases (find_new_high ctx s (get_prepare_candidates s hint))) [
          | inl missing ↦ idle s x (ground (arith, e, yes_p, missing))
          | inr ((new_h, from), found) ↦
              set_prepared_confirmed-Advances emit emits s (new_commit_for ctx s new_h from) new_h x
                (prepare_open s.phase (ground (arith, yes_p))) (ground (arith, e, yes_p, found))
        ]
      ]

  accept_commit_of-Advances :
      is_externalize s.phase ≡ false
      → (b : ScpBallot) (x : Bool × BallotProtocol) → accept_commit_of ctx emit s b ≡ ok x
      → After s x
  unfolding accept_commit_of
  accept_commit_of-Advances going b x e =
      let interval = accept_interval ctx s b in
      let low = ballot_at interval.0 b.value in
      let high = ballot_at interval.1 b.value in
      let (other, p, q) = bind_ok (confirms_other s b) _ x e in
      either (After s) (other || interval.0 == 0) (ok (false, s))
        (high_reaches s interval.1 >>= λ reached.
          if reached then ok (false, s) else set_accept_commit emit s low high)
        (λ _. idle s)
        (λ _ y r.
          let (reached, p', q') = bind_ok (high_reaches s interval.1) _ y r in
          either (After s) reached (ok (false, s)) (set_accept_commit emit s low high) (λ _. idle s)
            (λ _ z. set_accept_commit-Advances emit emits s low high z going) y q')
        x q

  pub attempt_accept_commit-Advances :
      (hint : Pledges) (x : Bool × BallotProtocol)
      → attempt_accept_commit ctx emit s hint ≡ ok x
      → After s x
  unfolding attempt_accept_commit
  attempt_accept_commit-Advances hint x e = elim (Bool-cases (is_externalize s.phase)) [
    | inl done ↦ idle s x (ground (arith, e, done))
    | inr going ↦ elim (Option-cases (accept_hint hint)) [
      | inl none_h ↦ idle s x (ground (arith, e, going, none_h))
      | inr (b, found) ↦ accept_commit_of-Advances going b x (ground (arith, e, going, found))
    ]
  ]

  confirm_commit_of-Advances :
      is_externalize s.phase ≡ false
      → (b : ScpBallot) (x : Bool × BallotProtocol) → confirm_commit_of ctx emit s b ≡ ok x
      → After s x
  unfolding confirm_commit_of
  confirm_commit_of-Advances going b x e =
      let interval = ratify_interval ctx s b in
      let low = ballot_at interval.0 b.value in
      let high = ballot_at interval.1 b.value in
      either (After s) (and_also s.commit (are_ballots_compatible b) && not (interval.0 == 0))
        (set_confirm_commit emit s low high) (ok (false, s))
        (λ _ y. set_confirm_commit-Advances emit emits s low high y going) (λ _. idle s) x e

  pub attempt_confirm_commit-Advances :
      (hint : Pledges) (x : Bool × BallotProtocol)
      → attempt_confirm_commit ctx emit s hint ≡ ok x
      → After s x
  unfolding attempt_confirm_commit
  attempt_confirm_commit-Advances hint x e =
      elim (Bool-cases (is_confirm s.phase && is_some s.high_ballot && is_some s.commit)) [
        | inr stops ↦ idle s x (ground (arith, e, stops))
        | inl may ↦ elim (Option-cases (confirm_hint hint)) [
          | inl none_h ↦ idle s x (ground (arith, e, may, none_h))
          | inr (b, found) ↦
              confirm_commit_of-Advances (confirm_open s.phase (ground (arith, may))) b x
                (ground (arith, e, may, found))
        ]
      ]

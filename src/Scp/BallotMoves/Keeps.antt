-- ===== src/Scp/BallotMoves/Keeps.antt =====
-- The moves of scp/BallotProtocol.cpp and `Advances`.
use essa_core.Prelude.{◌≡◌, ◌≤◌, sym, ◌||◌, Bool, true, false, refl, arith, some, ◌∷◌}
use mathlib.Core.Path.{subst}
use essa_core.Prelude.Result.{Result, ok, deref, bind_ok, ok_injective, either, ◌>>=◌}
use essa_core.Scp.Ballot.{ScpBallot, are_ballots_compatible}
use essa_core.Scp.BallotState.{
  BallotProtocol, phase_externalize, is_externalize, set_prepared, clear_commit,
  update_current_if_needed, bump_to_ballot, counter_of, or_else, is_prepare,
}
use essa_core.Scp.BallotState.Advances.{
  rank, Advances, Advances-trans, Advances-refl, Advances-same, returned,
}
use essa_core.Scp.BallotState.Local.{
  Local, Local_refl, Local_trans, Local-Advances, moved, update_current_if_needed-Local,
  set_prepared-Local, clear_commit-Local,
}
use essa_core.Scp.BallotMoves.{
  finish, accept_prepared, set_prepared_accept, raise_high, raise_commit, confirm_prepared,
  set_prepared_confirmed, moves_commit, raise_both, update_to_high, with_commit, enter_confirm,
  accept_commit, set_accept_commit, confirm_commit, set_confirm_commit,
}

pub accept_prepared-Local :
    (s : BallotProtocol) (b : ScpBallot) (x : Bool × BallotProtocol)
    → accept_prepared s b ≡ ok x
    → Local s x.1
unfolding accept_prepared
accept_prepared-Local s b x h =
    let (t, p, q) = bind_ok (clear_commit (set_prepared s b).1) _ x h in
    moved (Local_trans _ _ _ (set_prepared-Local s b) (clear_commit-Local (set_prepared s b).1 t p))
      q

-- A step that leaves the phase, the level, the statements and the current ballot.
Local-same :
    (s t : BallotProtocol)
    → t.phase ≡ s.phase
    → t.message_level ≡ s.message_level
    → t.latest_envelopes ≡ s.latest_envelopes
    → t.current_ballot ≡ s.current_ballot
    → Local s t
Local-same s t p l e b = record {
  phase = subst (λ q. rank s.phase ≤ rank q) (sym p) (omega arith);
  level = l;
  envelopes = e;
  counter = λ _. subst (λ o. counter_of s.current_ballot ≤ counter_of o) (sym b) (omega arith);
}

raise_high-Local : (s : BallotProtocol) (h : ScpBallot) → Local s (raise_high s h).1
unfolding raise_high
raise_high-Local s h =
    Local-same s (raise_high s h).1 (ground arith) (ground arith) (ground arith) (ground arith)

raise_commit-Local :
    (s : BallotProtocol) (c : ScpBallot) (x : Bool × BallotProtocol)
    → raise_commit s c ≡ ok x
    → Local s x.1
unfolding raise_commit
raise_commit-Local s c x h =
    Local-same s x.1 (ground (arith, h)) (ground (arith, h)) (ground (arith, h)) (ground (arith, h))

raise_both-Local :
    (s : BallotProtocol) (c h : ScpBallot) (x : Bool × BallotProtocol)
    → raise_both s c h ≡ ok x
    → Local s x.1
unfolding raise_both
raise_both-Local s c h x e =
    either (λ y. Local s y.1) (or_else s.current_ballot (λ b. are_ballots_compatible b h))
      (raise_commit (raise_high s h).1 c >>= λ t. ok ((raise_high s h).0 || t.0, t.1))
      (ok (false, s))
      (λ _ y r.
        let (t, p, q) = bind_ok (raise_commit (raise_high s h).1 c) _ y r in
        moved
          (Local_trans _ _ _ (raise_high-Local s h) (raise_commit-Local (raise_high s h).1 c t p))
          q)
      (λ _ y r. moved (Local_refl s) r) x e

pub confirm_prepared-Local :
    (s : BallotProtocol) (c h : ScpBallot) (x : Bool × BallotProtocol)
    → confirm_prepared s c h ≡ ok x
    → Local s x.1
unfolding confirm_prepared
confirm_prepared-Local s c h x e =
    let s1 : BallotProtocol = record s { value_override = some h.value } in
    let (t, p, q) = bind_ok (raise_both s1 c h) _ x e in
    let (u, p', q') = bind_ok (update_current_if_needed t.1 h) _ x q in
    moved
      (Local_trans s t.1 u.1
        (Local_trans s s1 t.1 (Local-same s s1 refl refl refl refl) (raise_both-Local s1 c h t p))
        (update_current_if_needed-Local t.1 h u p'))
      q'

-- From PREPARE to CONFIRM the counter may go down.
enter_confirm-Local :
    (s : BallotProtocol) (h : ScpBallot) (t : BallotProtocol) → enter_confirm s h ≡ ok t → Local s t
unfolding enter_confirm bump_to_ballot rank
enter_confirm-Local s h t e = record {
  phase = ground (arith, e);
  level = ground (arith, e);
  envelopes = ground (arith, e);
  counter = λ l. ground (arith, e, l);
}

with_commit-Local : (s : BallotProtocol) (c h : ScpBallot) → Local s (with_commit s c h)
unfolding with_commit
with_commit-Local s c h =
    Local-same s (with_commit s c h) (ground arith) (ground arith) (ground arith) (ground arith)

update_to_high-Local :
    (s : BallotProtocol) (x : Bool × BallotProtocol) → update_to_high s ≡ ok x → Local s x.1
unfolding update_to_high
update_to_high-Local s x e =
    let (h, p, q) = bind_ok (deref s.high_ballot) _ x e in update_current_if_needed-Local s h x q

pub accept_commit-Local :
    (s : BallotProtocol) (c h : ScpBallot) (x : Bool × BallotProtocol)
    → accept_commit s c h ≡ ok x
    → Local s x.1
unfolding accept_commit
accept_commit-Local s c h x e =
    let (t, p, q) = bind_ok (enter_confirm (with_commit s c h) h) _ x e in
    let f =
      Local_trans s (with_commit s c h) t (with_commit-Local s c h)
        (enter_confirm-Local (with_commit s c h) h t p) in
    either (λ y. Local s y.1) (moves_commit s c h || is_prepare s.phase)
      (update_to_high t >>= λ u. ok (true, u.1)) (ok (false, t))
      (λ _ y r.
        let (u, p', q') = bind_ok (update_to_high t) _ y r in
        moved (Local_trans _ _ _ f (update_to_high-Local t u p')) q')
      (λ _ y r. moved f r) x q

confirm_commit-Local :
    (s : BallotProtocol) (c h : ScpBallot) (t : BallotProtocol)
    → is_externalize s.phase ≡ false
    → confirm_commit s c h ≡ ok t
    → Local s t
unfolding confirm_commit rank
confirm_commit-Local s c h t going e =
    let s1 : BallotProtocol = record s { commit = some c; high_ballot = some h } in
    let (u, p, q) = bind_ok (update_current_if_needed s1 h) _ t e in
    let f = update_current_if_needed-Local s1 h u p in
    let g : Local s (record u.1 { phase = phase_externalize }) = record {
      phase = ground arith;
      level = f.level;
      envelopes = f.envelopes;
      counter = λ l. absurd (ground (arith, l, going));
    } in
    subst (Local s) (ok_injective q) g

-- An emission that goes on as `Advances` says makes the whole function do so.
module _ (emit : BallotProtocol → Result BallotProtocol)
    (emits : (s t : BallotProtocol) → emit s ≡ ok t → Advances s t) where
  finish-Advances :
      (did_work : Bool) (s : BallotProtocol) (x : Bool × BallotProtocol)
      → finish emit did_work s ≡ ok x
      → Advances s x.1
  finish-Advances true s x e = let (t, p, q) = bind_ok (emit s) _ x e in returned (emits s t p) q
  finish-Advances false s x e = returned (Advances-refl s) e

  pub set_prepared_accept-Advances :
      (s : BallotProtocol) (b : ScpBallot) (x : Bool × BallotProtocol)
      → is_externalize s.phase ≡ false
      → set_prepared_accept emit s b ≡ ok x
      → Advances s x.1
  unfolding set_prepared_accept
  set_prepared_accept-Advances s b x going e =
      let (t, p, q) = bind_ok (accept_prepared s b) _ x e in
      Advances-trans _ _ _ (Local-Advances _ _ going (accept_prepared-Local s b t p))
        (finish-Advances t.0 t.1 x q)

  pub set_prepared_confirmed-Advances :
      (s : BallotProtocol) (c h : ScpBallot) (x : Bool × BallotProtocol)
      → is_externalize s.phase ≡ false
      → set_prepared_confirmed emit s c h ≡ ok x
      → Advances s x.1
  unfolding set_prepared_confirmed
  set_prepared_confirmed-Advances s c h x going e =
      let (t, p, q) = bind_ok (confirm_prepared s c h) _ x e in
      Advances-trans _ _ _ (Local-Advances _ _ going (confirm_prepared-Local s c h t p))
        (finish-Advances t.0 t.1 x q)

  pub set_accept_commit-Advances :
      (s : BallotProtocol) (c h : ScpBallot) (x : Bool × BallotProtocol)
      → is_externalize s.phase ≡ false
      → set_accept_commit emit s c h ≡ ok x
      → Advances s x.1
  unfolding set_accept_commit
  set_accept_commit-Advances s c h x going e =
      let (t, p, q) = bind_ok (accept_commit s c h) _ x e in
      Advances-trans _ _ _ (Local-Advances _ _ going (accept_commit-Local s c h t p))
        (finish-Advances t.0 t.1 x q)

  pub set_confirm_commit-Advances :
      (s : BallotProtocol) (c h : ScpBallot) (x : Bool × BallotProtocol)
      → is_externalize s.phase ≡ false
      → set_confirm_commit emit s c h ≡ ok x
      → Advances s x.1
  unfolding set_confirm_commit
  set_confirm_commit-Advances s c h x going e =
      let (t, p, q) = bind_ok (confirm_commit s c h) _ x e in
      let (u, p', q') = bind_ok (emit t) _ x q in
      let (v, p'', q'') = bind_ok (deref u.commit) _ x q' in
      let f =
        Advances-trans _ _ _ (Local-Advances _ _ going (confirm_commit-Local s c h t going p))
          (emits t u p') in
      let g : Advances u (record u { externalized = v.value ∷ u.externalized }) =
        Advances-same u _ refl refl refl refl refl refl in
      returned (Advances-trans _ _ _ f g) q''

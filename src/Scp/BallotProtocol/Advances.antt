-- ===== src/Scp/BallotProtocol/Advances.antt =====
-- The whole of scp/BallotProtocol.cpp and `Advances`, through its recursion.
use mathlib.Core.Path.{subst}
use essa_core.Prelude.{
  ℕ, zero, suc, ◌+◌, ◌-◌, ◌%◌, ◌^◌, ◌≡◌, Bool, true, false, arith, ◌||◌, ◌==◌, if◌then◌else◌, inl,
  inr, Option-cases,
}
use essa_core.Prelude.Result.{either, Result, ok, bind_ok, ok_injective, ◌>>=◌}
use essa_core.Scp.Ballot.{ScpBallot, Pledges, Statement}
use essa_core.Scp.Federated.{Context}
use essa_core.Scp.BallotState.{BallotProtocol, is_externalize, update_current_value}
use essa_core.Scp.BallotState.Advances.{Advances, Advances-trans, returned, After, idle}
use essa_core.Scp.BallotState.Local.{Local-Advances, update_current_value-Local}
use essa_core.Scp.BallotSteps.{ballot_at}
use essa_core.Scp.BallotAttempts.{
  attempt_prepared_accept, attempt_prepared_confirmed, attempt_accept_commit,
  attempt_confirm_commit,
}
use essa_core.Scp.BallotAttempts.Keeps.{
  attempt_prepared_accept-Advances, attempt_prepared_confirmed-Advances,
  attempt_accept_commit-Advances, attempt_confirm_commit-Advances,
}
use essa_core.Scp.BallotProtocol.{
  process_envelope, emit_current_state_statement, bump_to_counter, or_value, bump_state_to,
  bump_state, value_of, abandon_ballot, attempt_bump, bump_while, attempt_all, bump_at_top,
  leave_level, advance_slot, advance_from_outside,
}
use essa_core.Scp.BallotCounters.{check_heard_from_quorum, bump_target}
use essa_core.Scp.BallotProtocol.Emits.{
  choice, send_latest_envelope-Advances, check_heard_from_quorum-Advances,
  process_envelope-Advances, emit_current_state_statement-Advances,
}

module _ (ctx : Context) (advance : Statement → BallotProtocol → Result BallotProtocol)
    (advances : (st : Statement) (s t : BallotProtocol) → advance st s ≡ ok t → Advances s t) where
  bump_to_counter-Advances :
      (s : BallotProtocol) (b : ScpBallot) (x : Bool × BallotProtocol)
      → is_externalize s.phase ≡ false
      → bump_to_counter ctx advance s b ≡ ok x
      → After s x
  unfolding bump_to_counter
  bump_to_counter-Advances s b x going e =
      let (t, p, q) = bind_ok (update_current_value s b) _ x e in
      let f = Local-Advances _ _ going (update_current_value-Local s b t p) in
      either (After s) t.0
        (emit_current_state_statement ctx advance t.1 >>= λ u.
          ok (true, check_heard_from_quorum ctx u))
        (ok (false, t.1))
        (λ _ y r.
          let (u, p', q') = bind_ok (emit_current_state_statement ctx advance t.1) _ y r in
          returned
            (Advances-trans _ _ _ f (
              Advances-trans _ _ _
                (emit_current_state_statement-Advances ctx advance advances t.1 u p')
                (check_heard_from_quorum-Advances ctx u)))
            q')
        (λ _ y. returned f) x q

  bump_state_to-Advances :
      (s : BallotProtocol) (v n : ℕ) (x : Bool × BallotProtocol)
      → bump_state_to ctx advance s v n ≡ ok x
      → After s x
  unfolding bump_state_to
  bump_state_to-Advances s v n x e =
      let b = ballot_at n (or_value s.value_override v) in
      either (After s) (is_externalize s.phase) (ok (false, s)) (bump_to_counter ctx advance s b)
        (λ _. idle s) (λ going y. bump_to_counter-Advances s b y going) x e

  bump_state-Advances :
      (s : BallotProtocol) (v : ℕ) (force : Bool) (x : Bool × BallotProtocol)
      → bump_state ctx advance s v force ≡ ok x
      → After s x
  unfolding bump_state
  bump_state-Advances s v force x e = elim (Option-cases s.current_ballot) [
    | inl missing ↦ bump_state_to-Advances s v 1 x (ground (arith, e, missing))
    | inr (b, found) ↦
        let n = (b.counter + 1) % 2 ^ 32 in
        either (After s) force (bump_state_to ctx advance s v n) (ok (false, s))
          (λ _. bump_state_to-Advances s v n) (λ _. idle s) x (ground (arith, e, found))
  ]

  abandon_ballot-Advances :
      (s : BallotProtocol) (n : ℕ) (x : Bool × BallotProtocol)
      → abandon_ballot ctx advance s n ≡ ok x
      → After s x
  unfolding abandon_ballot
  abandon_ballot-Advances s n x e =
      let v =
        if ctx.composite_candidate == 0
        then value_of s.current_ballot
        else ctx.composite_candidate in
      either (After s) (v == 0) (ok (false, s))
        (if n == 0 then bump_state ctx advance s v true else bump_state_to ctx advance s v n)
        (λ _. idle s)
        (λ _.
          either (After s) (n == 0) (bump_state ctx advance s v true)
            (bump_state_to ctx advance s v n) (λ _. bump_state-Advances s v true)
            (λ _. bump_state_to-Advances s v n))
        x e

  pub attempt_bump-Advances :
      (s : BallotProtocol) (x : Bool × BallotProtocol)
      → attempt_bump ctx advance s ≡ ok x
      → After s x
  unfolding attempt_bump
  attempt_bump-Advances s x e = elim (Option-cases (bump_target ctx s)) [
    | inl stays ↦ idle s x (ground (arith, e, stays))
    | inr (n, found) ↦ abandon_ballot-Advances s n x (ground (arith, e, found))
  ]

  bump_while-Advances :
      (rounds : ℕ) (s : BallotProtocol) (x : Bool × BallotProtocol)
      → bump_while ctx advance rounds s ≡ ok x
      → After s x
  unfolding bump_while
  bump_while-Advances zero s x e = absurd (ground (arith, e))
  bump_while-Advances (suc rounds) s x e =
      let (t, p, q) = bind_ok (attempt_bump ctx advance s) _ x e in
      let f = attempt_bump-Advances s t p in
      either (After s) t.0 (bump_while ctx advance rounds t.1 >>= λ u. ok (true, u.1))
        (ok (false, t.1))
        (λ _ y r.
          let (u, p', q') = bind_ok (bump_while ctx advance rounds t.1) _ y r in
          returned (Advances-trans _ _ _ f (bump_while-Advances rounds t.1 u p')) q')
        (λ _ y. returned f) x q

  attempt_all-Advances :
      (hint : Pledges) (s : BallotProtocol) (x : Bool × BallotProtocol)
      → attempt_all ctx advance hint s ≡ ok x
      → After s x
  unfolding attempt_all
  attempt_all-Advances hint s x e =
      let emit = emit_current_state_statement ctx advance in
      let emits = emit_current_state_statement-Advances ctx advance advances in
      let (a, p1, q1) = bind_ok (attempt_prepared_accept ctx emit s hint) _ x e in
      let (b, p2, q2) = bind_ok (attempt_prepared_confirmed ctx emit a.1 hint) _ x q1 in
      let (c, p3, q3) = bind_ok (attempt_accept_commit ctx emit b.1 hint) _ x q2 in
      let (d, p4, q4) = bind_ok (attempt_confirm_commit ctx emit c.1 hint) _ x q3 in
      returned
        (Advances-trans _ _ _ (attempt_prepared_accept-Advances ctx emit emits s hint a p1) (
          Advances-trans _ _ _ (attempt_prepared_confirmed-Advances ctx emit emits a.1 hint b p2) (
            Advances-trans _ _ _ (attempt_accept_commit-Advances ctx emit emits b.1 hint c p3)
              (attempt_confirm_commit-Advances ctx emit emits c.1 hint d p4))))
        q4

  bump_at_top-Advances :
      (rounds : ℕ) (s : BallotProtocol) (x : Bool × BallotProtocol)
      → bump_at_top ctx advance rounds s ≡ ok x
      → After s x
  bump_at_top-Advances rounds s x e =
      either (After s) (s.message_level == 1)
        (bump_while ctx advance rounds s >>= λ t. ok (t.0, check_heard_from_quorum ctx t.1))
        (ok (false, s))
        (λ _ y r.
          let (t, p, q) = bind_ok (bump_while ctx advance rounds s) _ y r in
          returned
            (Advances-trans _ _ _ (bump_while-Advances rounds s t p)
              (check_heard_from_quorum-Advances ctx t.1))
            q)
        (λ _. idle s) x e

leave_level-Advances :
    (s t : BallotProtocol) (did_work : Bool)
    → Advances (record s { message_level = s.message_level + 1 }) t
    → Advances s (leave_level did_work t)
unfolding leave_level
leave_level-Advances s t did_work f =
    let t1 : BallotProtocol = record t { message_level = t.message_level - 1 } in
    let g : Advances s t1 = record {
      phase = f.phase;
      level = omega (arith, f.level);
      commit = f.commit;
      high = f.high;
      newer = f.newer;
      counter = f.counter;
    } in
    choice did_work (Advances-trans _ _ _ g (send_latest_envelope-Advances t1)) g

pub advance_slot-Advances :
    (ctx : Context) (rounds levels : ℕ) (hint : Statement) (s t : BallotProtocol)
    → advance_slot ctx rounds levels hint s ≡ ok t
    → Advances s t
unfolding advance_slot
advance_slot-Advances ctx rounds zero hint s t e = absurd (ground (arith, e))
advance_slot-Advances ctx rounds (suc levels) hint s t e =
    let advance = advance_slot ctx rounds levels in
    let advances = advance_slot-Advances ctx rounds levels in
    let s0 : BallotProtocol = record s { message_level = s.message_level + 1 } in
    let (x, p, q) = bind_ok (attempt_all ctx advance hint.pledges s0) _ t e in
    let (y, p', q') = bind_ok (bump_at_top ctx advance rounds x.1) _ t q in
    let f =
      Advances-trans _ _ _ (attempt_all-Advances ctx advance advances hint.pledges s0 x p)
        (bump_at_top-Advances ctx advance advances rounds x.1 y p') in
    subst (Advances s) (ok_injective q') (leave_level-Advances s y.1 (y.0 || x.0) f)

-- An envelope that is processed to its end, from the outside or by the node itself, and with all the
-- steps it sets off, never takes the phase back, lowers the counter of the current ballot only where
-- it moves to another phase, never changes the commit and the high ballot of an externalized slot,
-- replaces the statement of a node only by a newer one, and leaves the level of recursion as it found
-- it.
pub process_envelope-progress :
    (ctx : Context) (rounds : ℕ) (s : BallotProtocol) (st : Statement) (self valid : Bool)
    (t : BallotProtocol)
    → process_envelope ctx (advance_from_outside ctx rounds) s st self ≡ ok (valid, t)
    → Advances s t
unfolding advance_from_outside
process_envelope-progress ctx rounds s st self valid t e =
    process_envelope-Advances ctx (advance_slot ctx rounds 49) (advance_slot-Advances ctx rounds 49)
      s st self (valid, t) e

-- The same holds of a ballot that is abandoned, as when its timer runs out: the value bumped to the
-- next counter, the statement emitted and all that follows from it.
pub abandon_ballot-progress :
    (ctx : Context) (rounds : ℕ) (s : BallotProtocol) (n : ℕ) (bumped : Bool) (t : BallotProtocol)
    → abandon_ballot ctx (advance_from_outside ctx rounds) s n ≡ ok (bumped, t)
    → Advances s t
unfolding advance_from_outside
abandon_ballot-progress ctx rounds s n bumped t e =
    abandon_ballot-Advances ctx (advance_slot ctx rounds 49) (advance_slot-Advances ctx rounds 49) s
      n (bumped, t) e

-- ===== src/Scp/BallotProtocol/Emits.antt =====
-- Envelopes that are processed or emitted, and `Advances`, with advanceSlot as a parameter.
use mathlib.Core.Path.{subst, ap}
use essa_core.Prelude.{
  ==_iff, ◌≡◌, Bool, true, false, refl, arith, ◌&&◌, ◌==◌, some, if◌then◌else◌, inl, inr, ◌∙◌,
  Bool-cases, Option-cases,
}
use essa_core.Prelude.Result.{Result, ok, throw, runtime, deref, bind_ok, ok_injective, either}
use essa_core.Scp.Ballot.{Statement, is_newer_statement, get_working_ballot}
use essa_core.Scp.Federated.{
  Context, Envelopes, ValidationLevel, invalid_value, maybe_valid_value, fully_validated_value,
}
use essa_core.Scp.BallotState.{BallotProtocol, is_externalize, or_else, is_some, create_statement}
use essa_core.Scp.BallotState.Advances.{
  Advances, Advances-refl, Advances-trans, Advances-same, returned, After, idle, Newer,
}
use essa_core.Scp.Envelopes.{
  find_envelope, record_envelope, is_newer_than_recorded, validate_values,
}
use essa_core.Scp.Envelopes.Recorded.{find_envelope-record_envelope}
use essa_core.Scp.BallotProtocol.{
  send_latest_envelope, lower_validation, recorded, refuses, process_settled, process_going,
  process_envelope, is_last, note_emitted, emit_own, own_statement, emit_current_state_statement,
}
use essa_core.Scp.BallotCounters.{check_heard_from_quorum}

pub choice :
    {s t u : BallotProtocol} (b : Bool)
    → Advances s t
    → Advances s u
    → Advances s (if b then t else u)
choice true f g = f
choice false f g = g

pub send_latest_envelope-Advances : (s : BallotProtocol) → Advances s (send_latest_envelope s)
unfolding send_latest_envelope
send_latest_envelope-Advances s = elim (Option-cases s.last_envelope) [
  | inl no_last ↦
      Advances-same s _ (ground (arith, no_last)) (ground (arith, no_last))
        (ground (arith, no_last)) (ground (arith, no_last)) (ground (arith, no_last))
        (ground (arith, no_last))
  | inr (st, last) ↦
      Advances-same s _ (ground (arith, last)) (ground (arith, last)) (ground (arith, last))
        (ground (arith, last)) (ground (arith, last)) (ground (arith, last))
]

pub check_heard_from_quorum-Advances :
    (ctx : Context) (s : BallotProtocol) → Advances s (check_heard_from_quorum ctx s)
unfolding check_heard_from_quorum
check_heard_from_quorum-Advances ctx s =
    Advances-same s _ (ground arith) (ground arith) (ground arith) (ground arith) (ground arith)
      (ground arith)

newer_than_found :
    (st : Statement) (envs : Envelopes) (old : Statement)
    → is_newer_than_recorded envs st ≡ true
    → find_envelope st.node_id envs ≡ some old
    → is_newer_statement old.pledges st.pledges ≡ true
unfolding is_newer_than_recorded
newer_than_found st envs old h found = ground (arith, h, found)

-- A statement that is newer than what there is of its node, or the node's first.
record_envelope-Newer :
    (st : Statement) (envs : Envelopes)
    → is_newer_than_recorded envs st ≡ true
    → Newer envs (record_envelope st envs)
unfolding is_newer_than_recorded
record_envelope-Newer st envs h id old found = elim (Bool-cases (id == st.node_id)) [
  | inl own ↦ record {
    new = st;
    found = ground (arith, find_envelope-record_envelope st envs id, own);
    newer = inr (
        newer_than_found st envs old h
          (subst (λ i. find_envelope i envs ≡ some old) ((==_iff id st.node_id).0 own) found));
  }
  | inr other ↦ record {
    new = old;
    found = ground (arith, find_envelope-record_envelope st envs id, other, found);
    newer = inl refl;
  }
]

recorded-Advances :
    (st : Statement) (s : BallotProtocol)
    → is_newer_than_recorded s.latest_envelopes st ≡ true
    → Advances s (recorded st s)
recorded-Advances st s h = record {
  phase = omega arith;
  level = refl;
  commit = λ _. refl;
  high = λ _. refl;
  newer = record_envelope-Newer st s.latest_envelopes h;
  counter = λ _. omega arith;
}

lower_validation-Advances :
    (v : ValidationLevel) (s : BallotProtocol) → Advances s (lower_validation v s)
lower_validation-Advances invalid_value s = Advances-refl s
lower_validation-Advances maybe_valid_value s = Advances-same s _ refl refl refl refl refl refl
lower_validation-Advances fully_validated_value s = Advances-refl s

lower_validation-same :
    (v : ValidationLevel) (s : BallotProtocol)
    → (lower_validation v s).latest_envelopes ≡ s.latest_envelopes
lower_validation-same invalid_value s = refl
lower_validation-same maybe_valid_value s = refl
lower_validation-same fully_validated_value s = refl

note_emitted-Advances :
    (can : Bool) (st : Statement) (s : BallotProtocol) → Advances s (note_emitted can st s)
note_emitted-Advances can st s =
    let s1 : BallotProtocol = record s { last_envelope = some st; last_is_emitted = false } in
    choice (can && or_else s.last_envelope (λ last. is_newer_statement last.pledges st.pledges))
      (Advances-trans _ _ _ (Advances-same s s1 refl refl refl refl refl refl)
        (send_latest_envelope-Advances s1))
      (Advances-refl s)

module _ (ctx : Context) (advance : Statement → BallotProtocol → Result BallotProtocol)
    (advances : (st : Statement) (s t : BallotProtocol) → advance st s ≡ ok t → Advances s t) where
  accepted-newer :
      (s : BallotProtocol) (st : Statement) (self : Bool)
      → refuses ctx s st self ≡ false
      → is_newer_than_recorded s.latest_envelopes st ≡ true
  unfolding refuses
  accepted-newer s st self h = ground (arith, h)

  process_settled-Advances :
      (s : BallotProtocol) (st : Statement) (x : Bool × BallotProtocol)
      → is_newer_than_recorded s.latest_envelopes st ≡ true
      → process_settled ctx s st ≡ ok x
      → After s x
  unfolding process_settled
  process_settled-Advances s st x newer e =
      let (c, p, q) = bind_ok (deref s.commit) _ x e in
      either (After s) (c.value == (get_working_ballot st.pledges).value) (ok (true, recorded st s))
        (ok (false, s)) (λ _ y. returned (recorded-Advances st s newer)) (λ _. idle s) x q

  process_going-Advances :
      (s : BallotProtocol) (st : Statement) (x : Bool × BallotProtocol)
      → is_newer_than_recorded s.latest_envelopes st ≡ true
      → process_going ctx advance s st ≡ ok x
      → After s x
  unfolding process_going
  process_going-Advances s st x newer e =
      let level = validate_values ctx st.pledges in
      let s1 = lower_validation level s in
      let (t, p, q) = bind_ok (advance st (recorded st s1)) _ x e in
      let f =
        recorded-Advances st s1
          (ap (λ l. is_newer_than_recorded l st) (lower_validation-same level s) ∙ newer) in
      returned
        (Advances-trans _ _ _ (Advances-trans _ _ _ (lower_validation-Advances level s) f)
          (advances _ _ _ p))
        q

  pub process_envelope-Advances :
      (s : BallotProtocol) (st : Statement) (self : Bool) (x : Bool × BallotProtocol)
      → process_envelope ctx advance s st self ≡ ok x
      → After s x
  unfolding process_envelope
  process_envelope-Advances s st self x e =
      either (After s) (refuses ctx s st self) (ok (false, s))
        (if is_externalize s.phase
          then process_settled ctx s st
          else process_going ctx advance s st)
        (λ _. idle s)
        (λ accepted.
          let newer = accepted-newer s st self accepted in
          either (After s) (is_externalize s.phase) (process_settled ctx s st)
            (process_going ctx advance s st) (λ _ y. process_settled-Advances s st y newer)
            (λ _ y. process_going-Advances s st y newer))
        x e

  emit_own-Advances :
      (s t : BallotProtocol) (st : Statement) → emit_own ctx advance s st ≡ ok t → Advances s t
  unfolding emit_own
  emit_own-Advances s t st e =
      let (x, p, q) = bind_ok (process_envelope ctx advance s st true) _ t e in
      let f = process_envelope-Advances s st true x p in
      either (Advances s) x.0 (ok (note_emitted (is_some s.current_ballot) st x.1)) (throw runtime)
        (λ _ u r.
          subst (Advances s) (ok_injective r)
            (Advances-trans _ _ _ f (note_emitted-Advances (is_some s.current_ballot) st x.1)))
        (λ _ u r. absurd (ground (arith, r))) t q

  pub emit_current_state_statement-Advances :
      (s t : BallotProtocol) → emit_current_state_statement ctx advance s ≡ ok t → Advances s t
  unfolding emit_current_state_statement
  emit_current_state_statement-Advances s t e =
      let (pledges, p, q) = bind_ok (create_statement ctx s) _ t e in
      either (Advances s) (is_last (find_envelope ctx.node_id s.latest_envelopes) pledges) (ok s)
        (emit_own ctx advance s (own_statement ctx pledges))
        (λ _ u r. subst (Advances s) (ok_injective r) (Advances-refl s))
        (λ _ u. emit_own-Advances s u (own_statement ctx pledges)) t q

-- ===== src/Scp/BallotProtocol/Rounds.antt =====
-- The loop on attemptBump in advanceSlot of scp/BallotProtocol.cpp, and how long it can go on.
use essa_core.Prelude.{
  not, ℕ, zero, suc, ◌+◌, ◌*◌, ◌^◌, ◌<◌, ◌≤◌, ◌≡◌, ◌⊎◌, refl, ◌∙◌, ap, Bool, true, false, ◌==◌, ltb,
  some, arith, if◌then◌else◌, inl, inr, Bool-cases, Option-cases,
}
use essa_core.Prelude.Result.{Result, Result-cases, ok, throw, bind_ok, either, ◌>>=◌}
use essa_core.Scp.Ballot.{ScpBallot, Statement, uint32_max}
use essa_core.Scp.Federated.{Context}
use essa_core.Scp.BallotState.{
  BallotProtocol, is_externalize, counter_of, update_current_value, update_current_if_needed,
  bump_to_ballot, check_invariants,
}
use essa_core.Scp.BallotState.Advances.{rank, Advances, Advances-trans, returned}
use essa_core.Scp.BallotState.Local.{update_current_value-Local}
use essa_core.Scp.BallotSteps.{ballot_at}
use essa_core.Scp.BallotCounters.{bump_target, check_heard_from_quorum}
use essa_core.Scp.BallotProtocol.{
  or_value, value_of, emit_current_state_statement, bump_to_counter, bump_state_to, bump_state,
  abandon_ballot, attempt_bump, bump_while, advance_slot,
}
use essa_core.Scp.BallotProtocol.Emits.{
  check_heard_from_quorum-Advances, emit_current_state_statement-Advances,
}
use essa_core.Scp.BallotProtocol.Advances.{attempt_bump-Advances, advance_slot-Advances}
use essa_core.Scp.BallotProtocol.Bump.{bump_target-least}

updated_to :
    (s : BallotProtocol) (b : ScpBallot) (x : Bool × BallotProtocol)
    → update_current_value s b ≡ ok x
    → x.0 ≡ true
    → x.1.current_ballot ≡ some b
unfolding update_current_value update_current_if_needed bump_to_ballot check_invariants
updated_to s b x e did = ground (arith, e, did)

abbrev pub did_bump : Result (Bool × BallotProtocol) → Bool
did_bump (ok x) = x.0
did_bump (throw e) = false

-- What the loop returns when a round that does not bump comes after so many that did.
abbrev pub result_after : ℕ → Result (Bool × BallotProtocol) → Result (Bool × BallotProtocol)
result_after n (ok x) = ok (not (n == 0), x.1)
result_after n (throw e) = throw e

module _ (ctx : Context) (advance : Statement → BallotProtocol → Result BallotProtocol) where
  -- So many rounds of the loop that bump, from one state to another.
  unfoldable pub Rounds : ℕ → BallotProtocol → BallotProtocol → Type 0
  Rounds zero s t = t ≡ s
  Rounds (suc n) s t =
      (u : BallotProtocol) × (attempt_bump ctx advance s ≡ ok (true, u)) × Rounds n u t

  -- The loop has ended after so many rounds that bump: the next one does not, or throws.
  pub record Ends (fuel n : ℕ) (s t : BallotProtocol) : Type 0 where
    pub path : Rounds n s t
    pub stops : did_bump (attempt_bump ctx advance t) ≡ false
    pub result : bump_while ctx advance fuel s ≡ result_after n (attempt_bump ctx advance t)

  one_more :
      (n : ℕ) (r : Result (Bool × BallotProtocol))
      → (result_after n r >>= λ u. ok (true, u.1)) ≡ result_after (suc n) r
  one_more n (ok x) = ground arith
  one_more n (throw e) = refl

  -- So much fuel is enough, or every round of it bumps.
  Enough : ℕ → BallotProtocol → Type 0
  Enough fuel s =
      ((n : ℕ) × (t : BallotProtocol) × Ends fuel n s t) ⊎ ((t : BallotProtocol) × Rounds fuel s t)

  loop_ends : (fuel : ℕ) (s : BallotProtocol) → Enough fuel s
  unfolding Enough Rounds bump_while
  loop_ends zero s = inr (s, refl)
  loop_ends (suc fuel) s = elim (Result-cases (attempt_bump ctx advance s)) [
    | inl (err, e) ↦ inl (0, s, record { path = refl; stops = ap did_bump e; result = rw e refl })
    | inr (x, e) ↦ elim (Bool-cases x.0) [
      | inr stops ↦
          inl (
            0,
            s,
            record { path = refl; stops = ap did_bump e ∙ stops; result = rw (e, stops) refl },
          )
      | inl bumps ↦
          let went : attempt_bump ctx advance s ≡ ok (true, x.1) =
            e ∙ ap (λ b. ok (b, x.1)) bumps in
          elim (loop_ends fuel x.1) [
            | inr (t, path) ↦ inr (t, (x.1, went, path))
            | inl (n, t, ends) ↦ inl (
              suc n,
              t,
              record {
                path = (x.1, went, ends.path);
                stops = ends.stops;
                result = rw (e, bumps, ends.result) (one_more n (attempt_bump ctx advance t));
              },
            )
          ]
    ]
  ]

module _ (ctx : Context) (advance : Statement → BallotProtocol → Result BallotProtocol)
    (advances : (st : Statement) (s t : BallotProtocol) → advance st s ≡ ok t → Advances s t) where
  -- From where the counter is raised on.
  Reached : BallotProtocol → ℕ → Bool × BallotProtocol → Type 0
  Reached s n x =
      x.0 ≡ true
      → (u : BallotProtocol) × (counter_of u.current_ballot ≡ n)
        × (rank s.phase ≤ rank u.phase)
        × Advances u x.1

  bump_to_counter-Reached :
      (s : BallotProtocol) (b : ScpBallot) (x : Bool × BallotProtocol)
      → bump_to_counter ctx advance s b ≡ ok x
      → Reached s b.counter x
  unfolding bump_to_counter Reached
  bump_to_counter-Reached s b x e =
      let (t, p, q) = bind_ok (update_current_value s b) _ x e in
      elim (Bool-cases t.0) [
        | inr stays ↦ λ did. absurd (ground (arith, q, stays, did))
        | inl moves ↦ λ did.
            let q' : (emit_current_state_statement ctx advance t.1 >>= λ u.
            ok (true, check_heard_from_quorum ctx u))
                ≡ ok x =
              rw moves at q in
            let (u, p2, q2) = bind_ok (emit_current_state_statement ctx advance t.1) _ x q' in
            (
              t.1,
              ap counter_of (updated_to s b t p moves),
              (update_current_value-Local s b t p).phase,
              returned
                  (Advances-trans _ _ _
                    (emit_current_state_statement-Advances ctx advance advances t.1 u p2)
                    (check_heard_from_quorum-Advances ctx u))
                  q2,
            )
      ]

  bump_state_to-Reached :
      (s : BallotProtocol) (v n : ℕ) (x : Bool × BallotProtocol)
      → bump_state_to ctx advance s v n ≡ ok x
      → Reached s n x
  unfolding bump_state_to Reached
  bump_state_to-Reached s v n x e =
      let b = ballot_at n (or_value s.value_override v) in
      either (Reached s n) (is_externalize s.phase) (ok (false, s))
        (bump_to_counter ctx advance s b) (λ _ y r did. absurd (ground (arith, r, did)))
        (λ _ y. bump_to_counter-Reached s b y) x e

  abandon_ballot-Reached :
      (s : BallotProtocol) (n : ℕ) (x : Bool × BallotProtocol)
      → 0 < n
      → abandon_ballot ctx advance s n ≡ ok x
      → Reached s n x
  unfolding abandon_ballot Reached
  abandon_ballot-Reached s n x h e =
      let v =
        if ctx.composite_candidate == 0
        then value_of s.current_ballot
        else ctx.composite_candidate in
      either (Reached s n) (v == 0) (ok (false, s))
        (if n == 0 then bump_state ctx advance s v true else bump_state_to ctx advance s v n)
        (λ _ y r did. absurd (ground (arith, r, did)))
        (λ _.
          either (Reached s n) (n == 0) (bump_state ctx advance s v true)
            (bump_state_to ctx advance s v n) (λ z. absurd (ground (arith, z, h)))
            (λ _. bump_state_to-Reached s v n))
        x e

  -- A bump that is done raises the counter, or the phase has moved on.
  attempt_bump-raises :
      (s t : BallotProtocol)
      → attempt_bump ctx advance s ≡ ok (true, t)
      → rank t.phase ≤ rank s.phase
      → counter_of s.current_ballot < counter_of t.current_ballot
  unfolding attempt_bump Reached
  attempt_bump-raises s t e same = elim (Option-cases (bump_target ctx s)) [
    | inl stays ↦ absurd (ground (arith, e, stays))
    | inr (n, found) ↦
        let (_, above, _, _, _, _) = bump_target-least ctx s n found in
        let done : abandon_ballot ctx advance s n ≡ ok (true, t) = ground (arith, e, found) in
        let (u, here, low, f) =
          abandon_ballot-Reached s n (true, t) (omega (arith, above)) done refl in
        let kept = f.counter (omega (arith, same, low)) in omega (arith, above, here, kept)
  ]

  -- The phase, and within it the counter.
  unfoldable progress : BallotProtocol → ℕ
  progress s = rank s.phase * 2 ^ 32 + counter_of s.current_ballot

  progress_grows :
      (s t : BallotProtocol)
      → counter_of s.current_ballot ≤ uint32_max
      → attempt_bump ctx advance s ≡ ok (true, t)
      → progress s < progress t
  unfolding progress
  progress_grows s t small e =
      let f = attempt_bump-Advances ctx advance advances s (true, t) e in
      elim (Bool-cases (ltb (rank s.phase) (rank t.phase))) [
        | inl later ↦ ground (arith, later, small)
        | inr same ↦
            let raised = attempt_bump-raises s t e (ground (arith, same)) in
            ground (arith, f.phase, raised, same)
      ]

  bumps_add_up :
      (n : ℕ) (s t : BallotProtocol)
      → ((m : ℕ) (u : BallotProtocol)
          → Rounds ctx advance m s u
          → counter_of u.current_ballot ≤ uint32_max)
      → Rounds ctx advance n s t
      → n + progress s ≤ progress t
  unfolding Rounds
  bumps_add_up zero s t small same = rw same (omega arith)
  bumps_add_up (suc n) s t small (u, e, more) =
      let first = progress_grows s u (small 0 s refl) e in
      let rest = bumps_add_up n u t (λ m v path. small (suc m) v (u, e, path)) more in
      omega (arith, first, rest)

  rank_bound : (s : BallotProtocol) → rank s.phase ≤ 2
  unfolding rank
  rank_bound s = ground arith

  pub bumps_bounded :
      (n : ℕ) (s t : BallotProtocol)
      → ((m : ℕ) (u : BallotProtocol)
          → Rounds ctx advance m s u
          → counter_of u.current_ballot ≤ uint32_max)
      → Rounds ctx advance n s t
      → n < 3 * 2 ^ 32
  unfolding progress
  bumps_bounded n s t small path =
      omega (arith, bumps_add_up n s t small path, small n t path, rank_bound t)

-- The loop on attemptBump, with all that its emissions set off at any level of the recursion, ends: if
-- the counters that it comes to are 32-bit numbers, as their type in the code says, then after fewer
-- than 3 * 2^32 rounds that bump comes one that does not or that throws, and with fuel for that many
-- rounds the result is what this round leaves or throws, with whether there was a round before it.
pub bump_while-Ends :
    (ctx : Context) (inner levels fuel : ℕ) (s : BallotProtocol)
    → ((m : ℕ) (u : BallotProtocol)
        → Rounds ctx (advance_slot ctx inner levels) m s u
        → counter_of u.current_ballot ≤ uint32_max)
    → 3 * 2 ^ 32 ≤ fuel
    → (n : ℕ) × (t : BallotProtocol) × (n < 3 * 2 ^ 32)
      × Ends ctx (advance_slot ctx inner levels) fuel n s t
unfolding Enough
bump_while-Ends ctx inner levels fuel s small h =
    let advance = advance_slot ctx inner levels in
    let advances = advance_slot-Advances ctx inner levels in
    elim (loop_ends ctx advance fuel s) [
      | inl (n, t, ends) ↦ (n, t, bumps_bounded ctx advance advances n s t small ends.path, ends)
      | inr (t, path) ↦
          absurd (omega (arith, h, bumps_bounded ctx advance advances fuel s t small path))
    ]

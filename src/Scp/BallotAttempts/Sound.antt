-- ===== src/Scp/BallotAttempts/Sound.antt =====
-- The attempts to accept and to confirm a commit, with what checkInvariants asserts.
use essa_core.Prelude.{
  ℕ, ◌≡◌, ◌⊎◌, refl, Bool, true, false, not, ◌&&◌, ◌||◌, ◌==◌, leb, some, ◌∷◌, ◌∙◌, arith, inl, inr,
  Bool-cases, Option-cases,
}
use essa_core.Prelude.Result.{Result, Result-cases, ok, deref, ◌>>=◌}
use essa_core.Scp.Ballot.{ScpBallot, Pledges, are_ballots_compatible}
use essa_core.Scp.Federated.{Context}
use essa_core.Scp.BallotState.{
  BallotProtocol, is_prepare, is_confirm, is_externalize, is_some, and_also, invariants_hold,
  bump_to_ballot, update_current_if_needed,
}
use essa_core.Scp.BallotState.Invariant.{is_coherent, is_coherent-invariants_hold, within, h_below}
use essa_core.Scp.BallotSteps.{ballot_at, get_commit_boundaries}
use essa_core.Scp.BallotSteps.Intervals.{find-Sound}
use essa_core.Scp.BallotMoves.{finish, confirm_commit, set_accept_commit, set_confirm_commit}
use essa_core.Scp.BallotMoves.Sound.{accept_commit_sound}
use essa_core.Scp.BallotMoves.Returns.{confirm_commit-returns}
use essa_core.Scp.BallotMoves.Settled.{confirm_commit-coherent}
use essa_core.Scp.BallotAttempts.{
  accept_hint, confirms_other, high_reaches, accepts_commit, ratifies_commit, accept_interval,
  ratify_interval, accept_commit_of, attempt_accept_commit, confirm_hint, confirm_commit_of,
  attempt_confirm_commit,
}

-- The state as it was, with nothing done; or a state in CONFIRM for which checkInvariants passes and
-- that has a p' only beside a p, from which the emission decides.
abbrev pub Accepts :
    (BallotProtocol → Result BallotProtocol)
    → BallotProtocol
    → Result (Bool × BallotProtocol)
    → Type 0
Accepts emit s r =
    (r ≡ ok (false, s))
    ⊎ ((did_work : Bool) × (t : BallotProtocol) × (r ≡ finish emit did_work t)
        × (is_coherent t ≡ true)
        × (invariants_hold t ≡ true)
        × (is_confirm t.phase ≡ true))

-- After the driver was told of the value.
abbrev pub published : ℕ → BallotProtocol → Bool × BallotProtocol
published value u = (true, record u { externalized = value ∷ u.externalized })

-- The state as it was; or, with the value of the commit, an externalized state of this kind, and the
-- value externalized after the emission from it.
abbrev pub Confirms :
    (BallotProtocol → Result BallotProtocol)
    → BallotProtocol
    → Result (Bool × BallotProtocol)
    → Type 0
Confirms emit s r =
    (r ≡ ok (false, s))
    ⊎ ((t : BallotProtocol) × (b : ScpBallot) × (t.commit ≡ some b)
        × (and_also s.commit (are_ballots_compatible b) ≡ true)
        × (is_coherent t ≡ true)
        × (invariants_hold t ≡ true)
        × (is_externalize t.phase ≡ true)
        × (r ≡ (emit t >>= λ u. ok (published b.value u))))

same_value :
    (s : BallotProtocol) (b h : ScpBallot)
    → h.value ≡ b.value
    → (is_prepare s.phase || and_also s.high_ballot (are_ballots_compatible b)) ≡ true
    → (is_prepare s.phase || and_also s.high_ballot (are_ballots_compatible h)) ≡ true
unfolding are_ballots_compatible
same_value s b h v k = ground (arith, v, k)

commit_value :
    (s : BallotProtocol) (b h : ScpBallot)
    → h.value ≡ b.value
    → and_also s.commit (are_ballots_compatible b) ≡ true
    → and_also s.commit (are_ballots_compatible h) ≡ true
unfolding are_ballots_compatible
commit_value s b h v k = ground (arith, v, k)

-- In CONFIRM there is a h.
confirm_high :
    (s : BallotProtocol)
    → is_coherent s ≡ true
    → is_confirm s.phase ≡ true
    → is_some s.high_ballot ≡ true
unfolding is_coherent h_below
confirm_high s inv ph = ground (arith, inv, ph)

confirms_other-returns :
    (s : BallotProtocol) (b : ScpBallot)
    → is_coherent s ≡ true
    → is_externalize s.phase ≡ false
    → (other : Bool) × (confirms_other s b ≡ ok other)
      × (other ≡ false
          → (is_prepare s.phase || and_also s.high_ballot (are_ballots_compatible b)) ≡ true)
unfolding confirms_other
confirms_other-returns s b inv going = elim (Bool-cases (is_confirm s.phase)) [
  | inr ph ↦ (false, ground (arith, ph), λ _. ground (arith, ph, going))
  | inl ph ↦ elim (Option-cases s.high_ballot) [
    | inl missing ↦ absurd (ground (arith, missing, confirm_high s inv ph))
    | inr (h, found) ↦ (
      not (are_ballots_compatible b h),
      ground (arith, ph, found),
      λ same. ground (arith, found, same),
    )
  ]
]

high_reaches-returns :
    (s : BallotProtocol) (n : ℕ)
    → is_coherent s ≡ true
    → (reached : Bool) × (high_reaches s n ≡ ok reached)
unfolding high_reaches
high_reaches-returns s n inv = elim (Bool-cases (is_confirm s.phase)) [
  | inr ph ↦ (false, ground (arith, ph))
  | inl ph ↦ elim (Option-cases s.high_ballot) [
    | inl missing ↦ absurd (ground (arith, missing, confirm_high s inv ph))
    | inr (h, found) ↦ (leb n h.counter, ground (arith, ph, found))
  ]
]

confirm_commit-commits :
    (s : BallotProtocol) (c h : ScpBallot) (t : BallotProtocol)
    → confirm_commit s c h ≡ ok t
    → t.commit ≡ some c
unfolding confirm_commit update_current_if_needed bump_to_ballot
confirm_commit-commits s c h t e = ground (arith, e)

-- What reads the commit after the emission finds the one that was there before it.
same_emission :
    (emit : BallotProtocol → Result BallotProtocol) (t : BallotProtocol) (b : ScpBallot)
    → t.commit ≡ some b
    → ((u : BallotProtocol) → emit t ≡ ok u → u.commit ≡ t.commit)
    → (emit t >>= λ u. deref u.commit >>= λ d. ok (published d.value u))
      ≡ (emit t >>= λ u. ok (published b.value u))
same_emission emit t b here keeps = elim (Result-cases (emit t)) [
  | inl (e, p) ↦ rw p refl
  | inr (u, p) ↦ let there = keeps u p ∙ here in rw (p, there) refl
]

module _ (ctx : Context) (emit : BallotProtocol → Result BallotProtocol) (s : BallotProtocol)
    (inv : is_coherent s ≡ true) where
  set_accept_commit-ends :
      (c h : ScpBallot)
      → within c h ≡ true
      → (h.counter == 0) ≡ false
      → is_externalize s.phase ≡ false
      → (is_prepare s.phase || and_also s.high_ballot (are_ballots_compatible h)) ≡ true
      → Accepts emit s (set_accept_commit emit s c h)
  unfolding set_accept_commit
  set_accept_commit-ends c h k n going m =
      let (x, p, f, g, settled, _) = accept_commit_sound s c h inv k n going m in
      inr (x.0, x.1, rw p refl, f, g, settled.confirms)

  accept_commit_of-ends :
      is_externalize s.phase ≡ false
      → (b : ScpBallot) → Accepts emit s (accept_commit_of ctx emit s b)
  unfolding accept_commit_of
  accept_commit_of-ends going b =
      let interval = accept_interval ctx s b in
      let low = ballot_at interval.0 b.value in
      let high = ballot_at interval.1 b.value in
      let (other, p, near) = confirms_other-returns s b inv going in
      let (reached, q) = high_reaches-returns s interval.1 inv in
      elim (Bool-cases (other || interval.0 == 0)) [
        | inl stops ↦ inl (rw (p, stops) refl)
        | inr found ↦ elim (Bool-cases reached) [
          | inl covered ↦ inl (rw (p, found, q, covered) refl)
          | inr raises ↦
              let sound =
                find-Sound (accepts_commit ctx s b) (get_commit_boundaries b s.latest_envelopes) 0 0
                  refl in
              rw (p, found, q, raises)
                (set_accept_commit-ends low high (ground (arith, found, sound))
                  (ground (arith, found, sound)) going
                  (same_value s b high refl (near (ground (arith, found)))))
        ]
      ]

  module _
      (keeps : (t u : BallotProtocol)
        → is_externalize t.phase ≡ true
        → emit t ≡ ok u
        → u.commit ≡ t.commit) where
    set_confirm_commit-ends :
        (c h : ScpBallot)
        → within c h ≡ true
        → (h.counter == 0) ≡ false
        → is_confirm s.phase ≡ true
        → and_also s.commit (are_ballots_compatible h) ≡ true
        → and_also s.commit (are_ballots_compatible c) ≡ true
        → Confirms emit s (set_confirm_commit emit s c h)
    unfolding set_confirm_commit
    set_confirm_commit-ends c h k n ph m m' =
        let (t, p) = confirm_commit-returns s c h (ground (arith, ph)) in
        let (f, done) = confirm_commit-coherent s c h t inv k n ph m p in
        let here = confirm_commit-commits s c h t p in
        inr (
          t,
          c,
          here,
          m',
          f,
          is_coherent-invariants_hold t f,
          done,
          rw p (same_emission emit t c here (λ u. keeps t u done)),
        )

    confirm_commit_of-ends :
        is_confirm s.phase ≡ true
        → (b : ScpBallot) → Confirms emit s (confirm_commit_of ctx emit s b)
    unfolding confirm_commit_of
    confirm_commit_of-ends ph b =
        let interval = ratify_interval ctx s b in
        let low = ballot_at interval.0 b.value in
        let high = ballot_at interval.1 b.value in
        elim (Bool-cases (and_also s.commit (are_ballots_compatible b) && not (interval.0 == 0))) [
          | inr stops ↦ inl (rw stops refl)
          | inl goes ↦
              let sound =
                find-Sound (ratifies_commit ctx s b) (get_commit_boundaries b s.latest_envelopes) 0
                  0 refl in
              rw goes (
                set_confirm_commit-ends low high (ground (arith, goes, sound))
                  (ground (arith, goes, sound)) ph
                  (commit_value s b high refl (ground (arith, goes)))
                  (commit_value s b low refl (ground (arith, goes))))
        ]

-- For every emission, whatever it answers: attempting to accept a commit fails no assertion and reads
-- no null pointer before it emits, whatever the statements and the hint, if checkInvariants passes for
-- the state and it has a p' only beside a p. It leaves the state as it is, or comes to one in CONFIRM
-- for which the same holds; its result is that state or, if work was done, what the emission from it
-- answers.
pub attempt_accept_commit_sound :
    (ctx : Context) (emit : BallotProtocol → Result BallotProtocol) (s : BallotProtocol)
    (hint : Pledges)
    → is_coherent s ≡ true
    → Accepts emit s (attempt_accept_commit ctx emit s hint)
unfolding attempt_accept_commit
attempt_accept_commit_sound ctx emit s hint inv = elim (Bool-cases (is_externalize s.phase)) [
  | inl done ↦ inl (rw done refl)
  | inr going ↦ elim (Option-cases (accept_hint hint)) [
    | inl no_vote ↦ inl (rw (going, no_vote) refl)
    | inr (b, found) ↦ rw (going, found) (accept_commit_of-ends ctx emit s inv going b)
  ]
]

-- Attempting to confirm a commit, with an emission that leaves the commit of an externalized slot.
pub attempt_confirm_commit-Confirms :
    (ctx : Context) (emit : BallotProtocol → Result BallotProtocol) (s : BallotProtocol)
    (hint : Pledges)
    → ((t u : BallotProtocol) → is_externalize t.phase ≡ true → emit t ≡ ok u → u.commit ≡ t.commit)
    → is_coherent s ≡ true
    → Confirms emit s (attempt_confirm_commit ctx emit s hint)
unfolding attempt_confirm_commit
attempt_confirm_commit-Confirms ctx emit s hint keeps inv =
    elim (Bool-cases
      (not (is_confirm s.phase) || not (is_some s.high_ballot) || not (is_some s.commit))) [
        | inl stops ↦ inl (rw stops refl)
        | inr may ↦ elim (Option-cases (confirm_hint hint)) [
          | inl no_vote ↦ inl (rw (may, no_vote) refl)
          | inr (b, found) ↦
              rw (may, found) (confirm_commit_of-ends ctx emit s inv keeps (ground (arith, may)) b)
        ]
      ]

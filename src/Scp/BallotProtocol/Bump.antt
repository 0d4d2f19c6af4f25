-- ===== src/Scp/BallotProtocol/Bump.antt =====
-- attemptBump: the counter it moves to.
use std.Option.{some-injective}
use mathlib.Core.Path.{subst}
use essa_core.Prelude.{
  ==_iff, ◌+◌, ℕ, ◌≡◌, ◌≤◌, ◌<◌, refl, Bool, true, false, ◌&&◌, ◌==◌, leb, arith, some, List, [],
  ◌∷◌, mem, inl, inr, Bool-cases,
}
use essa_core.Prelude.Result.{Result, throw, assertion}
use essa_core.Scp.BallotSteps.{ballot_at}
use essa_core.Scp.Ballot.{
  uint32_max, ScpBallot, compare_ballots, Statement, statement_ballot_counter,
}
use essa_core.Scp.Federated.{Context, Envelopes}
use essa_core.Scp.Envelopes.{insert_value}
use essa_core.Scp.BallotState.{BallotProtocol, counter_of, is_externalize, update_current_value}
use essa_core.Scp.BallotProtocol.{or_value, bump_to_counter, bump_state_to, bump_state}
use essa_core.Scp.BallotCounters.{
  has_v_blocking_ahead, counters_above, first_not_ahead, bump_target,
}

abbrev at_least_all : ℕ → List ℕ → Bool
at_least_all b [] = true
at_least_all b (x ∷ xs) = leb b x && at_least_all b xs

abbrev ascends : List ℕ → Bool
ascends [] = true
ascends (x ∷ xs) = at_least_all x xs && ascends xs

at_least_all-insert_value :
    (b v : ℕ) (xs : List ℕ) → at_least_all b (insert_value v xs) ≡ (leb b v && at_least_all b xs)
unfolding insert_value
at_least_all-insert_value b v [] = refl
at_least_all-insert_value b v (x ∷ xs) = ground (arith, at_least_all-insert_value b v xs)

lower_bound : (b v : ℕ) (xs : List ℕ) → b ≤ v → at_least_all v xs ≡ true → at_least_all b xs ≡ true
lower_bound b v [] l h = refl
lower_bound b v (x ∷ xs) l h = ground (arith, l, h, lower_bound b v xs l)

ascends-insert_value :
    (v : ℕ) (xs : List ℕ) → ascends xs ≡ true → ascends (insert_value v xs) ≡ true
unfolding insert_value
ascends-insert_value v [] h = refl
ascends-insert_value v (x ∷ xs) h =
    ground
      (arith, h, ascends-insert_value v xs, at_least_all-insert_value x v xs, lower_bound v x xs)

counters_above-ascends : (n : ℕ) (envs : Envelopes) → ascends (counters_above n envs) ≡ true
unfolding counters_above
counters_above-ascends n [] = refl
counters_above-ascends n ((id, st) ∷ envs) = ground (
  arith,
  counters_above-ascends n envs,
  ascends-insert_value (statement_ballot_counter st.pledges) (counters_above n envs),
)

above_all : (n : ℕ) (envs : Envelopes) → at_least_all (n + 1) (counters_above n envs) ≡ true
unfolding counters_above
above_all n [] = refl
above_all n ((id, st) ∷ envs) = ground (
  arith,
  above_all n envs,
  at_least_all-insert_value (n + 1) (statement_ballot_counter st.pledges) (counters_above n envs),
)

least_member : (m b : ℕ) (xs : List ℕ) → at_least_all b xs ≡ true → mem m xs ≡ true → b ≤ m
least_member m b [] h k = absurd (ground (arith, k))
least_member m b (x ∷ xs) h k = elim (Bool-cases (mem m xs)) [
  | inl later ↦ least_member m b xs (ground (arith, h)) later
  | inr here ↦ ground (arith, h, k, here)
]

-- The first counter of an ascending list at which none is ahead.
first_least :
    (ctx : Context) (envs : Envelopes) (xs : List ℕ) (n : ℕ)
    → ascends xs ≡ true
    → first_not_ahead ctx envs xs ≡ some n
    → (mem n xs ≡ true)
      × (has_v_blocking_ahead ctx envs n ≡ false)
      × ((m : ℕ) → mem m xs ≡ true → m < n → has_v_blocking_ahead ctx envs m ≡ true)
unfolding first_not_ahead
first_least ctx envs [] n a h = absurd (ground (arith, h))
first_least ctx envs (x ∷ xs) n a h = elim (Bool-cases (has_v_blocking_ahead ctx envs x)) [
  | inl ahead ↦
      let (i, stops, least) =
        first_least ctx envs xs n (ground (arith, a)) (ground (arith, h, ahead)) in
      (
        ground (arith, i),
        stops,
        λ m k l. elim (Bool-cases (x == m)) [
          | inl here ↦
              subst (λ y. has_v_blocking_ahead ctx envs y ≡ true) ((==_iff x m).0 here) ahead
          | inr other ↦ least m (ground (arith, k, other)) l
        ],
      )
  | inr stops ↦
      let here : x ≡ n = some-injective (ground (arith, h, stops)) in
      (
        ground (arith, here),
        subst (λ y. has_v_blocking_ahead ctx envs y ≡ false) here stops,
        λ m k l. absurd (omega (arith, l, here, least_member m x (x ∷ xs) (ground (arith, a)) k)),
      )
]

-- The counter that the node bumps to is above its own, is the counter of a statement it has, no
-- v-blocking set is ahead of it, and a v-blocking set is ahead of the node's own counter and of every
-- lesser counter among the statements' that is above it; the slot is not externalized.
pub bump_target-least :
    (ctx : Context) (s : BallotProtocol) (n : ℕ)
    → bump_target ctx s ≡ some n
    → (is_externalize s.phase ≡ false)
      × (counter_of s.current_ballot < n)
      × (mem n (counters_above (counter_of s.current_ballot) s.latest_envelopes) ≡ true)
      × (has_v_blocking_ahead ctx s.latest_envelopes n ≡ false)
      × (has_v_blocking_ahead ctx s.latest_envelopes (counter_of s.current_ballot) ≡ true)
      × ((m : ℕ)
          → mem m (counters_above (counter_of s.current_ballot) s.latest_envelopes) ≡ true
          → m < n
          → has_v_blocking_ahead ctx s.latest_envelopes m ≡ true)
unfolding bump_target
bump_target-least ctx s n h =
    let local = counter_of s.current_ballot in
    let envs = s.latest_envelopes in
    let (i, stops, least) =
      first_least ctx envs (counters_above local envs) n (counters_above-ascends local envs)
        (ground (arith, h)) in
    (
      ground (arith, h),
      omega
          (arith, least_member n (local + 1) (counters_above local envs) (above_all local envs) i),
      i,
      stops,
      ground (arith, h),
      least,
    )

behind :
    (s : BallotProtocol) (b new : ScpBallot)
    → s.current_ballot ≡ some b
    → new.counter < b.counter
    → is_externalize s.phase ≡ false
    → update_current_value s new ≡ throw assertion
unfolding update_current_value compare_ballots
behind s b new h l going = ground (arith, h, l, going)

-- A ballot that is abandoned at the last counter of 32 bits is bumped to counter 0, which is below
-- it: the assertion in updateCurrentValue that ballots only grow fails, in every phase before
-- EXTERNALIZE, whatever the value and the statements.
pub bump_state-overflow :
    (ctx : Context) (advance : Statement → BallotProtocol → Result BallotProtocol)
    (s : BallotProtocol) (b : ScpBallot) (value : ℕ)
    → s.current_ballot ≡ some b
    → b.counter ≡ uint32_max
    → is_externalize s.phase ≡ false
    → bump_state ctx advance s value true ≡ throw assertion
unfolding bump_state bump_state_to bump_to_counter
bump_state-overflow ctx advance s b value h m going = ground (
  arith,
  h,
  m,
  going,
  behind s b (ballot_at 0 (or_value s.value_override value)) h (omega (arith, m)) going,
)

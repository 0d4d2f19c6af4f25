-- ===== src/Scp/Ballot/Order.antt =====
-- compareBallots as an order on ballots, and compatibility beside it.
use Prim.Native.Nat.Ordering.{lt, eq}
use Prim.Native.Nat.{Ordering}
use essa_core.Prelude.{◌≡◌, refl, false, Option, none, some, arith, ltb, leb, ◌==◌, if◌then◌else◌}
use essa_core.Scp.Ballot.{
  ScpBallot, compare_ballots, compare_pointers, is_at_most, are_ballots_compatible,
  are_ballots_less_and_compatible, are_ballots_less_and_incompatible,
}

-- What a comparison and the next one say of the comparison across both.
pub record Composes (o12 o23 o13 : Ordering) : Type 0 where
  pub below : o12 ≡ lt → o23 ≡ lt → o13 ≡ lt
  pub below_same : o12 ≡ lt → o23 ≡ eq → o13 ≡ lt
  pub same_below : o12 ≡ eq → o23 ≡ lt → o13 ≡ lt
  pub same : o12 ≡ eq → o23 ≡ eq → o13 ≡ eq

pub compare_ballots-Composes :
    (b1 b2 b3 : ScpBallot)
    → Composes (compare_ballots b1 b2) (compare_ballots b2 b3) (compare_ballots b1 b3)
unfolding compare_ballots
compare_ballots-Composes b1 b2 b3 = record {
  below = λ h k. ground arith;
  below_same = λ h k. ground arith;
  same_below = λ h k. ground arith;
  same = λ h k. ground arith;
}

pub compare_pointers-Composes :
    (p1 p2 p3 : Option ScpBallot)
    → Composes (compare_pointers p1 p2) (compare_pointers p2 p3) (compare_pointers p1 p3)
unfolding compare_pointers
compare_pointers-Composes none none none = ground arith
compare_pointers-Composes none none (some b) = ground arith
compare_pointers-Composes none (some b) none = ground arith
compare_pointers-Composes none (some b) (some c) = ground arith
compare_pointers-Composes (some b) none none = ground arith
compare_pointers-Composes (some b) none (some c) = ground arith
compare_pointers-Composes (some b) (some c) none = ground arith
compare_pointers-Composes (some b) (some c) (some d) = compare_ballots-Composes b c d

pub compare_ballots_self : (b : ScpBallot) → compare_ballots b b ≡ eq
unfolding compare_ballots
compare_ballots_self b = ground arith

pub compare_pointers_self : (p : Option ScpBallot) → compare_pointers p p ≡ eq
unfolding compare_pointers
compare_pointers_self none = refl
compare_pointers_self (some b) = compare_ballots_self b

-- The order in terms of the fields.
pub at_most_iff :
    (b c : ScpBallot)
    → is_at_most (compare_ballots b c)
      ≡ (if b.counter == c.counter then leb b.value c.value else ltb b.counter c.counter)
unfolding compare_ballots
at_most_iff b c = ground arith

pub compatible_iff :
    (b c : ScpBallot)
    → are_ballots_less_and_compatible b c
      ≡ (if b.value == c.value then leb b.counter c.counter else false)
unfolding are_ballots_less_and_compatible are_ballots_compatible compare_ballots
compatible_iff b c = ground arith

pub incompatible_iff :
    (b c : ScpBallot)
    → are_ballots_less_and_incompatible b c ≡ (
        if b.value == c.value
        then false
        else (if b.counter == c.counter then ltb b.value c.value else ltb b.counter c.counter))
unfolding are_ballots_less_and_incompatible are_ballots_compatible compare_ballots
incompatible_iff b c = ground arith

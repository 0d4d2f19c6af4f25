-- ===== src/Scp/LocalNode/Slices.antt =====
-- isQuorumSlice decides whether the nodes satisfy the quorum set.
use essa_core.Prelude.{
  ℕ, ◌-◌, ◌^◌, ◌≤◌, ◌<◌, ◌≡◌, Bool, true, ◌&&◌, none, some, List, [], ◌∷◌, ltb, leb, if◌then◌else◌,
  count, mem, arith,
}
use essa_core.Scp.QuorumSet.{ScpQuorumSet, InnerSets, quorum_set, no_sets, set_then}
use essa_core.Scp.QuorumSet.Satisfied.{satisfied, satisfied_count}
use essa_core.Scp.LocalNode.{decrement, slice_validators, is_quorum_slice, slice_inner}

-- Every threshold is a `uint32` of at least 1.
unfoldable mutual
  pub positive_thresholds : ScpQuorumSet → Bool
  positive_thresholds (quorum_set t v i) = leb 1 t && ltb t (2 ^ 32) && inner_positive i

  pub inner_positive : InnerSets → Bool
  inner_positive no_sets = true
  inner_positive (set_then q rest) = positive_thresholds q && inner_positive rest

abbrev pub members : List ℕ → ℕ → Bool
members ns n = mem n ns

decrement_exact : (left : ℕ) → 1 ≤ left → left < 2 ^ 32 → decrement left ≡ left - 1
unfolding decrement
decrement_exact left h k = omega arith

slice_validators_exact :
    (v ns : List ℕ) (left : ℕ)
    → 1 ≤ left
    → left < 2 ^ 32
    → slice_validators v ns left
      ≡ (if leb left (count (members ns) v) then none else some (left - count (members ns) v))
unfolding slice_validators
slice_validators_exact [] ns left h k = ground arith
slice_validators_exact (n ∷ v) ns left h k = ground (
  arith,
  decrement_exact left h k,
  slice_validators_exact v ns left h k,
  slice_validators_exact v ns (left - 1),
)

mutual
  unfolding is_quorum_slice slice_inner satisfied satisfied_count positive_thresholds inner_positive

  slice_exact :
      (q : ScpQuorumSet) (ns : List ℕ)
      → positive_thresholds q ≡ true
      → is_quorum_slice q ns ≡ satisfied (members ns) q
  slice_exact (quorum_set t v i) ns h =
      ground
        (arith, slice_validators_exact v ns t, slice_inner_exact i ns (t - count (members ns) v))

  slice_inner_exact :
      (i : InnerSets) (ns : List ℕ) (left : ℕ)
      → inner_positive i ≡ true
      → 1 ≤ left
      → left < 2 ^ 32
      → slice_inner i ns left ≡ leb left (satisfied_count (members ns) i)
  slice_inner_exact no_sets ns left h l k = ground arith
  slice_inner_exact (set_then q rest) ns left h l k = ground (
    arith,
    decrement_exact left l k,
    slice_exact q ns,
    slice_inner_exact rest ns left,
    slice_inner_exact rest ns (left - 1),
  )

-- For `uint32` thresholds of at least 1, isQuorumSlice holds exactly of the node lists that reach the threshold
-- at the top, where an inner set counts if they reach its own.
pub is_quorum_slice_exact :
    (q : ScpQuorumSet) (ns : List ℕ)
    → positive_thresholds q ≡ true
    → is_quorum_slice q ns ≡ satisfied (members ns) q
is_quorum_slice_exact q ns h = slice_exact q ns h

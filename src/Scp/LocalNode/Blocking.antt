-- ===== src/Scp/LocalNode/Blocking.antt =====
-- isVBlocking decides whether the nodes' failure keeps all others from satisfying the quorum set.
use essa_core.Prelude.{
  ℕ, ◌+◌, ◌-◌, ◌%◌, ◌^◌, ◌≤◌, ◌<◌, ◌≡◌, refl, Bool, true, false, not, ◌&&◌, Option, none, some,
  List, [], ◌∷◌, ltb, leb, if◌then◌else◌, length, count, mem, arith, inl, inr, Option-cases, sym,
  ◌∙◌,
}
use essa_core.Prelude.Int.{pos, ◌-ℤ◌}
use essa_core.Scp.QuorumSet.{ScpQuorumSet, InnerSets, quorum_set, no_sets, set_then, size}
use essa_core.Scp.QuorumSet.Satisfied.{satisfied, satisfied_count, satisfied_mono}
use essa_core.Scp.LocalNode.{to_int, block_validators, is_v_blocking, block_inner, is_quorum_slice}
use essa_core.Scp.LocalNode.Slices.{
  members, positive_thresholds, inner_positive, is_quorum_slice_exact,
}

-- Every threshold is from 1 to the number of its entries, which fits an `int`.
unfoldable mutual
  pub thresholds_in_range : ScpQuorumSet → Bool
  thresholds_in_range (quorum_set t v i) =
      leb 1 t && leb t (length v + size i) && ltb (length v + size i) (2 ^ 31) && inner_in_range i

  pub inner_in_range : InnerSets → Bool
  inner_in_range no_sets = true
  inner_in_range (set_then q rest) = thresholds_in_range q && inner_in_range rest

-- The nodes that are not in the list.
abbrev pub others : List ℕ → ℕ → Bool
others ns n = not (mem n ns)

one_less : (left : ℕ) → 1 ≤ left → pos left -ℤ pos 1 ≡ pos (left - 1)
unfolding ◌-ℤ◌
one_less left h = ground arith

left_till_block :
    (total t : ℕ)
    → 1 ≤ t
    → t ≤ total
    → total < 2 ^ 31
    → to_int ((1 + total + 2 ^ 64 - t) % 2 ^ 64) ≡ pos (1 + total - t)
unfolding to_int
left_till_block total t h k l = ground arith

block_validators_exact :
    (v ns : List ℕ) (left : ℕ)
    → 1 ≤ left
    → block_validators v ns (pos left)
      ≡ (if leb left (count (members ns) v) then none else some (pos (left - count (members ns) v)))
unfolding block_validators
block_validators_exact [] ns left h = ground arith
block_validators_exact (n ∷ v) ns left h = ground (
  arith,
  one_less left h,
  block_validators_exact v ns left h,
  block_validators_exact v ns (left - 1),
)

pub count-others : (ns v : List ℕ) → count (members ns) v + count (others ns) v ≡ length v
count-others ns [] = refl
count-others ns (n ∷ v) = ground (arith, count-others ns v)

pub satisfied_count_le : (p : ℕ → Bool) (i : InnerSets) → satisfied_count p i ≤ size i
unfolding satisfied satisfied_count
satisfied_count_le p no_sets = omega arith
satisfied_count_le p (set_then q rest) = ground (arith, satisfied_count_le p rest)

mutual
  unfolding is_v_blocking block_inner satisfied satisfied_count thresholds_in_range inner_in_range

  block_exact :
      (q : ScpQuorumSet) (ns : List ℕ)
      → thresholds_in_range q ≡ true
      → is_v_blocking q ns ≡ not (satisfied (others ns) q)
  block_exact (quorum_set t v i) ns h =
      let left = 1 + (length v + size i) - t in
      ground (
        arith,
        left_till_block (length v + size i) t,
        count-others ns v,
        satisfied_count_le (others ns) i,
        block_validators_exact v ns left,
        block_inner_exact i ns (left - count (members ns) v),
      )

  -- The inner sets that are blocked are those that the others do not satisfy.
  block_inner_exact :
      (i : InnerSets) (ns : List ℕ) (left : ℕ)
      → inner_in_range i ≡ true
      → 1 ≤ left
      → block_inner i ns (pos left) ≡ leb (left + satisfied_count (others ns) i) (size i)
  block_inner_exact no_sets ns left h l = ground arith
  block_inner_exact (set_then q rest) ns left h l = ground (
    arith,
    one_less left l,
    satisfied_count_le (others ns) rest,
    block_exact q ns,
    block_inner_exact rest ns left,
    block_inner_exact rest ns (left - 1),
  )

-- For thresholds from 1 to the number of entries, of which there are fewer than 2^31, a list of
-- nodes is v-blocking exactly if the nodes outside it
-- do not satisfy the quorum set.
pub is_v_blocking_exact :
    (q : ScpQuorumSet) (ns : List ℕ)
    → thresholds_in_range q ≡ true
    → is_v_blocking q ns ≡ not (satisfied (others ns) q)
is_v_blocking_exact q ns h = block_exact q ns h

-- A node in both lists, if there is one.
unfoldable pub common : List ℕ → List ℕ → Option ℕ
common [] ns = none
common (n ∷ slice) ns = let rest = common slice ns in if mem n ns then some n else rest

no_common :
    (slice ns : List ℕ) (n : ℕ)
    → common slice ns ≡ none
    → mem n slice ≡ true
    → not (mem n ns) ≡ true
unfolding common
no_common [] ns n e h = cc
no_common (m ∷ slice) ns n e h = ground (arith, no_common slice ns n)

common-mem :
    (slice ns : List ℕ) (n : ℕ)
    → common slice ns ≡ some n
    → (mem n slice ≡ true) × (mem n ns ≡ true)
unfolding common
common-mem [] ns n h = cc
common-mem (m ∷ slice) ns n h = ground (arith, common-mem slice ns n)

mutual
  unfolding thresholds_in_range inner_in_range positive_thresholds inner_positive

  range-positive : (q : ScpQuorumSet) → thresholds_in_range q ≡ true → positive_thresholds q ≡ true
  range-positive (quorum_set t v i) h = ground (arith, inner_range-positive i)

  inner_range-positive : (i : InnerSets) → inner_in_range i ≡ true → inner_positive i ≡ true
  inner_range-positive no_sets h = refl
  inner_range-positive (set_then q rest) h =
      ground (arith, range-positive q, inner_range-positive rest)

-- For thresholds from 1 to the number of entries, of which there are fewer than 2^31, a v-blocking
-- list of nodes and a quorum slice have a node in
-- common.
pub blocking_meets_slice :
    (q : ScpQuorumSet) (slice ns : List ℕ)
    → thresholds_in_range q ≡ true
    → is_quorum_slice q slice ≡ true
    → is_v_blocking q ns ≡ true
    → (n : ℕ) × (mem n slice ≡ true) × (mem n ns ≡ true)
blocking_meets_slice q slice ns h s b = elim (Option-cases (common slice ns)) [
  | inr (n, e) ↦ (n, (common-mem slice ns n e).0, (common-mem slice ns n e).1)
  | inl e ↦
      let all : satisfied (others ns) q ≡ true =
        satisfied_mono (members slice) (others ns) q (λ n i. no_common slice ns n e i)
          (sym (is_quorum_slice_exact q slice (range-positive q h)) ∙ s) in
      let some_missing : satisfied (others ns) q ≡ false =
        ground (arith, is_v_blocking_exact q ns h) in
      cc
]

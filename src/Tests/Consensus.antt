-- ===== src/Tests/Consensus.antt =====
-- A quorum set of two levels: scp/LocalNode.cpp and scp/QuorumSetUtils.cpp.
use essa_core.Prelude.{
  ℕ, ◌≡◌, ◌↔◌, Bool, true, not, ◌&&◌, Option, none, some, List, [], ◌∷◌, leb, length, mem, refl,
  if◌then◌else◌, arith,
}
use essa_core.Scp.QuorumSet.{
  ScpQuorumSet, quorum_set, no_sets, set_then, is_quorum_set_sane, normalize_q_set, lowered,
  is_singleton, simplify, merge, normalize_inner,
}
use essa_core.Scp.QuorumSet.Satisfied.{satisfied, satisfied_count}
use essa_core.Scp.QuorumSet.Sane.{nodes, levels_sane, countable, distinct, is_quorum_set_sane_exact}
use essa_core.Scp.QuorumSet.Normalize.{removable, inner_removable, satisfied-normalize_q_set}
use essa_core.Scp.LocalNode.{
  is_quorum_slice, is_v_blocking, filter_nodes, is_quorum, find_closest_v_blocking,
}
use essa_core.Scp.LocalNode.Slices.{
  members, positive_thresholds, inner_positive, is_quorum_slice_exact,
}
use essa_core.Scp.LocalNode.Blocking.{
  others, thresholds_in_range, inner_in_range, is_v_blocking_exact, blocking_meets_slice,
}
use essa_core.Scp.LocalNode.Quorum.{Subset, IsQuorumOf, HasSlices, is_quorum_exact}
use essa_core.Scp.LocalNode.Closest.{IsClosest, find_closest_v_blocking-IsClosest}
use essa_core.Scp.LocalNode.InQuorum.{TriBool, is_node_in_quorum}
use essa_core.Scp.LocalNode.InQuorum.Reached.{Answers, is_node_in_quorum-Answers}

-- Two of node 1, node 2 and any one of the nodes 3 and 4.
abbrev two_of : ScpQuorumSet
two_of = quorum_set 2 (1 ∷ 2 ∷ []) (set_then (quorum_set 1 (3 ∷ 4 ∷ []) no_sets) no_sets)

two_of_positive : positive_thresholds two_of ≡ true
unfolding positive_thresholds inner_positive
two_of_positive = refl

two_of_in_range : thresholds_in_range two_of ≡ true
unfolding thresholds_in_range inner_in_range
two_of_in_range = refl

is_quorum_slice_exact_example :
    is_quorum_slice two_of (4 ∷ 2 ∷ []) ≡ satisfied (members (4 ∷ 2 ∷ [])) two_of
is_quorum_slice_exact_example = is_quorum_slice_exact two_of (4 ∷ 2 ∷ []) two_of_positive

is_v_blocking_exact_example :
    is_v_blocking two_of (1 ∷ 2 ∷ []) ≡ not (satisfied (others (1 ∷ 2 ∷ [])) two_of)
is_v_blocking_exact_example = is_v_blocking_exact two_of (1 ∷ 2 ∷ []) two_of_in_range

slice_of_two : is_quorum_slice two_of (4 ∷ 2 ∷ []) ≡ true
unfolding satisfied satisfied_count
slice_of_two = is_quorum_slice_exact two_of (4 ∷ 2 ∷ []) two_of_positive

blocked_by_two : is_v_blocking two_of (1 ∷ 2 ∷ []) ≡ true
unfolding satisfied satisfied_count
blocked_by_two = is_v_blocking_exact two_of (1 ∷ 2 ∷ []) two_of_in_range

blocking_meets_slice_example : (n : ℕ) × (mem n (4 ∷ 2 ∷ []) ≡ true) × (mem n (1 ∷ 2 ∷ []) ≡ true)
blocking_meets_slice_example =
    blocking_meets_slice two_of (4 ∷ 2 ∷ []) (1 ∷ 2 ∷ []) two_of_in_range slice_of_two
      blocked_by_two

-- Nodes 1, 2 and 3 have announced quorum sets, node 3 one that only node 9 satisfies.
abbrev announced : List (ℕ × ScpQuorumSet)
announced = (1, two_of) ∷ (2, two_of) ∷ (3, quorum_set 1 (9 ∷ []) no_sets) ∷ []

abbrev positive_or_unknown : ScpQuorumSet → Option ScpQuorumSet
positive_or_unknown q = if positive_thresholds q then some q else none

abbrev accepts : ScpQuorumSet → Bool
accepts q = true

announced-HasSlices : HasSlices announced positive_or_unknown
announced-HasSlices st q e = ground arith

is_quorum_exact_example :
    (b : Bool) × (is_quorum two_of announced positive_or_unknown accepts ≡ some b)
    × ((b ≡ true) ↔ (
        (q : List ℕ) × Subset q (filter_nodes announced accepts)
        × IsQuorumOf announced positive_or_unknown q
        × (is_quorum_slice two_of q ≡ true)))
is_quorum_exact_example =
    is_quorum_exact announced positive_or_unknown two_of accepts two_of_positive announced-HasSlices

find_closest_v_blocking-IsClosest_example :
    IsClosest two_of (1 ∷ 3 ∷ 4 ∷ []) (find_closest_v_blocking two_of (1 ∷ 3 ∷ 4 ∷ []) none)
find_closest_v_blocking-IsClosest_example =
    find_closest_v_blocking-IsClosest two_of (1 ∷ 3 ∷ 4 ∷ []) two_of_in_range

two_of-countable : countable two_of ≡ true
unfolding countable
two_of-countable = ground arith

is_quorum_set_sane_exact_example : is_quorum_set_sane two_of true ≡ (
    levels_sane true 0 two_of
    && distinct (nodes two_of)
    && leb 1 (length (nodes two_of))
    && leb (length (nodes two_of)) 1000)
is_quorum_set_sane_exact_example = is_quorum_set_sane_exact two_of true two_of-countable

-- Node 2 removed: one of node 1 and any one of the nodes 3 and 4.
normalized :
    normalize_q_set (some 2) two_of
    ≡ quorum_set 1 (1 ∷ []) (set_then (quorum_set 1 (3 ∷ 4 ∷ []) no_sets) no_sets)
unfolding normalize_q_set normalize_inner lowered is_singleton simplify merge
normalized = refl

two_of-removable : removable (some 2) two_of ≡ true
unfolding removable inner_removable
two_of-removable = refl

satisfied-normalize_q_set_example :
    satisfied (members (2 ∷ 3 ∷ [])) (normalize_q_set (some 2) two_of)
    ≡ satisfied (members (2 ∷ 3 ∷ [])) two_of
satisfied-normalize_q_set_example =
    satisfied-normalize_q_set (some 2) (members (2 ∷ 3 ∷ [])) two_of (λ n i. ground arith)
      two_of-removable

-- A statement is its quorum set here; node 2 has sent nothing.
abbrev sent : List (ℕ × List ScpQuorumSet)
sent = (1, two_of ∷ []) ∷ (3, quorum_set 1 (3 ∷ []) no_sets ∷ []) ∷ []

is_node_in_quorum-Answers_example :
    (r : TriBool) × (is_node_in_quorum some sent 1 4 ≡ some r) × Answers some sent 1 4 r
is_node_in_quorum-Answers_example = is_node_in_quorum-Answers some sent 1 4

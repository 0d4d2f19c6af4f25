-- ===== src/Scp/LocalNode.antt =====
-- scp/LocalNode.cpp: quorum slices, v-blocking sets, quorums and node weights. The map from nodes to
-- envelopes is a list of nodes with their statements, in the map's order.
pub mod Slices
pub mod Blocking
pub mod Quorum
pub mod Sublists
pub mod Candidates
pub mod Closest
pub mod InQuorum
use essa_core.Prelude.{
  ℕ, zero, suc, ◌+◌, ◌-◌, ◌%◌, ◌^◌, Bool, true, false, not, ◌&&◌, ◌||◌, Option, none, some, List,
  [], ◌∷◌, ◌++◌, ltb, leb, ◌==◌, if◌then◌else◌, length, keep, count, mem, map,
}
use essa_core.Prelude.Int.{ℤ, pos, negsuc, ◌-ℤ◌, ltb_ℤ}
use essa_core.Util.Numeric.{uint64_max, round_up, big_divide_u64}
use essa_core.Scp.QuorumSet.{ScpQuorumSet, InnerSets, quorum_set, no_sets, set_then, size, is_id}

unfoldable pub build_singleton_q_set : ℕ → ScpQuorumSet
build_singleton_q_set node_id = quorum_set 1 (node_id ∷ []) no_sets

-- forAllNodes, with the nodes in the order in which `proc` is called.
unfoldable mutual
  pub for_all_nodes : ScpQuorumSet → List ℕ
  for_all_nodes (quorum_set t v i) = v ++ for_all_inner i

  pub for_all_inner : InnerSets → List ℕ
  for_all_inner no_sets = []
  for_all_inner (set_then q rest) = for_all_nodes q ++ for_all_inner rest

-- m * threshold / total, rounded up; the callers keep threshold ≤ total.
unfoldable pub compute_weight : ℕ → ℕ → ℕ → ℕ
compute_weight m total threshold = (big_divide_u64 m threshold total round_up).1

unfoldable mutual
  pub get_node_weight : ℕ → ScpQuorumSet → ℕ
  get_node_weight node_id (quorum_set n v i) =
      let d = size i + length v in
      if mem node_id v then compute_weight uint64_max d n else inner_weight node_id i d n

  pub inner_weight : ℕ → InnerSets → ℕ → ℕ → ℕ
  inner_weight node_id no_sets d n = 0
  inner_weight node_id (set_then q rest) d n =
      let leaf = get_node_weight node_id q in
      let others = inner_weight node_id rest d n in
      if leaf == 0 then others else compute_weight leaf d n

-- `thresholdLeft--` on a `uint32`.
unfoldable pub decrement : ℕ → ℕ
decrement left = (left + 2 ^ 32 - 1) % 2 ^ 32

-- The loop over the validators: `none` where it returns true, else what is left of the threshold.
unfoldable pub slice_validators : List ℕ → List ℕ → ℕ → Option ℕ
slice_validators [] node_set left = some left
slice_validators (n ∷ v) node_set left =
    let found = mem n node_set in
    let rest = slice_validators v node_set (if found then decrement left else left) in
    if found && decrement left == 0 then none else rest

unfoldable mutual
  pub is_quorum_slice : ScpQuorumSet → List ℕ → Bool
  is_quorum_slice (quorum_set threshold v i) node_set =
      elim (slice_validators v node_set threshold) [
        | none ↦ true
        | some left ↦ slice_inner i node_set left
      ]

  pub slice_inner : InnerSets → List ℕ → ℕ → Bool
  slice_inner no_sets node_set left = false
  slice_inner (set_then q rest) node_set left =
      let found = is_quorum_slice q node_set in
      let others = slice_inner rest node_set (if found then decrement left else left) in
      if found && decrement left == 0 then true else others

-- `(int)` of a `size_t`.
unfoldable pub to_int : ℕ → ℤ
to_int x = if ltb (x % 2 ^ 32) (2 ^ 31) then pos (x % 2 ^ 32) else negsuc (2 ^ 32 - 1 - x % 2 ^ 32)

unfoldable pub block_validators : List ℕ → List ℕ → ℤ → Option ℤ
block_validators [] node_set left = some left
block_validators (n ∷ v) node_set left =
    let found = mem n node_set in
    let rest = block_validators v node_set (if found then left -ℤ pos 1 else left) in
    if found && not (ltb_ℤ (pos 0) (left -ℤ pos 1)) then none else rest

-- There is no v-blocking set for a threshold of 0.
unfoldable mutual
  pub is_v_blocking : ScpQuorumSet → List ℕ → Bool
  is_v_blocking (quorum_set threshold v i) node_set =
      if threshold == 0
      then false
      else elim (block_validators v node_set
          (to_int ((1 + (length v + size i) + 2 ^ 64 - threshold) % 2 ^ 64))) [
            | none ↦ true
            | some left ↦ block_inner i node_set left
          ]

  pub block_inner : InnerSets → List ℕ → ℤ → Bool
  block_inner no_sets node_set left = false
  block_inner (set_then q rest) node_set left =
      let found = is_v_blocking q node_set in
      let others = block_inner rest node_set (if found then left -ℤ pos 1 else left) in
      if found && not (ltb_ℤ (pos 0) (left -ℤ pos 1)) then true else others

module _ {S : Type 0} where
  -- The nodes whose statement passes the filter.
  unfoldable pub filter_nodes : List (ℕ × S) → (S → Bool) → List ℕ
  filter_nodes [] filter = []
  filter_nodes ((n, st) ∷ m) filter =
      if filter st then n ∷ filter_nodes m filter else filter_nodes m filter

  unfoldable pub find_statement : ℕ → List (ℕ × S) → Option S
  find_statement n [] = none
  find_statement n ((k, st) ∷ m) = if k == n then some st else find_statement n m

  -- isVBlocking on a map of envelopes.
  unfoldable pub is_v_blocking_filtered : ScpQuorumSet → List (ℕ × S) → (S → Bool) → Bool
  is_v_blocking_filtered q m filter = is_v_blocking q (filter_nodes m filter)

  -- quorumFilter: the node's quorum set is known and has a slice among `p_nodes`.
  unfoldable pub quorum_filter : List (ℕ × S) → (S → Option ScpQuorumSet) → List ℕ → ℕ → Bool
  quorum_filter m qfun p_nodes n = elim (find_statement n m) [
    | none ↦ false
    | some st ↦ elim (qfun st) [ none ↦ false | some q ↦ is_quorum_slice q p_nodes ]
  ]

  -- The loop that drops nodes until none is dropped. Each round but the last shortens the list, so
  -- its length and one more round are enough.
  unfoldable pub prune : ℕ → List (ℕ × S) → (S → Option ScpQuorumSet) → List ℕ → Option (List ℕ)
  prune zero m qfun p_nodes = none
  prune (suc fuel) m qfun p_nodes =
      let f_nodes = keep (quorum_filter m qfun p_nodes) p_nodes in
      let rest = prune fuel m qfun f_nodes in
      if length p_nodes == length f_nodes then some f_nodes else rest

  unfoldable pub is_quorum :
      ScpQuorumSet → List (ℕ × S) → (S → Option ScpQuorumSet) → (S → Bool) → Option Bool
  is_quorum q m qfun filter =
      let p_nodes = filter_nodes m filter in
      elim (prune (length p_nodes + 1) m qfun p_nodes) [
        | none ↦ none
        | some nodes ↦ some (is_quorum_slice q nodes)
      ]

-- The loop of findClosestVBlocking over the validators: what is left to block and those that could
-- be, or `none` where enough are missing. `leftTillBlock` is a `size_t`.
unfoldable pub closest_validators : List ℕ → List ℕ → Option ℕ → ℕ → Option (ℕ × List ℕ)
closest_validators [] nodes excluded left = some (left, [])
closest_validators (n ∷ v) nodes excluded left =
    let skip = is_id excluded n in
    let missing = not skip && not (mem n nodes) in
    let left' = if missing then (left + 2 ^ 64 - 1) % 2 ^ 64 else left in
    let rest = closest_validators v nodes excluded left' in
    if missing && left' == 0 then none else elim rest [
      | none ↦ none
      | some (l, res) ↦ some (l, if skip || missing then res else n ∷ res)
    ]

-- `std::multiset` ordered by size: after those that are not larger.
unfoldable pub emplace : List ℕ → List (List ℕ) → List (List ℕ)
emplace v [] = v ∷ []
emplace v (w ∷ ws) = if ltb (length v) (length w) then v ∷ w ∷ ws else w ∷ emplace v ws

-- The smallest sets first, while there is something left to block.
unfoldable pub use_subsets : ℕ → List (List ℕ) → List ℕ
use_subsets zero sets = []
use_subsets (suc left) [] = []
use_subsets (suc left) (v ∷ sets) = v ++ use_subsets left sets

abbrev pub take : ℕ → List ℕ → List ℕ
take zero xs = []
take (suc n) [] = []
take (suc n) (x ∷ xs) = x ∷ take n xs

-- `resInternals`, or `none` where enough inner sets are blocked.
unfoldable mutual
  pub find_closest_v_blocking : ScpQuorumSet → List ℕ → Option ℕ → List ℕ
  find_closest_v_blocking (quorum_set t v i) nodes excluded =
      elim (closest_validators v nodes excluded ((1 + (length v + size i) + 2 ^ 64 - t) % 2 ^ 64)) [
        | none ↦ []
        | some (left, res) ↦ elim (closest_inner i nodes excluded left []) [
          | none ↦ []
          | some (left', internals) ↦
              take left' res ++ use_subsets (left' - length (take left' res)) internals
        ]
      ]

  pub closest_inner : InnerSets → List ℕ → Option ℕ → ℕ → List (List ℕ) → Option (ℕ × List (List ℕ))
  closest_inner no_sets nodes excluded left internals = some (left, internals)
  closest_inner (set_then q rest) nodes excluded left internals =
      let v = find_closest_v_blocking q nodes excluded in
      let empty = length v == 0 in
      let left' = if empty then (left + 2 ^ 64 - 1) % 2 ^ 64 else left in
      let others =
        closest_inner rest nodes excluded left'
          (if empty then internals else emplace v internals) in
      if empty && left' == 0 then none else others

-- findClosestVBlocking on a map of envelopes, whose nodes are a set already.
unfoldable pub find_closest_v_blocking_filtered :
    {S : Type 0} → ScpQuorumSet → List (ℕ × S) → (S → Bool) → Option ℕ → List ℕ
find_closest_v_blocking_filtered q m filter excluded =
    find_closest_v_blocking q (filter_nodes m filter) excluded

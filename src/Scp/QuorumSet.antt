-- ===== src/Scp/QuorumSet.antt =====
-- SCPQuorumSet of xdr/EssaBlockChain-SCP.x, and scp/QuorumSetUtils.cpp. A NodeID is an opaque key,
-- which is only compared: a number here.
pub mod Satisfied
pub mod Sane
pub mod Normalize
use essa_core.Prelude.{
  ℕ, ◌+◌, ◌-◌, ◌%◌, ◌^◌, Bool, true, false, not, ◌&&◌, ◌||◌, Option, none, some, List, [], ◌∷◌,
  ◌++◌, ltb, leb, ◌==◌, if◌then◌else◌, length, keep, count, mem,
}

mutual
  pub data ScpQuorumSet : Type 0 where
    quorum_set : (threshold : ℕ) → List ℕ → InnerSets → ScpQuorumSet

  pub data InnerSets : Type 0 where
    no_sets : InnerSets
    set_then : ScpQuorumSet → InnerSets → InnerSets

abbrev pub size : InnerSets → ℕ
size no_sets = 0
size (set_then q rest) = size rest + 1

-- The state of QuorumSetSanityChecker: mKnownNodes and mCount.
pub record Checker : Type 0 where
  pub known_nodes : List ℕ
  pub node_count : ℕ

-- `none` where a validator was already known.
unfoldable pub insert_nodes : List ℕ → List ℕ → Option (List ℕ)
insert_nodes [] known = some known
insert_nodes (n ∷ ns) known =
    let rest = insert_nodes ns (n ∷ known) in if mem n known then none else rest

-- The tests before the validators are looked at; the v-blocking size is a `size_t`.
unfoldable pub threshold_sane : Bool → ℕ → ℕ → Bool
threshold_sane extra_checks threshold tot_entries =
    not (ltb threshold 1)
    && not (ltb tot_entries threshold)
    && not (extra_checks && ltb threshold ((tot_entries + 2 ^ 64 - threshold + 1) % 2 ^ 64))

-- checkSanity, with `none` for false. The count of a set whose check fails is not read again.
unfoldable mutual
  pub check_sanity : Bool → ScpQuorumSet → ℕ → Checker → Option Checker
  check_sanity extra (quorum_set threshold v i) depth c =
      if ltb 2 depth || not (threshold_sane extra threshold (length v + size i))
      then none
      else elim (insert_nodes v c.known_nodes) [
        | none ↦ none
        | some known ↦
            check_inner extra i (depth + 1)
              (record { known_nodes = known; node_count = c.node_count + length v })
      ]

  pub check_inner : Bool → InnerSets → ℕ → Checker → Option Checker
  check_inner extra no_sets depth c = some c
  check_inner extra (set_then q rest) depth c = elim (check_sanity extra q depth c) [
    | none ↦ none
    | some c' ↦ check_inner extra rest depth c'
  ]

unfoldable pub is_quorum_set_sane : ScpQuorumSet → Bool → Bool
is_quorum_set_sane q extra =
    elim (check_sanity extra q 0 (record { known_nodes = []; node_count = 0 })) [
      | none ↦ false
      | some c ↦ leb 1 c.node_count && leb c.node_count 1000
    ]

abbrev pub is_id : Option ℕ → ℕ → Bool
is_id none n = false
is_id (some id) n = n == id

-- The `uint32` threshold less the validators that were removed.
unfoldable pub lowered : ℕ → ℕ → ℕ
lowered threshold removed = (threshold + 2 ^ 32 - removed % 2 ^ 32) % 2 ^ 32

-- A set of one validator and nothing else.
unfoldable pub is_singleton : ScpQuorumSet → Option ℕ
is_singleton (quorum_set t (n ∷ []) no_sets) = if t == 1 then some n else none
is_singleton (quorum_set t v i) = none

-- { t: 1, { innerSet } } into innerSet.
unfoldable pub simplify : ScpQuorumSet → ScpQuorumSet
simplify (quorum_set t [] (set_then q no_sets)) =
    if t == 1 then q else quorum_set t [] (set_then q no_sets)
simplify q = q

unfoldable pub merge : ScpQuorumSet → List ℕ × InnerSets → List ℕ × InnerSets
merge q (singles, rest) = elim (is_singleton q) [
  | some n ↦ (n ∷ singles, rest)
  | none ↦ (singles, set_then q rest)
]

unfoldable mutual
  pub normalize_q_set : Option ℕ → ScpQuorumSet → ScpQuorumSet
  normalize_q_set id (quorum_set threshold v i) =
      let kept = keep (λ n. not (is_id id n)) v in
      let inner = normalize_inner id i in
      simplify (quorum_set (lowered threshold (count (is_id id) v)) (kept ++ inner.0) inner.1)

  -- The validators to append, and the inner sets that stay.
  pub normalize_inner : Option ℕ → InnerSets → List ℕ × InnerSets
  normalize_inner id no_sets = ([], no_sets)
  normalize_inner id (set_then q rest) = merge (normalize_q_set id q) (normalize_inner id rest)

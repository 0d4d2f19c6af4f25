-- ===== src/Scp/LocalNode/InQuorum.antt =====
-- LocalNode::isNodeInQuorum of scp/LocalNode.cpp: a search over the quorum sets of the nodes. The sets
-- of nodes are lists; begin() is the head.
pub mod Search
pub mod Reached
use essa_core.Prelude.{
  ℕ, zero, suc, ◌+◌, Bool, true, false, not, ◌||◌, Option, none, some, List, [], ◌∷◌, ◌++◌, ◌==◌,
  if◌then◌else◌, keep, mem, length,
}
use essa_core.Scp.QuorumSet.{ScpQuorumSet}
use essa_core.Scp.LocalNode.{for_all_nodes}

pub data TriBool : Type 0 where
  tb_true tb_false tb_maybe : TriBool

-- backlog.insert for each node that has not been visited.
unfoldable pub insert_unvisited : List ℕ → List ℕ → List ℕ → List ℕ
insert_unvisited visited [] backlog = backlog
insert_unvisited visited (n ∷ ns) backlog =
    insert_unvisited visited ns (if mem n visited || mem n backlog then backlog else n ∷ backlog)

-- backlog.erase
unfoldable pub erase_node : ℕ → List ℕ → List ℕ
erase_node c = keep (λ n. not (n == c))

-- One quorum set, if it is known.
unfoldable pub explore_set : List ℕ → Option ScpQuorumSet → List ℕ → TriBool → List ℕ × TriBool
unfolding insert_unvisited for_all_nodes
explore_set visited none backlog res = (backlog, tb_maybe)
explore_set visited (some q) backlog res = (insert_unvisited visited (for_all_nodes q) backlog, res)

unfoldable pub names : Option ScpQuorumSet → List ℕ
unfolding for_all_nodes
names none = []
names (some q) = for_all_nodes q

-- `qfun` gives the quorum set of a statement, if it is known.
module _ {ℓ} {St : Type ℓ} (qfun : St → Option ScpQuorumSet) (statements : List (ℕ × List St)) where
  unfoldable pub find_statements : ℕ → List (ℕ × List St) → Option (List St)
  find_statements c [] = none
  find_statements c ((n, sts) ∷ m) = if c == n then some sts else find_statements c m

  unfoldable pub explore : List ℕ → List St → List ℕ → TriBool → List ℕ × TriBool
  unfolding explore_set
  explore visited [] backlog res = (backlog, res)
  explore visited (st ∷ sts) backlog res =
      let next = explore_set visited (qfun st) backlog res in explore visited sts next.0 next.1

  unfoldable pub visit_found : List ℕ → Option (List St) → List ℕ → TriBool → List ℕ × TriBool
  unfolding explore
  visit_found visited none backlog res = (backlog, tb_maybe)
  visit_found visited (some sts) backlog res = explore visited sts backlog res

  unfoldable pub visit : ℕ → List ℕ → List ℕ → TriBool → List ℕ × TriBool
  unfolding visit_found find_statements
  visit c visited backlog res = visit_found visited (find_statements c statements) backlog res

  -- The loop, with the rounds that it may take.
  unfoldable pub search : ℕ → ℕ → List ℕ → List ℕ → TriBool → Option TriBool
  unfolding visit erase_node
  search zero node backlog visited res = none
  search (suc rounds) node [] visited res = some res
  search (suc rounds) node (c ∷ rest) visited res =
      let next = visit c (c ∷ visited) (erase_node c (c ∷ rest)) res in
      let answer = search rounds node next.0 (c ∷ visited) next.1 in
      if c == node then some tb_true else answer

  -- The nodes that the known quorum sets of some statements name.
  unfoldable pub nodes_of : List St → List ℕ
  unfolding names
  nodes_of [] = []
  nodes_of (st ∷ sts) = names (qfun st) ++ nodes_of sts

  unfoldable pub nodes_of_all : List (ℕ × List St) → List ℕ
  unfolding nodes_of
  nodes_of_all [] = []
  nodes_of_all ((n, sts) ∷ m) = nodes_of sts ++ nodes_of_all m

  -- With a round for every node there is, and one to see that nothing is left.
  unfoldable pub is_node_in_quorum : ℕ → ℕ → Option TriBool
  unfolding search nodes_of_all
  is_node_in_quorum node_id node =
      search (length (node_id ∷ nodes_of_all statements) + 2) node (node_id ∷ []) [] tb_false

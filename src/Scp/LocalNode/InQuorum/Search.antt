-- ===== src/Scp/LocalNode/InQuorum/Search.antt =====
-- What one round of LocalNode::isNodeInQuorum does to the sets of nodes: scp/LocalNode.cpp.
use essa_core.Prelude.{
  ℕ, ◌≤◌, ◌<◌, ◌≡◌, refl, Bool, true, false, not, ◌&&◌, ◌||◌, arith, Option, none, some, List, [],
  ◌∷◌, ◌++◌, ◌==◌, mem, count,
}
use essa_core.Scp.QuorumSet.{ScpQuorumSet}
use essa_core.Scp.LocalNode.{for_all_nodes}
use essa_core.Scp.LocalNode.InQuorum.{
  TriBool, tb_true, tb_false, insert_unvisited, erase_node, find_statements, explore, visit,
  nodes_of, explore_set, names, visit_found,
}

pub mem-append : (x : ℕ) (xs ys : List ℕ) → mem x (xs ++ ys) ≡ (mem x xs || mem x ys)
mem-append x [] ys = refl
mem-append x (n ∷ xs) ys = ground (arith, mem-append x xs ys)

mem-insert_unvisited :
    (x : ℕ) (vis ns b : List ℕ)
    → mem x (insert_unvisited vis ns b) ≡ (mem x b || mem x ns && not (mem x vis))
unfolding insert_unvisited
mem-insert_unvisited x vis [] b = ground arith
mem-insert_unvisited x vis (n ∷ ns) b =
    ground (arith, mem-insert_unvisited x vis ns b, mem-insert_unvisited x vis ns (n ∷ b))

pub mem-erase_node : (x c : ℕ) (b : List ℕ) → mem x (erase_node c b) ≡ (mem x b && not (x == c))
unfolding erase_node
mem-erase_node x c [] = refl
mem-erase_node x c (n ∷ b) = ground (arith, mem-erase_node x c b)

fewer :
    (c : ℕ) (vis ns : List ℕ)
    → count (λ n. not (mem n (c ∷ vis))) ns ≤ count (λ n. not (mem n vis)) ns
fewer c vis [] = omega arith
fewer c vis (n ∷ ns) = ground (arith, fewer c vis ns)

-- A node that was not visited yet is one fewer to go.
pub count-visit :
    (c : ℕ) (vis ns : List ℕ)
    → mem c ns ≡ true
    → mem c vis ≡ false
    → count (λ n. not (mem n (c ∷ vis))) ns < count (λ n. not (mem n vis)) ns
count-visit c vis [] h g = absurd (ground (arith, h))
count-visit c vis (n ∷ ns) h g = ground (arith, h, g, count-visit c vis ns, fewer c vis ns)

unfoldable pub is_false : TriBool → Bool
is_false tb_false = true
is_false _ = false

unfoldable pub is_true : TriBool → Bool
is_true tb_true = true
is_true _ = false

abbrev pub is_some {ℓ} : {A : Type ℓ} → Option A → Bool
is_some none = false
is_some (some _) = true

module _ {ℓ} {St : Type ℓ} (qfun : St → Option ScpQuorumSet) (statements : List (ℕ × List St)) where
  -- The quorum sets of all these statements are known.
  unfoldable pub all_known : List St → Bool
  all_known [] = true
  all_known (st ∷ sts) = is_some (qfun st) && all_known sts

  unfoldable pub known_found : Option (List St) → Bool
  unfolding all_known
  known_found none = false
  known_found (some sts) = all_known sts

  -- The statements of a node, and their quorum sets, are known.
  unfoldable pub known : ℕ → Bool
  unfolding known_found
  known c = known_found (find_statements qfun statements c statements)

  unfoldable pub nodes_found : Option (List St) → List ℕ
  unfolding nodes_of
  nodes_found none = []
  nodes_found (some sts) = nodes_of qfun statements sts

  -- The nodes that a node's known quorum sets name.
  unfoldable pub neighbours : ℕ → List ℕ
  unfolding nodes_found
  neighbours c = nodes_found (find_statements qfun statements c statements)

  mem-explore_set :
      (x : ℕ) (vis : List ℕ) (q : Option ScpQuorumSet) (b : List ℕ) (r : TriBool)
      → mem x (explore_set vis q b r).0 ≡ (mem x b || mem x (names q) && not (mem x vis))
  unfolding explore_set names
  mem-explore_set x vis none b r = ground arith
  mem-explore_set x vis (some q) b r = mem-insert_unvisited x vis (for_all_nodes q) b

  mem-explore :
      (x : ℕ) (vis : List ℕ) (sts : List St) (b : List ℕ) (r : TriBool)
      → mem x (explore qfun statements vis sts b r).0
        ≡ (mem x b || mem x (nodes_of qfun statements sts) && not (mem x vis))
  unfolding explore nodes_of
  mem-explore x vis [] b r = ground arith
  mem-explore x vis (st ∷ sts) b r =
      let next = explore_set vis (qfun st) b r in
      ground (
        arith,
        mem-explore x vis sts next.0 next.1,
        mem-explore_set x vis (qfun st) b r,
        mem-append x (names (qfun st)) (nodes_of qfun statements sts),
      )

  mem-visit_found :
      (x : ℕ) (vis : List ℕ) (sts : Option (List St)) (b : List ℕ) (r : TriBool)
      → mem x (visit_found qfun statements vis sts b r).0
        ≡ (mem x b || mem x (nodes_found sts) && not (mem x vis))
  unfolding visit_found nodes_found
  mem-visit_found x vis none b r = ground arith
  mem-visit_found x vis (some sts) b r = mem-explore x vis sts b r

  pub mem-visit :
      (x c : ℕ) (vis b : List ℕ) (r : TriBool)
      → mem x (visit qfun statements c vis b r).0
        ≡ (mem x b || mem x (neighbours c) && not (mem x vis))
  unfolding visit neighbours
  mem-visit x c vis b r = mem-visit_found x vis (find_statements qfun statements c statements) b r

  explore_set_false :
      (vis : List ℕ) (q : Option ScpQuorumSet) (b : List ℕ) (r : TriBool)
      → is_false (explore_set vis q b r).1 ≡ (is_false r && is_some q)
  unfolding explore_set is_false
  explore_set_false vis none b r = ground arith
  explore_set_false vis (some q) b r = ground arith

  explore_false :
      (vis : List ℕ) (sts : List St) (b : List ℕ) (r : TriBool)
      → is_false (explore qfun statements vis sts b r).1 ≡ (is_false r && all_known sts)
  unfolding explore all_known
  explore_false vis [] b r = ground arith
  explore_false vis (st ∷ sts) b r =
      let next = explore_set vis (qfun st) b r in
      ground (arith, explore_false vis sts next.0 next.1, explore_set_false vis (qfun st) b r)

  visit_found_false :
      (vis : List ℕ) (sts : Option (List St)) (b : List ℕ) (r : TriBool)
      → is_false (visit_found qfun statements vis sts b r).1 ≡ (is_false r && known_found sts)
  unfolding visit_found known_found is_false
  visit_found_false vis none b r = ground arith
  visit_found_false vis (some sts) b r = explore_false vis sts b r

  pub visit_false :
      (c : ℕ) (vis b : List ℕ) (r : TriBool)
      → is_false (visit qfun statements c vis b r).1 ≡ (is_false r && known c)
  unfolding visit known
  visit_false c vis b r = visit_found_false vis (find_statements qfun statements c statements) b r

  explore_set_true :
      (vis : List ℕ) (q : Option ScpQuorumSet) (b : List ℕ) (r : TriBool)
      → is_true r ≡ false
      → is_true (explore_set vis q b r).1 ≡ false
  unfolding explore_set is_true
  explore_set_true vis none b r h = refl
  explore_set_true vis (some q) b r h = h

  explore_true :
      (vis : List ℕ) (sts : List St) (b : List ℕ) (r : TriBool)
      → is_true r ≡ false
      → is_true (explore qfun statements vis sts b r).1 ≡ false
  unfolding explore
  explore_true vis [] b r h = h
  explore_true vis (st ∷ sts) b r h =
      explore_true vis sts _ _ (explore_set_true vis (qfun st) b r h)

  visit_found_true :
      (vis : List ℕ) (sts : Option (List St)) (b : List ℕ) (r : TriBool)
      → is_true r ≡ false
      → is_true (visit_found qfun statements vis sts b r).1 ≡ false
  unfolding visit_found is_true
  visit_found_true vis none b r h = refl
  visit_found_true vis (some sts) b r h = explore_true vis sts b r h

  pub visit_true :
      (c : ℕ) (vis b : List ℕ) (r : TriBool)
      → is_true r ≡ false
      → is_true (visit qfun statements c vis b r).1 ≡ false
  unfolding visit
  visit_true c vis b r = visit_found_true vis (find_statements qfun statements c statements) b r

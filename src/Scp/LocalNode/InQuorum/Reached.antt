-- ===== src/Scp/LocalNode/InQuorum/Reached.antt =====
-- The search of LocalNode::isNodeInQuorum as a whole: scp/LocalNode.cpp.
use essa_core.Prelude.{
  ℕ, zero, suc, ◌+◌, ◌<◌, ◌≡◌, refl, ap, ◌∙◌, true, false, not, ◌&&◌, ◌||◌, arith, Option, some,
  List, [], ◌∷◌, ◌==◌, ==_iff, mem, length, count, count-le-length, Bool-cases, inl, inr,
}
use essa_core.Scp.QuorumSet.{ScpQuorumSet}
use essa_core.Scp.LocalNode.InQuorum.{
  TriBool, tb_true, tb_false, erase_node, find_statements, visit, search, nodes_of, nodes_of_all,
  is_node_in_quorum,
}
use essa_core.Scp.LocalNode.InQuorum.Search.{
  mem-append, mem-erase_node, count-visit, is_false, known, neighbours, nodes_found, mem-visit,
  visit_false, visit_true, is_true,
}

module _ {ℓ} {St : Type ℓ} (qfun : St → Option ScpQuorumSet) (statements : List (ℕ × List St)) where
  -- A node that is named by a known quorum set of a node that is led to.
  pub data Leads (self : ℕ) : ℕ → Type 0 where
    here : Leads self self
    onward : {c x : ℕ} → Leads self c → mem x (neighbours qfun statements c) ≡ true → Leads self x

  mem-nodes_found :
      (x c : ℕ) (m : List (ℕ × List St))
      → mem x (nodes_found qfun statements (find_statements qfun statements c m)) ≡ true
      → mem x (nodes_of_all qfun statements m) ≡ true
  unfolding nodes_found find_statements nodes_of_all
  mem-nodes_found x c [] h = h
  mem-nodes_found x c ((n, sts) ∷ m) h = elim (Bool-cases (c == n)) [
    | inl e ↦ ground (
      arith,
      rw e at h,
      mem-append x (nodes_of qfun statements sts) (nodes_of_all qfun statements m),
    )
    | inr e ↦ ground (
      arith,
      mem-nodes_found x c m (rw e at h),
      mem-append x (nodes_of qfun statements sts) (nodes_of_all qfun statements m),
    )
  ]

  -- Where every neighbour of a visited node was visited, all that is led to was.
  led_visited :
      (self x : ℕ) (vis : List ℕ)
      → mem self vis ≡ true
      → ((c n : ℕ)
          → mem c vis ≡ true
          → mem n (neighbours qfun statements c) ≡ true
          → mem n vis ≡ true)
      → Leads self x
      → mem x vis ≡ true
  led_visited self _ vis s closed here = s
  led_visited self _ vis s closed (onward {c} {x} l e) =
      closed c x (led_visited self c vis s closed l) e

  module _ (self node : ℕ) where
    -- Between two rounds.
    record Going (universe backlog vis : List ℕ) (res : TriBool) : Type 0 where
      disjoint : (x : ℕ) → mem x backlog ≡ true → mem x vis ≡ false
      inside : (x : ℕ) → mem x backlog ≡ true → mem x universe ≡ true
      led : (x : ℕ) → mem x backlog ≡ true → Leads self x
      closed :
          (c x : ℕ)
          → mem c vis ≡ true
          → mem x (neighbours qfun statements c) ≡ true
          → (mem x vis || mem x backlog) ≡ true
      started : (mem self vis || mem self backlog) ≡ true
      unseen : mem node vis ≡ false
      sure : is_false res ≡ true → (c : ℕ) → mem c vis ≡ true → known qfun statements c ≡ true
      undecided : is_true res ≡ false

    -- The answer: whether the node is led to, and with `tb_false` that nothing was unknown.
    pub record Answers (r : TriBool) : Type 0 where
      pub found : is_true r ≡ true → Leads self node
      pub missed : is_true r ≡ false → ¬ Leads self node
      pub sure : is_false r ≡ true → (c : ℕ) → Leads self c → known qfun statements c ≡ true

    all_visited :
        (universe vis : List ℕ) (res : TriBool)
        → Going universe [] vis res
        → (x : ℕ) → Leads self x
        → mem x vis ≡ true
    all_visited universe vis res g x =
        led_visited self x vis (ground (arith, g.started))
          (λ c n h e. ground (arith, g.closed c n h e))

    done : (universe vis : List ℕ) (res : TriBool) → Going universe [] vis res → Answers res
    done universe vis res g = record {
      found = λ t. absurd (ground (arith, t, g.undecided));
      missed = λ t l. ground (arith, all_visited universe vis res g node l, g.unseen);
      sure = λ t c l. g.sure t c (all_visited universe vis res g c l);
    }

    -- A visit that does not end the search.
    module _ (universe : List ℕ) (c : ℕ) (rest vis : List ℕ) (res : TriBool)
        (next : List ℕ × TriBool) where
      visited_next :
          (around : (c x : ℕ) → mem x (neighbours qfun statements c) ≡ true → mem x universe ≡ true)
          → ((x : ℕ)
              → mem x next.0 ≡ (
                  mem x (c ∷ rest) && not (x == c)
                  || mem x (neighbours qfun statements c) && not (mem x (c ∷ vis))))
          → is_false next.1 ≡ (is_false res && known qfun statements c)
          → is_true next.1 ≡ false
          → (c == node) ≡ false
          → Going universe (c ∷ rest) vis res
          → Going universe next.0 (c ∷ vis) next.1
      visited_next around m f t other g = record {
        disjoint = λ x h. ground (arith, h, m x, g.disjoint x);
        inside = λ x h. ground (arith, h, m x, g.inside x, around c x);
        led = λ x h. elim (Bool-cases (mem x (c ∷ rest))) [
          | inl e ↦ g.led x e
          | inr e ↦ onward (g.led c (ground arith)) (ground (arith, h, e, m x))
        ];
        closed = λ a x h e. ground (arith, h, e, m x, g.closed a x);
        started = ground (arith, g.started, m self);
        unseen = ground (arith, g.unseen, other);
        sure = λ u a h. ground (arith, u, f, h, g.sure (ground (arith, u, f)) a);
        undecided = t;
      }

    -- Enough rounds for the nodes that were not visited yet.
    search_answers :
        (universe : List ℕ)
        → ((c x : ℕ) → mem x (neighbours qfun statements c) ≡ true → mem x universe ≡ true)
        → (rounds : ℕ) (backlog vis : List ℕ) (res : TriBool)
        → count (λ n. not (mem n vis)) universe < rounds
        → Going universe backlog vis res
        → (r : TriBool) × (search qfun statements rounds node backlog vis res ≡ some r) × Answers r
    unfolding search is_true is_false
    search_answers universe around zero backlog vis res h g = absurd (omega (arith, h))
    search_answers universe around (suc rounds) [] vis res h g =
        (res, refl, done universe vis res g)
    search_answers universe around (suc rounds) (c ∷ rest) vis res h g =
        elim (Bool-cases (c == node)) [
          | inl e ↦ (
            tb_true,
            rw e refl,
            record {
              found = λ _. rw (← (==_iff c node).0 e) (g.led c (ground arith));
              missed = λ t. absurd (ground (arith, t));
              sure = λ t. absurd (ground (arith, t));
            },
          )
          | inr e ↦
              let next = visit qfun statements c (c ∷ vis) (erase_node c (c ∷ rest)) res in
              let g' =
                visited_next universe c rest vis res next around
                  (λ x.
                    mem-visit qfun statements x c (c ∷ vis) (erase_node c (c ∷ rest)) res
                    ∙ ap (λ b. b || mem x (neighbours qfun statements c) && not (mem x (c ∷ vis)))
                        (mem-erase_node x c (c ∷ rest)))
                  (visit_false qfun statements c (c ∷ vis) (erase_node c (c ∷ rest)) res)
                  (visit_true qfun statements c (c ∷ vis) (erase_node c (c ∷ rest)) res g.undecided)
                  e g in
              let fewer =
                count-visit c vis universe (g.inside c (ground arith))
                  (g.disjoint c (ground arith)) in
              rw e (
                search_answers universe around rounds next.0 (c ∷ vis) next.1
                  (omega (arith, h, fewer)) g')
        ]

    -- The search of isNodeInQuorum ends within a round for every node that is named, with TB_TRUE
    -- exactly if the node is led to from the local node, over quorum sets that are known. It ends with
    -- TB_FALSE only if the statements of every node that is led to are known, with their quorum sets.
    pub is_node_in_quorum-Answers :
        (r : TriBool) × (is_node_in_quorum qfun statements self node ≡ some r) × Answers r
    unfolding is_node_in_quorum neighbours is_true is_false
    is_node_in_quorum-Answers =
        let universe = self ∷ nodes_of_all qfun statements statements in
        search_answers universe (λ c x h. ground (arith, mem-nodes_found x c statements h))
          (length universe + 2) (self ∷ []) [] tb_false
          (omega (arith, count-le-length (λ n. not (mem n [])) universe))
          (record {
            disjoint = λ x h. refl;
            inside = λ x h. ground (arith, h);
            led = λ x h. rw (← (==_iff self x).0 (ground (arith, h))) here;
            closed = λ c x h e. absurd (ground (arith, h));
            started = ground arith;
            unseen = refl;
            sure = λ t c h. absurd (ground (arith, h));
            undecided = refl;
          })

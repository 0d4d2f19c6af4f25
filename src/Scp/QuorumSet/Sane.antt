-- ===== src/Scp/QuorumSet/Sane.antt =====
-- isQuorumSetSane against what it checks, without the state of its checker.
use essa_core.Prelude.{
  ℕ, ◌+◌, ◌≡◌, refl, Bool, true, not, ◌&&◌, ◌||◌, ltb, ◌*◌, ◌^◌, Option, none, some, List, [], ◌∷◌,
  ◌++◌, leb, if◌then◌else◌, length, mem, arith, length-append,
}
use essa_core.Scp.QuorumSet.{
  ScpQuorumSet, InnerSets, quorum_set, no_sets, set_then, size, Checker, insert_nodes,
  threshold_sane, check_sanity, check_inner, is_quorum_set_sane,
}

-- All validators, an inner set's after those of the set.
unfoldable mutual
  pub nodes : ScpQuorumSet → List ℕ
  nodes (quorum_set t v i) = v ++ inner_nodes i

  pub inner_nodes : InnerSets → List ℕ
  inner_nodes no_sets = []
  inner_nodes (set_then q rest) = nodes q ++ inner_nodes rest

-- A threshold between 1 and the number of entries and, for the extra checks, more than half of them:
-- at least as many as nodes that make a v-blocking set.
abbrev pub within_range : Bool → ℕ → ℕ → Bool
within_range extra threshold entries =
    leb 1 threshold && leb threshold entries && (not extra || ltb entries (2 * threshold))

-- A threshold within its range at every level, and at most two levels below the first.
unfoldable mutual
  pub levels_sane : Bool → ℕ → ScpQuorumSet → Bool
  levels_sane extra depth (quorum_set t v i) =
      leb depth 2 && within_range extra t (length v + size i) && inner_sane extra (depth + 1) i

  pub inner_sane : Bool → ℕ → InnerSets → Bool
  inner_sane extra depth no_sets = true
  inner_sane extra depth (set_then q rest) =
      levels_sane extra depth q && inner_sane extra depth rest

-- The entries of every set can be counted in a `size_t`.
unfoldable mutual
  pub countable : ScpQuorumSet → Bool
  countable (quorum_set t v i) = ltb (length v + size i) (2 ^ 64) && inner_countable i

  pub inner_countable : InnerSets → Bool
  inner_countable no_sets = true
  inner_countable (set_then q rest) = countable q && inner_countable rest

threshold_sane_exact :
    (extra : Bool) (t entries : ℕ)
    → ltb entries (2 ^ 64) ≡ true
    → threshold_sane extra t entries ≡ within_range extra t entries
unfolding threshold_sane
threshold_sane_exact extra t entries h = ground (arith, h)

abbrev pub distinct : List ℕ → Bool
distinct [] = true
distinct (n ∷ ns) = not (mem n ns) && distinct ns

-- Distinct, and not among the known ones.
abbrev fresh : List ℕ → List ℕ → Bool
fresh [] known = true
fresh (n ∷ ns) known = not (mem n known) && fresh ns (n ∷ known)

abbrev push : List ℕ → List ℕ → List ℕ
push [] known = known
push (n ∷ ns) known = push ns (n ∷ known)

insert_nodes_exact :
    (ns known : List ℕ)
    → insert_nodes ns known ≡ (if fresh ns known then some (push ns known) else none)
unfolding insert_nodes
insert_nodes_exact [] known = refl
insert_nodes_exact (n ∷ ns) known = ground (arith, insert_nodes_exact ns (n ∷ known))

fresh-append :
    (xs ys known : List ℕ) → fresh (xs ++ ys) known ≡ (fresh xs known && fresh ys (push xs known))
fresh-append [] ys known = refl
fresh-append (x ∷ xs) ys known = ground (arith, fresh-append xs ys (x ∷ known))

push-append : (xs ys known : List ℕ) → push (xs ++ ys) known ≡ push ys (push xs known)
push-append [] ys known = refl
push-append (x ∷ xs) ys known = push-append xs ys (x ∷ known)

-- What the checker makes of nodes at levels whose sanity is known.
abbrev outcome : Bool → List ℕ → Checker → Option Checker
outcome sane ns c =
    if sane && fresh ns c.known_nodes
    then some
        (record { known_nodes = push ns c.known_nodes; node_count = c.node_count + length ns })
    else none

mutual
  unfolding check_sanity check_inner nodes inner_nodes levels_sane inner_sane countable
      inner_countable

  check_sanity_exact :
      (extra : Bool) (q : ScpQuorumSet) (depth : ℕ) (c : Checker)
      → countable q ≡ true
      → check_sanity extra q depth c ≡ outcome (levels_sane extra depth q) (nodes q) c
  check_sanity_exact extra (quorum_set t v i) depth c fits =
      let known = push v c.known_nodes in
      ground (
        arith,
        fits,
        threshold_sane_exact extra t (length v + size i),
        insert_nodes_exact v c.known_nodes,
        fresh-append v (inner_nodes i) c.known_nodes,
        push-append v (inner_nodes i) c.known_nodes,
        length-append v (inner_nodes i),
        check_inner_exact extra i (depth + 1)
            (record { known_nodes = known; node_count = c.node_count + length v }),
      )

  check_inner_exact :
      (extra : Bool) (i : InnerSets) (depth : ℕ) (c : Checker)
      → inner_countable i ≡ true
      → check_inner extra i depth c ≡ outcome (inner_sane extra depth i) (inner_nodes i) c
  check_inner_exact extra no_sets depth c fits = ground arith
  check_inner_exact extra (set_then q rest) depth c fits =
      let known = push (nodes q) c.known_nodes in
      ground (
        arith,
        fits,
        fresh-append (nodes q) (inner_nodes rest) c.known_nodes,
        push-append (nodes q) (inner_nodes rest) c.known_nodes,
        length-append (nodes q) (inner_nodes rest),
        check_sanity_exact extra q depth c,
        check_inner_exact extra rest depth
            (record { known_nodes = known; node_count = c.node_count + length (nodes q) }),
      )

-- No element of the first list is in the second.
abbrev disjoint : List ℕ → List ℕ → Bool
disjoint [] known = true
disjoint (n ∷ ns) known = not (mem n known) && disjoint ns known

disjoint-cons :
    (ns known : List ℕ) (n : ℕ) → disjoint ns (n ∷ known) ≡ (not (mem n ns) && disjoint ns known)
disjoint-cons [] known n = refl
disjoint-cons (m ∷ ns) known n = ground (arith, disjoint-cons ns known n)

fresh_exact : (ns known : List ℕ) → fresh ns known ≡ (distinct ns && disjoint ns known)
fresh_exact [] known = refl
fresh_exact (n ∷ ns) known = ground (arith, fresh_exact ns (n ∷ known), disjoint-cons ns known n)

disjoint-nil : (ns : List ℕ) → disjoint ns [] ≡ true
disjoint-nil [] = refl
disjoint-nil (n ∷ ns) = disjoint-nil ns

-- A quorum set whose entries a `size_t` can count passes exactly if at every level its threshold is
-- between 1 and the number of entries and, for the extra checks, more than half of them, it is nested
-- at most two levels deep, no validator occurs twice anywhere in it, and it has between 1 and 1000
-- validators.
pub is_quorum_set_sane_exact :
    (q : ScpQuorumSet) (extra : Bool)
    → countable q ≡ true
    → is_quorum_set_sane q extra ≡ (
        levels_sane extra 0 q
        && distinct (nodes q)
        && leb 1 (length (nodes q))
        && leb (length (nodes q)) 1000)
unfolding is_quorum_set_sane
is_quorum_set_sane_exact q extra fits = ground (
  arith,
  check_sanity_exact extra q 0 (record { known_nodes = []; node_count = 0 }) fits,
  fresh_exact (nodes q) [],
  disjoint-nil (nodes q),
)

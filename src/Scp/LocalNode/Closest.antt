-- ===== src/Scp/LocalNode/Closest.antt =====
-- findClosestVBlocking: the nodes that it returns are among those given, and once they fail too the
-- rest does not satisfy the quorum set. It returns none exactly if that is so already.
use essa_core.Prelude.{
  ℕ, ◌+◌, ◌-◌, ◌^◌, ◌≤◌, ◌<◌, ◌≡◌, refl, true, false, not, ◌||◌, none, List, [], ◌∷◌, ◌++◌, leb,
  ◌==◌, if◌then◌else◌, length, keep, count, arith, min, Bool-cases, inl, inr, ap, length-keep,
  length-append, sym, ◌∙◌,
}
use essa_core.Scp.QuorumSet.{ScpQuorumSet, InnerSets, quorum_set, no_sets, set_then, size}
use essa_core.Scp.QuorumSet.Satisfied.{satisfied, satisfied_count, satisfied_mono}
use essa_core.Scp.LocalNode.{use_subsets, take, find_closest_v_blocking}
use essa_core.Scp.LocalNode.Slices.{members}
use essa_core.Scp.LocalNode.Blocking.{
  thresholds_in_range, inner_in_range, others, count-others, satisfied_count_le,
}
use essa_core.Scp.LocalNode.Sublists.{
  sub, sub-append, sub-append_parts, mem-sub, length-take, sub-take, count-take, emplace_all,
  count-emplace_all, length-emplace_all, count-use_subsets, sub-use_subsets, length-use_subsets,
}
use essa_core.Scp.LocalNode.Candidates.{
  without, validators_exact, results, length-results, results_nonempty, inner_exact, keep-sub,
  count-without,
}

-- The three facts about what is returned.
pub record IsClosest (q : ScpQuorumSet) (nodes r : List ℕ) : Type 0 where
  pub among : sub r nodes ≡ true
  pub blocks : satisfied (without nodes r) q ≡ false
  pub needed : length r == 0 ≡ not (satisfied (members nodes) q)

-- What a set of candidates says of the inner sets.
record IsClosestInner (i : InnerSets) (nodes : List ℕ) : Type 0 where
  among : count (λ x. not (sub x nodes)) (results i nodes) ≡ 0
  blocks :
      (r : List ℕ)
      → satisfied_count (without nodes r) i ≤ count (λ x. not (sub x r)) (results i nodes)
  needed : length (results i nodes) ≡ satisfied_count (members nodes) i

already_blocked :
    (q : ScpQuorumSet) (nodes : List ℕ) → satisfied (members nodes) q ≡ false → IsClosest q nodes []
already_blocked q nodes e =
    let grows = satisfied_mono (without nodes []) (members nodes) q (λ n h. ground arith) in
    record { among = refl; blocks = ground (arith, grows); needed = rw e }

module _ (t : ℕ) (v : List ℕ) (i : InnerSets) (nodes : List ℕ)
    (range : thresholds_in_range (quorum_set t v i) ≡ true) (inner : IsClosestInner i nodes) where
  missing : ℕ
  missing = count (others nodes) v

  -- leftTillBlock before the loops, and after them.
  first : ℕ
  first = 1 + (length v + size i) - t

  left : ℕ
  left = first - missing + length (results i nodes) - size i

  sorted : List (List ℕ)
  sorted = emplace_all (results i nodes) []

  taken : List ℕ
  taken = take left (keep (members nodes) v)

  chosen : List ℕ
  chosen = taken ++ use_subsets (left - length taken) sorted

  bounds : (1 ≤ t) × (t ≤ length v + size i) × (length v + size i < 2 ^ 31)
  unfolding thresholds_in_range
  bounds = ground arith

  find_exact : find_closest_v_blocking (quorum_set t v i) nodes none ≡ (
      if leb first missing || leb (first - missing + length (results i nodes)) (size i)
      then []
      else chosen)
  unfolding find_closest_v_blocking missing first left sorted taken chosen
  find_exact = ground (
    arith,
    bounds,
    validators_exact v nodes (1 + (length v + size i) - t),
    inner_exact i nodes (1 + (length v + size i) - t - count (others nodes) v) [],
  )

  -- Whether the loops return early says whether the nodes satisfy the set.
  early_exact :
      (leb first missing || leb (first - missing + length (results i nodes)) (size i))
      ≡ not (satisfied (members nodes) (quorum_set t v i))
  unfolding satisfied missing first
  early_exact =
      ground
        (arith, bounds, count-others nodes v, satisfied_count_le (members nodes) i, inner.needed)

  sorted_among : count (λ x. not (sub x nodes)) sorted ≡ 0
  unfolding sorted
  sorted_among =
      omega (arith, count-emplace_all (λ x. not (sub x nodes)) (results i nodes) [], inner.among)

  chosen_among : sub chosen nodes ≡ true
  unfolding chosen taken
  chosen_among = ground (
    arith,
    sub-append taken (use_subsets (left - length taken) sorted) nodes,
    sub-take left (keep (members nodes) v) nodes (keep-sub nodes v),
    sub-use_subsets (left - length taken) sorted nodes sorted_among,
  )

  length-sorted : length sorted ≡ length (results i nodes)
  unfolding sorted
  length-sorted = omega (arith, length-emplace_all (results i nodes) [])

  length-candidates : length (keep (members nodes) v) + missing ≡ length v
  unfolding missing
  length-candidates = omega (arith, length-keep (members nodes) v, count-others nodes v)

  sat :
      (leb first missing || leb (first - missing + length (results i nodes)) (size i)) ≡ false
      → satisfied (members nodes) (quorum_set t v i) ≡ true
  sat e = ground (arith, early_exact)

  -- What is chosen makes up for what is left to block.
  enough :
      leb (first - missing + length (results i nodes)) (size i) ≡ false
      → leb first missing ≡ false
      → length taken + min (left - length taken) (length sorted) ≡ left
  unfolding taken left first
  enough h k = ground (
    arith,
    bounds,
    length-sorted,
    length-candidates,
    length-results i nodes,
    length-take left (keep (members nodes) v),
  )

  remaining :
      leb (first - missing + length (results i nodes)) (size i) ≡ false
      → leb first missing ≡ false
      → satisfied (without nodes chosen) (quorum_set t v i) ≡ false
  unfolding satisfied left first sorted taken chosen
  remaining h k =
      let (front, back) = sub-append_parts taken (use_subsets (left - length taken) sorted) in
      ground (
        arith,
        bounds,
        length-sorted,
        length-candidates,
        length-results i nodes,
        enough h k,
        count-without nodes chosen v,
        count-take left (keep (members nodes) v) chosen front,
        count-use_subsets (left - length taken) sorted chosen back,
        count-emplace_all (λ x. not (sub x chosen)) (results i nodes) [],
        inner.blocks chosen,
      )

  chosen_nonempty :
      leb (first - missing + length (results i nodes)) (size i) ≡ false
      → leb first missing ≡ false
      → length chosen == 0 ≡ false
  unfolding chosen sorted left first
  chosen_nonempty h k =
      let rest = left - length taken in
      let filled = count-emplace_all (λ (x : List ℕ). length x == 0) (results i nodes) [] in
      ground (
        arith,
        length-results i nodes,
        enough h k,
        results_nonempty i nodes,
        filled,
        length-append taken (use_subsets rest sorted),
        length-use_subsets rest sorted,
      )

  IsClosest-set :
      IsClosest (quorum_set t v i) nodes (find_closest_v_blocking (quorum_set t v i) nodes none)
  IsClosest-set =
      elim (Bool-cases
        (leb first missing || leb (first - missing + length (results i nodes)) (size i))) [
          | inl early ↦
              let blocked : satisfied (members nodes) (quorum_set t v i) ≡ false =
                ground (arith, early_exact) in
              rw (find_exact, early) (already_blocked (quorum_set t v i) nodes blocked)
          | inr late ↦
              let h : leb (first - missing + length (results i nodes)) (size i) ≡ false =
                ground arith in
              let k : leb first missing ≡ false = ground arith in
              rw (find_exact, late)
                (record {
                  among = chosen_among;
                  blocks = remaining h k;
                  needed = chosen_nonempty h k ∙ sym (ap not (sat late));
                })
        ]

-- More failures leave fewer nodes.
shrink :
    (q : ScpQuorumSet) (nodes v r : List ℕ)
    → sub v r ≡ true
    → satisfied (without nodes v) q ≡ false
    → satisfied (without nodes r) q ≡ false
shrink q nodes v r h e =
    let grows =
      satisfied_mono (without nodes r) (without nodes v) q
        (λ n w. ground (arith, mem-sub n v r h)) in
    ground (arith, grows)

empty_sub : (v r : List ℕ) → length v == 0 ≡ true → sub v r ≡ true
empty_sub [] r h = refl
empty_sub (n ∷ v) r h = absurd (ground arith)

mutual
  unfolding results satisfied_count thresholds_in_range inner_in_range

  closest :
      (q : ScpQuorumSet) (nodes : List ℕ)
      → thresholds_in_range q ≡ true
      → IsClosest q nodes (find_closest_v_blocking q nodes none)
  closest (quorum_set t v i) nodes h =
      IsClosest-set t v i nodes h (closest_sets i nodes (ground arith))

  closest_sets : (i : InnerSets) (nodes : List ℕ) → inner_in_range i ≡ true → IsClosestInner i nodes
  closest_sets no_sets nodes h = ground arith
  closest_sets (set_then q rest) nodes h =
      let one = closest q nodes (ground arith) in
      let more = closest_sets rest nodes (ground arith) in
      let v = find_closest_v_blocking q nodes none in
      record {
        among = ground (arith, one.among, more.among);
        blocks = λ r. ground (arith, more.blocks r, shrink q nodes v r, one.blocks, empty_sub v r);
        needed = ground (arith, one.needed, more.needed);
      }

-- For thresholds from 1 to the number of entries, of which there are fewer than 2^31, and no node
-- excluded, findClosestVBlocking returns nodes among
-- those given whose failure leaves too few to satisfy the quorum set, and returns none exactly if
-- the nodes given do not satisfy it.
pub find_closest_v_blocking-IsClosest :
    (q : ScpQuorumSet) (nodes : List ℕ)
    → thresholds_in_range q ≡ true
    → IsClosest q nodes (find_closest_v_blocking q nodes none)
find_closest_v_blocking-IsClosest q nodes h = closest q nodes h

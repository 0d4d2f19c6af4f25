-- ===== src/Scp/LocalNode/Quorum.antt =====
-- isQuorum finds a quorum if there is one: the loop ends with the largest set of nodes in which each
-- node has a slice.
use essa_core.Prelude.{
  ℕ, zero, suc, ◌+◌, ◌<◌, ◌≡◌, ◌↔◌, refl, Bool, true, ◌&&◌, Option, some, List, [], ◌∷◌, ◌==◌,
  length, keep, mem, arith, Bool-cases, inl, inr, Option-cases, sym, ◌∙◌, ap, length-keep,
  count-le-length,
}
use essa_core.Scp.QuorumSet.{ScpQuorumSet}
use essa_core.Scp.QuorumSet.Satisfied.{satisfied_mono, Implies}
use essa_core.Scp.LocalNode.{
  is_quorum_slice, filter_nodes, find_statement, quorum_filter, prune, is_quorum,
}
use essa_core.Scp.LocalNode.Slices.{members, positive_thresholds, is_quorum_slice_exact}

mem-keep : (p : ℕ → Bool) (xs : List ℕ) (n : ℕ) → mem n (keep p xs) ≡ (mem n xs && p n)
mem-keep p [] n = refl
mem-keep p (x ∷ xs) n = elim (Bool-cases (x == n)) [
  | inl e ↦
      let same : x ≡ n = ground arith in
      let agree : p x ≡ p n = ap p same in ground (arith, mem-keep p xs n, agree)
  | inr e ↦ ground (arith, mem-keep p xs n)
]

keep_all : (p : ℕ → Bool) (xs : List ℕ) → length (keep p xs) ≡ length xs → keep p xs ≡ xs
keep_all p [] e = refl
keep_all p (x ∷ xs) e = ground (arith, keep_all p xs, length-keep p xs, count-le-length p xs)

abbrev pub Subset : List ℕ → List ℕ → Type 0
Subset xs ys = Implies (members xs) (members ys)

pub slice_mono :
    (q : ScpQuorumSet) (xs ys : List ℕ)
    → positive_thresholds q ≡ true
    → Subset xs ys
    → is_quorum_slice q xs ≡ true
    → is_quorum_slice q ys ≡ true
slice_mono q xs ys h s e =
    is_quorum_slice_exact q ys h
    ∙ satisfied_mono (members xs) (members ys) q s (sym (is_quorum_slice_exact q xs h) ∙ e)

module _ {S : Type 0} (m : List (ℕ × S)) (qfun : S → Option ScpQuorumSet) where
  -- Each node of the list has a quorum slice in it.
  abbrev pub IsQuorumOf : List ℕ → Type 0
  IsQuorumOf ns = (n : ℕ) → mem n ns ≡ true → quorum_filter m qfun ns n ≡ true

  -- The thresholds of the quorum sets that nodes announce are at least 1.
  abbrev pub HasSlices : Type 0
  HasSlices = (st : S) (q : ScpQuorumSet) → qfun st ≡ some q → positive_thresholds q ≡ true

  filter_mono :
      HasSlices
      → (xs ys : List ℕ) (n : ℕ) → Subset xs ys
      → quorum_filter m qfun xs n ≡ true
      → quorum_filter m qfun ys n ≡ true
  unfolding quorum_filter
  filter_mono hs xs ys n s e = elim (Option-cases (find_statement n m)) [
    | inl missing ↦ ground arith
    | inr (st, found) ↦ elim (Option-cases (qfun st)) [
      | inl unknown ↦ ground arith
      | inr (q, known) ↦
          let slice : is_quorum_slice q xs ≡ true → is_quorum_slice q ys ≡ true =
            slice_mono q xs ys (hs st q known) s in
          ground arith
    ]
  ]

  prune_greatest :
      HasSlices
      → (fuel : ℕ) (ns : List ℕ) → length ns < fuel
      → (r : List ℕ) × (prune fuel m qfun ns ≡ some r)
        × Subset r ns
        × IsQuorumOf r
        × ((q : List ℕ) → IsQuorumOf q → Subset q ns → Subset q r)
  unfolding prune
  prune_greatest hs zero ns h = absurd (omega arith)
  prune_greatest hs (suc fuel) ns h =
      let f = quorum_filter m qfun ns in
      elim (Bool-cases (length ns == length (keep f ns))) [
        | inl same ↦
            let whole : keep f ns ≡ ns = keep_all f ns (ground arith) in
            (
              ns,
              rw (same, whole),
              λ n i. i,
              λ n i. ground (arith, mem-keep f ns n, ap (mem n) whole),
              λ q iq sub. sub,
            )
        | inr fewer ↦
            let shorter : length (keep f ns) < length ns =
              ground (arith, length-keep f ns, count-le-length f ns) in
            let (r, e, sub, closed, most) = prune_greatest hs fuel (keep f ns) (omega arith) in
            (
              r,
              rw fewer e,
              λ n i. ground (arith, mem-keep f ns n, sub n i),
              closed,
              λ q iq sq. most q iq (λ n i.
                  ground (arith, mem-keep f ns n, sq n i, filter_mono hs q ns n sq (iq n i))),
            )
      ]

  module _ (local : ScpQuorumSet) (filter : S → Bool) (positive : positive_thresholds local ≡ true)
      (hs : HasSlices) where
    -- If the thresholds of the local quorum set and of all that nodes announce are `uint32` and at
    -- least 1: isQuorum ends, and holds exactly if some of the nodes that pass the filter form a quorum that
    -- has a slice for the local quorum set.
    pub is_quorum_exact :
        (b : Bool) × (is_quorum local m qfun filter ≡ some b)
        × ((b ≡ true) ↔ (
            (q : List ℕ) × Subset q (filter_nodes m filter)
            × IsQuorumOf q
            × (is_quorum_slice local q ≡ true)))
    unfolding is_quorum
    is_quorum_exact =
        let ns = filter_nodes m filter in
        let (r, e, sub, closed, most) = prune_greatest hs (length ns + 1) ns (omega arith) in
        (
          is_quorum_slice local r,
          ground (arith, e),
          (
            (λ b. (r, sub, closed, b)),
            (λ (q, sq, iq, slice). slice_mono local q r positive (most q iq sq) slice),
          ),
        )

-- ===== src/Scp/LocalNode/Candidates.antt =====
-- What the two loops of findClosestVBlocking leave to block, and the candidates that they collect.
use essa_core.Prelude.{
  ℕ, ◌+◌, ◌-◌, ◌^◌, ◌≤◌, ◌<◌, ◌≡◌, refl, Bool, true, not, ◌&&◌, none, some, List, [], ◌∷◌, leb,
  ◌==◌, if◌then◌else◌, length, keep, count, mem, arith,
}
use essa_core.Scp.QuorumSet.{InnerSets, no_sets, set_then, size}
use essa_core.Scp.LocalNode.{emplace, closest_validators, find_closest_v_blocking, closest_inner}
use essa_core.Scp.LocalNode.Slices.{members}
use essa_core.Scp.LocalNode.Blocking.{others}
use essa_core.Scp.LocalNode.Sublists.{sub, emplace_all}

-- The nodes that are left when those of `r` have failed.
abbrev pub without : List ℕ → List ℕ → ℕ → Bool
without nodes r n = mem n nodes && not (mem n r)

pub validators_exact :
    (v nodes : List ℕ) (left : ℕ)
    → 1 ≤ left
    → left < 2 ^ 64
    → closest_validators v nodes none left ≡ (
        if leb left (count (others nodes) v)
        then none
        else some (left - count (others nodes) v, keep (members nodes) v))
unfolding closest_validators
validators_exact [] nodes left h k = ground arith
validators_exact (n ∷ v) nodes left h k =
    ground (arith, validators_exact v nodes left h k, validators_exact v nodes (left - 1))

-- What the inner sets that are not blocked return.
unfoldable pub results : InnerSets → List ℕ → List (List ℕ)
results no_sets nodes = []
results (set_then q rest) nodes =
    let v = find_closest_v_blocking q nodes none in
    let vs = results rest nodes in if length v == 0 then vs else v ∷ vs

pub length-results : (i : InnerSets) (nodes : List ℕ) → length (results i nodes) ≤ size i
unfolding results
length-results no_sets nodes = omega arith
length-results (set_then q rest) nodes = ground (arith, length-results rest nodes)

pub results_nonempty :
    (i : InnerSets) (nodes : List ℕ) → count (λ (x : List ℕ). length x == 0) (results i nodes) ≡ 0
unfolding results
results_nonempty no_sets nodes = refl
results_nonempty (set_then q rest) nodes = ground (arith, results_nonempty rest nodes)

pub inner_exact :
    (i : InnerSets) (nodes : List ℕ) (left : ℕ) (internals : List (List ℕ))
    → 1 ≤ left
    → left < 2 ^ 64
    → closest_inner i nodes none left internals ≡ (
        if leb (left + length (results i nodes)) (size i)
        then none
        else some
            (left + length (results i nodes) - size i, emplace_all (results i nodes) internals))
unfolding closest_inner results emplace_all
inner_exact no_sets nodes left internals h k = ground arith
inner_exact (set_then q rest) nodes left internals h k =
    let v = find_closest_v_blocking q nodes none in
    ground (
      arith,
      length-results rest nodes,
      inner_exact rest nodes (left - 1) internals,
      inner_exact rest nodes left (emplace v internals) h k,
    )

pub keep-sub : (nodes v : List ℕ) → sub (keep (members nodes) v) nodes ≡ true
keep-sub nodes [] = refl
keep-sub nodes (n ∷ v) = ground (arith, keep-sub nodes v)

pub count-without :
    (nodes r v : List ℕ)
    → count (without nodes r) v ≡ count (λ n. not (mem n r)) (keep (members nodes) v)
count-without nodes r [] = refl
count-without nodes r (n ∷ v) = ground (arith, count-without nodes r v)

-- ===== src/Scp/QuorumSet/Normalize.antt =====
-- normalizeQSet keeps the meaning of a quorum set; without the removed node, that is its meaning
-- where the node agrees.
use essa_core.Prelude.{
  ℕ, ◌+◌, ◌-◌, ◌^◌, ◌≤◌, ◌<◌, ◌≡◌, refl, Bool, true, not, ◌&&◌, Option, some, List, [], ◌∷◌, ◌++◌,
  ltb, leb, if◌then◌else◌, keep, count, arith, count-append, inl, inr, Option-cases, ◌∙◌,
}
use essa_core.Scp.QuorumSet.{
  ScpQuorumSet, InnerSets, quorum_set, no_sets, set_then, is_id, lowered, is_singleton, simplify,
  merge, normalize_q_set, normalize_inner,
}
use essa_core.Scp.QuorumSet.Satisfied.{satisfied, satisfied_count}

-- Every threshold is a `uint32` and covers the validators that are to be removed.
unfoldable mutual
  pub removable : Option ℕ → ScpQuorumSet → Bool
  removable id (quorum_set t v i) =
      leb (count (is_id id) v) t && ltb t (2 ^ 32) && inner_removable id i

  pub inner_removable : Option ℕ → InnerSets → Bool
  inner_removable id no_sets = true
  inner_removable id (set_then q rest) = removable id q && inner_removable id rest

-- The node that is removed, if any, is among those that agree.
abbrev pub Agrees : Option ℕ → (ℕ → Bool) → Type 0
Agrees id p = (n : ℕ) → is_id id n ≡ true → p n ≡ true

count-keep :
    (id : Option ℕ) (p : ℕ → Bool) (v : List ℕ)
    → Agrees id p
    → count p (keep (λ n. not (is_id id n)) v) + count (is_id id) v ≡ count p v
count-keep id p [] h = refl
count-keep id p (n ∷ v) h = ground (arith, h n, count-keep id p v h)

lowered_exact : (t r : ℕ) → r ≤ t → t < 2 ^ 32 → lowered t r ≡ t - r
unfolding lowered
lowered_exact t r h k = omega arith

satisfied-simplify : (p : ℕ → Bool) (q : ScpQuorumSet) → satisfied p (simplify q) ≡ satisfied p q
unfolding simplify satisfied satisfied_count
satisfied-simplify p (quorum_set t [] (set_then q no_sets)) = ground arith
satisfied-simplify p (quorum_set t [] no_sets) = refl
satisfied-simplify p (quorum_set t [] (set_then q (set_then q' i))) = refl
satisfied-simplify p (quorum_set t (n ∷ v) i) = refl

singleton-satisfied :
    (p : ℕ → Bool) (q : ScpQuorumSet) (n : ℕ) → is_singleton q ≡ some n → satisfied p q ≡ p n
unfolding is_singleton satisfied satisfied_count
singleton-satisfied p (quorum_set t (m ∷ []) no_sets) n h = ground arith
singleton-satisfied p (quorum_set t [] i) n h = cc
singleton-satisfied p (quorum_set t (m ∷ []) (set_then q i)) n h = cc
singleton-satisfied p (quorum_set t (m ∷ m' ∷ v) i) n h = cc

-- A singleton set counts as its validator.
count-merge :
    (p : ℕ → Bool) (q : ScpQuorumSet) (inner : List ℕ × InnerSets)
    → count p (merge q inner).0 + satisfied_count p (merge q inner).1
      ≡ (if satisfied p q then 1 else 0) + (count p inner.0 + satisfied_count p inner.1)
unfolding merge satisfied_count
count-merge p q inner = elim (Option-cases (is_singleton q)) [
  | inl e ↦ ground arith
  | inr (n, e) ↦ ground (arith, singleton-satisfied p q n e)
]

mutual
  unfolding normalize_q_set normalize_inner removable inner_removable satisfied satisfied_count

  satisfied_normalize :
      (id : Option ℕ) (p : ℕ → Bool) (q : ScpQuorumSet)
      → Agrees id p
      → removable id q ≡ true
      → satisfied p (normalize_q_set id q) ≡ satisfied p q
  satisfied_normalize id p (quorum_set t v i) h r =
      let kept = keep (λ n. not (is_id id n)) v in
      let inner = normalize_inner id i in
      satisfied-simplify p (quorum_set (lowered t (count (is_id id) v)) (kept ++ inner.0) inner.1)
      ∙ ground (
        arith,
        lowered_exact t (count (is_id id) v),
        count-append p kept inner.0,
        count-keep id p v h,
        count_normalize id p i h,
      )

  count_normalize :
      (id : Option ℕ) (p : ℕ → Bool) (i : InnerSets)
      → Agrees id p
      → inner_removable id i ≡ true
      → count p (normalize_inner id i).0 + satisfied_count p (normalize_inner id i).1
        ≡ satisfied_count p i
  count_normalize id p no_sets h r = ground arith
  count_normalize id p (set_then q rest) h r = ground (
    arith,
    count-merge p (normalize_q_set id q) (normalize_inner id rest),
    satisfied_normalize id p q h,
    count_normalize id p rest h,
  )

-- normalizeQSet keeps the sets of nodes that satisfy a quorum set, among those that hold the node
-- to be removed, if thresholds are `uint32` and cover the validators removed at their level.
pub satisfied-normalize_q_set :
    (id : Option ℕ) (p : ℕ → Bool) (q : ScpQuorumSet)
    → Agrees id p
    → removable id q ≡ true
    → satisfied p (normalize_q_set id q) ≡ satisfied p q
satisfied-normalize_q_set id p q h r = satisfied_normalize id p q h r

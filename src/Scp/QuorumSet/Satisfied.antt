-- ===== src/Scp/QuorumSet/Satisfied.antt =====
-- What a quorum set means: which sets of nodes, given as a test, satisfy it.
use essa_core.Prelude.{
  ℕ, ◌+◌, ◌≤◌, ◌≡◌, Bool, true, List, [], ◌∷◌, leb, if◌then◌else◌, count, arith, suc,
}
use essa_core.Scp.QuorumSet.{ScpQuorumSet, InnerSets, quorum_set, no_sets, set_then}

-- At least the threshold of the validators and inner sets.
unfoldable mutual
  pub satisfied : (ℕ → Bool) → ScpQuorumSet → Bool
  satisfied p (quorum_set t v i) = leb t (count p v + satisfied_count p i)

  pub satisfied_count : (ℕ → Bool) → InnerSets → ℕ
  satisfied_count p no_sets = 0
  satisfied_count p (set_then q rest) =
      if satisfied p q then suc (satisfied_count p rest) else satisfied_count p rest

abbrev pub Implies : (ℕ → Bool) → (ℕ → Bool) → Type 0
Implies p p' = (n : ℕ) → p n ≡ true → p' n ≡ true

pub count_mono : (p p' : ℕ → Bool) (v : List ℕ) → Implies p p' → count p v ≤ count p' v
count_mono p p' [] h = omega arith
count_mono p p' (n ∷ v) h = ground (arith, h n, count_mono p p' v h)

-- More nodes satisfy more.
mutual
  unfolding satisfied satisfied_count

  pub satisfied_mono :
      (p p' : ℕ → Bool) (q : ScpQuorumSet)
      → Implies p p'
      → satisfied p q ≡ true
      → satisfied p' q ≡ true
  satisfied_mono p p' (quorum_set t v i) h s =
      ground (arith, count_mono p p' v h, satisfied_count_mono p p' i h)

  pub satisfied_count_mono :
      (p p' : ℕ → Bool) (i : InnerSets) → Implies p p' → satisfied_count p i ≤ satisfied_count p' i
  satisfied_count_mono p p' no_sets h = omega arith
  satisfied_count_mono p p' (set_then q rest) h =
      ground (arith, satisfied_mono p p' q h, satisfied_count_mono p p' rest h)

-- ===== src/Scp/BallotSteps/Intervals.antt =====
-- findExtendedInterval: the interval it ends with.
use mathlib.Core.Path.{ap}
use essa_core.Prelude.{
  ==_iff, ℕ, ◌≡◌, ◌≤◌, refl, inl, inr, Bool, true, false, ◌&&◌, ◌||◌, ◌==◌, leb, ltb, arith, List,
  [], ◌∷◌, mem, if◌then◌else◌, Bool-cases,
}
use essa_core.Scp.BallotSteps.{find_extended_interval}

choose {ℓ} :
    {A : Type ℓ} (P : A → Type 0) (b : Bool) {x y : A}
    → (b ≡ true → P x)
    → (b ≡ false → P y)
    → P (if b then x else y)
choose P true f g = f refl
choose P false f g = g refl

-- The boundaries from a given one down.
abbrev at_most_all : ℕ → List ℕ → Bool
at_most_all b [] = true
at_most_all b (x ∷ xs) = leb x b && at_most_all b xs

abbrev pub descends : List ℕ → Bool
descends [] = true
descends (x ∷ xs) = at_most_all x xs && descends xs

below_head : (n x : ℕ) (xs : List ℕ) → mem n xs ≡ true → at_most_all x xs ≡ true → n ≤ x
below_head n x [] m h = absurd (ground (arith, m))
below_head n x (y ∷ ys) m h = elim (Bool-cases (mem n ys)) [
  | inl later ↦ below_head n x ys later (ground (arith, h))
  | inr here ↦ ground (arith, m, here, h)
]

head_above : (n x : ℕ) (xs : List ℕ) → mem n (x ∷ xs) ≡ true → descends (x ∷ xs) ≡ true → n ≤ x
head_above n x xs m d = below_head n x (x ∷ xs) m (ground (arith, d))

module _ (pred : ℕ × ℕ → Bool) where
  -- One turn of the loop: no candidate yet, or one to extend.
  turn :
      (P : ℕ × ℕ → Type 0) (first second b : ℕ) (bs : List ℕ)
      → (first == 0 ≡ true → pred (b, b) ≡ true → P (find_extended_interval (b, b) bs pred))
      → (first == 0 ≡ false
          → ltb second b ≡ false
          → pred (b, second) ≡ true
          → P (find_extended_interval (b, second) bs pred))
      → (first == 0 ≡ true
          → pred (b, b) ≡ false
          → P (find_extended_interval (first, second) bs pred))
      → (first == 0 ≡ false
          → ltb second b ≡ true
          → P (find_extended_interval (first, second) bs pred))
      → (first == 0 ≡ false → ltb second b ≡ false → pred (b, second) ≡ false → P (first, second))
      → P (find_extended_interval (first, second) (b ∷ bs) pred)
  unfolding find_extended_interval
  turn P first second b bs start extend pass skip stop =
      choose P (first == 0) (λ e. choose P (pred (b, b)) (start e) (pass e))
        (λ e.
          choose P (ltb second b) (skip e)
            (λ l. choose P (pred (b, second)) (extend e l) (stop e l)))

  -- An interval that is none, or one that the predicate holds of.
  abbrev pub Sound : ℕ × ℕ → Type 0
  Sound r = (r.0 == 0 || (pred r && leb r.0 r.1)) ≡ true

  pub find-Sound :
      (bs : List ℕ) (first second : ℕ)
      → Sound (first, second)
      → Sound (find_extended_interval (first, second) bs pred)
  unfolding find_extended_interval
  find-Sound [] first second h = h
  find-Sound (b ∷ bs) first second h =
      turn Sound first second b bs (λ e k. find-Sound bs b b (ground (arith, k)))
        (λ e l k. find-Sound bs b second (ground (arith, k, l)))
        (λ e k. find-Sound bs first second h) (λ e l. find-Sound bs first second h) (λ e l k. h)

  -- Once there is a candidate, its upper end is the result's, and there is a result.
  abbrev Kept : ℕ → ℕ × ℕ → Type 0
  Kept second r = ((r.0 == 0) ≡ false) × (r.1 ≡ second)

  find_keeps :
      (bs : List ℕ) (first second : ℕ)
      → (first == 0) ≡ false
      → mem 0 bs ≡ false
      → Kept second (find_extended_interval (first, second) bs pred)
  unfolding find_extended_interval
  find_keeps [] first second h k = (h, refl)
  find_keeps (b ∷ bs) first second h k =
      let later : mem 0 bs ≡ false = ground (arith, k) in
      turn (Kept second) first second b bs (λ e _. absurd (ground (arith, h, e)))
        (λ e l p. find_keeps bs b second (ground (arith, k)) later)
        (λ e _. absurd (ground (arith, h, e))) (λ e l. find_keeps bs first second h later)
        (λ e l p. (h, refl))

  in_tail :
      (n x : ℕ) (xs : List ℕ)
      → mem n (x ∷ xs) ≡ true
      → pred (n, n) ≡ true
      → pred (x, x) ≡ false
      → mem n xs ≡ true
  in_tail n x xs m p k = elim (Bool-cases (x == n)) [
    | inr other ↦ ground (arith, m, other)
    | inl here ↦ absurd (ground (arith, p, k, ap (λ y. pred (y, y)) ((==_iff x n).0 here)))
  ]

  abbrev Reaches : ℕ → ℕ × ℕ → Type 0
  Reaches n r = ((r.0 == 0) ≡ false) × (n ≤ r.1)

  find_complete :
      (bs : List ℕ) (second n : ℕ)
      → mem 0 bs ≡ false
      → descends bs ≡ true
      → mem n bs ≡ true
      → pred (n, n) ≡ true
      → Reaches n (find_extended_interval (0, second) bs pred)
  find_complete [] second n z d m p = absurd (ground (arith, m))
  find_complete (b ∷ bs) second n z d m p =
      let later : mem 0 bs ≡ false = ground (arith, z) in
      turn (Reaches n) 0 second b bs
        (λ e k.
          let (some_first, same) = find_keeps bs b b (ground (arith, z)) later in
          (some_first, omega (arith, same, head_above n b bs m d)))
        (λ e. absurd (ground (arith, e)))
        (λ e k. find_complete bs second n later (ground (arith, d)) (in_tail n b bs m p k) p)
        (λ e. absurd (ground (arith, e))) (λ e. absurd (ground (arith, e)))

-- The interval found among boundaries that descend to above 0 is none, or the predicate holds of it
-- and its ends are in order. Wherever the predicate holds of a boundary alone, an interval is found,
-- and it ends at that boundary or a greater one.
pub find_extended_interval-greatest :
    (pred : ℕ × ℕ → Bool) (bs : List ℕ)
    → mem 0 bs ≡ false
    → descends bs ≡ true
    → ((find_extended_interval (0, 0) bs pred).0 == 0
          || (pred (find_extended_interval (0, 0) bs pred)
              && leb
                  (find_extended_interval (0, 0) bs pred).0
                  (find_extended_interval (0, 0) bs pred).1))
        ≡ true
      × ((n : ℕ)
          → mem n bs ≡ true
          → pred (n, n) ≡ true
          → (((find_extended_interval (0, 0) bs pred).0 == 0) ≡ false)
            × (n ≤ (find_extended_interval (0, 0) bs pred).1))
find_extended_interval-greatest pred bs z d =
    (find-Sound pred bs 0 0 refl, λ n m p. find_complete pred bs 0 n z d m p)

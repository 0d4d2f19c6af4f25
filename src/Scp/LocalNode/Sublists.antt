-- ===== src/Scp/LocalNode/Sublists.antt =====
-- Lists of nodes inside one another, and counts over the list of candidate sets that
-- findClosestVBlocking sorts by size.
use essa_core.Prelude.{
  ℕ, zero, suc, ◌+◌, ◌≤◌, ◌≡◌, refl, Bool, true, not, ◌&&◌, List, [], ◌∷◌, ◌++◌, ◌==◌,
  if◌then◌else◌, length, count, mem, arith, min, length-append, Bool-cases, inl, inr, ap,
}
use essa_core.Scp.LocalNode.{emplace, use_subsets, take}

abbrev pub sub : List ℕ → List ℕ → Bool
sub [] ys = true
sub (x ∷ xs) ys = mem x ys && sub xs ys

pub sub-append : (xs ys r : List ℕ) → sub (xs ++ ys) r ≡ (sub xs r && sub ys r)
sub-append [] ys r = refl
sub-append (x ∷ xs) ys r = ground (arith, sub-append xs ys r)

sub_cons : (xs r : List ℕ) (y : ℕ) → sub xs r ≡ true → sub xs (y ∷ r) ≡ true
sub_cons [] r y h = refl
sub_cons (x ∷ xs) r y h = ground (arith, sub_cons xs r y)

sub_self : (xs : List ℕ) → sub xs xs ≡ true
sub_self [] = refl
sub_self (x ∷ xs) = ground (arith, sub_cons xs xs x (sub_self xs))

sub_right : (xs ys zs : List ℕ) → sub xs ys ≡ true → sub xs (zs ++ ys) ≡ true
sub_right xs ys [] h = h
sub_right xs ys (z ∷ zs) h = sub_cons xs (zs ++ ys) z (sub_right xs ys zs h)

mem_left : (n : ℕ) (xs ys : List ℕ) → mem n xs ≡ true → mem n (xs ++ ys) ≡ true
mem_left n [] ys h = cc
mem_left n (x ∷ xs) ys h = ground (arith, mem_left n xs ys)

sub_left : (zs xs ys : List ℕ) → sub zs xs ≡ true → sub zs (xs ++ ys) ≡ true
sub_left [] xs ys h = refl
sub_left (z ∷ zs) xs ys h = ground (arith, mem_left z xs ys, sub_left zs xs ys)

pub sub-append_parts : (xs ys : List ℕ) → (sub xs (xs ++ ys) ≡ true) × (sub ys (xs ++ ys) ≡ true)
sub-append_parts xs ys = (sub_left xs xs ys (sub_self xs), sub_right ys ys xs (sub_self ys))

pub mem-sub : (n : ℕ) (xs ys : List ℕ) → sub xs ys ≡ true → mem n xs ≡ true → mem n ys ≡ true
mem-sub n [] ys h m = cc
mem-sub n (x ∷ xs) ys h m = elim (Bool-cases (x == n)) [
  | inl e ↦
      let same : x ≡ n = ground arith in
      let move : mem x ys ≡ mem n ys = ap (λ (k : ℕ). mem k ys) same in ground (arith, move)
  | inr e ↦ ground (arith, mem-sub n xs ys)
]

pub length-take : (k : ℕ) (xs : List ℕ) → length (take k xs) ≡ min k (length xs)
length-take zero xs = omega arith
length-take (suc k) [] = omega arith
length-take (suc k) (x ∷ xs) = omega (arith, length-take k xs)

pub sub-take : (k : ℕ) (xs ys : List ℕ) → sub xs ys ≡ true → sub (take k xs) ys ≡ true
sub-take zero xs ys h = refl
sub-take (suc k) [] ys h = refl
sub-take (suc k) (x ∷ xs) ys h = ground (arith, sub-take k xs ys)

-- Those of a list that are not taken are at most as many as are left.
pub count-take :
    (k : ℕ) (xs r : List ℕ)
    → sub (take k xs) r ≡ true
    → count (λ n. not (mem n r)) xs + length (take k xs) ≤ length xs
count-take zero [] r h = omega arith
count-take zero (x ∷ xs) r h = ground (arith, count-take zero xs r)
count-take (suc k) [] r h = omega arith
count-take (suc k) (x ∷ xs) r h = ground (arith, count-take k xs r)

module _ (p : List ℕ → Bool) where
  count-emplace :
      (v : List ℕ) (ws : List (List ℕ))
      → count p (emplace v ws) ≡ (if p v then suc (count p ws) else count p ws)
  unfolding emplace
  count-emplace v [] = refl
  count-emplace v (w ∷ ws) = ground (arith, count-emplace v ws)

length-emplace : (v : List ℕ) (ws : List (List ℕ)) → length (emplace v ws) ≡ suc (length ws)
unfolding emplace
length-emplace v [] = refl
length-emplace v (w ∷ ws) = ground (arith, length-emplace v ws)

unfoldable pub emplace_all : List (List ℕ) → List (List ℕ) → List (List ℕ)
emplace_all [] ws = ws
emplace_all (v ∷ vs) ws = emplace_all vs (emplace v ws)

pub count-emplace_all :
    (p : List ℕ → Bool) (vs ws : List (List ℕ))
    → count p (emplace_all vs ws) ≡ count p vs + count p ws
unfolding emplace_all
count-emplace_all p [] ws = omega arith
count-emplace_all p (v ∷ vs) ws =
    ground (arith, count-emplace p v ws, count-emplace_all p vs (emplace v ws))

pub length-emplace_all :
    (vs ws : List (List ℕ)) → length (emplace_all vs ws) ≡ length vs + length ws
unfolding emplace_all
length-emplace_all [] ws = omega arith
length-emplace_all (v ∷ vs) ws =
    omega (arith, length-emplace v ws, length-emplace_all vs (emplace v ws))

pub count-use_subsets :
    (k : ℕ) (sets : List (List ℕ)) (r : List ℕ)
    → sub (use_subsets k sets) r ≡ true
    → count (λ x. not (sub x r)) sets + min k (length sets) ≤ length sets
unfolding use_subsets
count-use_subsets zero [] r h = omega arith
count-use_subsets zero (v ∷ sets) r h = ground (arith, count-use_subsets zero sets r)
count-use_subsets (suc k) [] r h = omega arith
count-use_subsets (suc k) (v ∷ sets) r h =
    ground (arith, sub-append v (use_subsets k sets) r, count-use_subsets k sets r)

pub sub-use_subsets :
    (k : ℕ) (sets : List (List ℕ)) (r : List ℕ)
    → count (λ x. not (sub x r)) sets ≡ 0
    → sub (use_subsets k sets) r ≡ true
unfolding use_subsets
sub-use_subsets zero sets r h = refl
sub-use_subsets (suc k) [] r h = refl
sub-use_subsets (suc k) (v ∷ sets) r h =
    ground (arith, sub-append v (use_subsets k sets) r, sub-use_subsets k sets r)

pub length-use_subsets :
    (k : ℕ) (sets : List (List ℕ))
    → count (λ (x : List ℕ). length x == 0) sets ≡ 0
    → 1 ≤ k
    → 1 ≤ length sets
    → 1 ≤ length (use_subsets k sets)
unfolding use_subsets
length-use_subsets zero sets h k l = absurd (omega arith)
length-use_subsets (suc k) [] h j l = absurd (omega arith)
length-use_subsets (suc k) (v ∷ sets) h j l = ground (arith, length-append v (use_subsets k sets))

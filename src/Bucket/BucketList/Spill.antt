-- ===== src/Bucket/BucketList/Spill.antt =====
-- When levels spill: bucket/BucketList.cpp.
use native.Mathlib.Nat.{pow-suc, mul-mod_left, mod-add-div'}
use essa_core.Prelude.{
  Bool-cases, inl, inr, ◌^◌, ◌≤◌, not, ◌&&◌, ℕ, zero, suc, ◌+◌, ◌-◌, ◌*◌, ◌/◌, ◌%◌, ◌<◌, ◌≡◌, true,
  false, ◌==◌, arith, refl,
}
use essa_core.Bucket.BucketList.{num_levels, level_size, level_half, mask, level_should_spill}

pub level_size-suc : (level : ℕ) → level_size (suc level) ≡ 4 * level_size level
unfolding level_size
level_size-suc level =
    let shape : 2 * (suc level + 1) ≡ suc (suc (2 * (level + 1))) = omega arith in
    rw shape (omega (arith, pow-suc 2 (suc (2 * (level + 1))), pow-suc 2 (2 * (level + 1))))

first_size : level_size zero ≡ 4
unfolding level_size
first_size = refl

pub level_size_even :
    (level : ℕ) → (level_size level ≡ 2 * level_half level) × (0 < level_half level)
unfolding level_half
level_size_even zero = omega (arith, first_size)
level_size_even (suc level) = omega (arith, level_size-suc level, level_size_even level)

pub level_half-suc : (level : ℕ) → level_half (suc level) ≡ 4 * level_half level
unfolding level_half
level_half-suc level = omega (arith, level_size-suc level, level_size_even level)

mask_fixed : (v m : ℕ) → 0 < m → (v == mask v m) ≡ (v % m == 0)
unfolding mask
mask_fixed v m h = grind arith

pub multiple_is : (v m : ℕ) → v % m ≡ 0 → v ≡ v / m * m
multiple_is v m h = omega (arith, mod-add-div' v m)

pub multiple_scale : (v c m : ℕ) → 0 < m → v % (c * m) ≡ 0 → v % m ≡ 0
multiple_scale v c m h k =
    let e : v ≡ v / (c * m) * c * m = grind (arith, multiple_is v (c * m) k) in
    rw e (mul-mod_left (v / (c * m) * c) m)

-- A level but the last spills at the multiples of its half, which those of its size are.
pub level_should_spill_exact :
    (ledger level : ℕ)
    → level < num_levels - 1
    → level_should_spill ledger level ≡ (ledger % level_half level == 0)
unfolding level_should_spill
level_should_spill_exact ledger level h =
    let half = level_half level in
    let (even, positive) = level_size_even level in
    let covered : ledger % level_size level ≡ 0 → ledger % half ≡ 0 =
      λ e. multiple_scale ledger 2 half positive (rw (← even) e) in
    ground (
      arith,
      mask_fixed ledger half positive,
      mask_fixed ledger (level_size level) (omega (arith, even, positive)),
      covered,
    )

pub spills_top :
    (ledger level : ℕ) → level == num_levels - 1 ≡ true → level_should_spill ledger level ≡ false
unfolding level_should_spill
spills_top ledger level top = rw top refl

-- Where a level spills, so does the one below it.
pub spills_below :
    (ledger level : ℕ)
    → suc level < num_levels - 1
    → level_should_spill ledger (suc level) ≡ true
    → level_should_spill ledger level ≡ true
spills_below ledger level h e =
    let (_, positive) = level_size_even level in
    let above = level_should_spill_exact ledger (suc level) (omega arith) in
    let here = level_should_spill_exact ledger level (omega arith) in
    let scaled = level_half-suc level in
    let covered : ledger % level_half (suc level) ≡ 0 → ledger % level_half level ≡ 0 =
      λ k. multiple_scale ledger 4 (level_half level) positive (rw (← scaled) k) in
    ground (arith, covered)

pub first_half : level_half 0 ≡ 2
unfolding level_half level_size
first_half = refl

half_power : (level : ℕ) → level_half level ≡ 2 ^ (2 * level + 1)
half_power zero = first_half
half_power (suc level) =
    let shape : 2 * suc level + 1 ≡ suc (suc (2 * level + 1)) = omega arith in
    rw shape (
      omega (
        arith,
        level_half-suc level,
        half_power level,
        pow-suc 2 (suc (2 * level + 1)),
        pow-suc 2 (2 * level + 1),
      ))

-- Where a level spills, so do all below it.
spills_all_below :
    (ledger level below : ℕ)
    → level < num_levels - 1
    → below ≤ level
    → level_should_spill ledger level ≡ true
    → level_should_spill ledger below ≡ true
spills_all_below ledger zero below h l e = let same : below ≡ 0 = omega arith in rw same e
spills_all_below ledger (suc level) below h l e = elim (Bool-cases (below == suc level)) [
  | inl here ↦ let same : below ≡ suc level = ground arith in rw same e
  | inr other ↦
      spills_all_below ledger level below (omega arith) (ground arith)
        (spills_below ledger level h e)
]

-- Of the levels 0 to 10, the last never spills and every other one spills exactly at the ledgers that
-- are multiples of 2 for the first level, 8 for the next, 32 and so on; and where a level spills, all
-- levels below it spill too.
pub level_should_spill_powers :
    (ledger level : ℕ)
    → level < num_levels
    → (level_should_spill ledger level
        ≡ (not (level == num_levels - 1) && ledger % 2 ^ (2 * level + 1) == 0))
      × (level_should_spill ledger level ≡ true
          → (below : ℕ) → below ≤ level
          → level_should_spill ledger below ≡ true)
level_should_spill_powers ledger level h = elim (Bool-cases (level == num_levels - 1)) [
  | inl top ↦ (
    rw (spills_top ledger level top, top) refl,
    λ e. absurd (ground (arith, e, spills_top ledger level top)),
  )
  | inr low ↦
      let e = level_should_spill_exact ledger level (ground (arith, h, low)) in
      let same = half_power level in
      (
        rw (low, ← same) e,
        λ spills below l. spills_all_below ledger level below (ground (arith, h, low)) l spills,
      )
]

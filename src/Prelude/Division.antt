-- ===== src/Prelude/Division.antt =====
-- Rounded division on the native numbers: the floor is `/`, the ceiling is `ceil_div`.
use Prim.Native.Nat.{ℕ, ◌+◌, ◌-◌, ◌*◌, ◌/◌, ◌≤◌, ◌<◌}
use mathlib.Core.Path.{◌≡◌}
use native.Mathlib.Omega.{arith}

abbrev pub ceil_div : ℕ → ℕ → ℕ
ceil_div a b = (a + b - 1) / b

pub div-mul_le : (a b : ℕ) → a / b * b ≤ a
div-mul_le a b = grind arith

pub le-ceil_div_mul : (a b : ℕ) → 0 < b → a ≤ ceil_div a b * b
le-ceil_div_mul a b h = grind arith

pub div-le : (a b m : ℕ) → 0 < b → a ≤ m * b → a / b ≤ m
div-le a b m h p = grind arith

pub le-div : (a b m : ℕ) → 0 < b → m * b ≤ a → m ≤ a / b
le-div a b m h p = grind arith

pub ceil_div-le : (a b m : ℕ) → 0 < b → a ≤ m * b → ceil_div a b ≤ m
ceil_div-le a b m h p = grind arith

pub mul_div_cancel : (a b : ℕ) → 0 < b → a * b / b ≡ a
mul_div_cancel a b h = grind arith

pub div_mono : (a b c : ℕ) → 0 < c → a ≤ b → a / c ≤ b / c
div_mono a b c h p = grind arith

pub mul_le_right : (a b c : ℕ) → a ≤ b → a * c ≤ b * c
mul_le_right a b c h = grind arith

pub le_scaled : (x a m n : ℕ) → x ≤ a * n → a ≤ m → x ≤ m * n
le_scaled x a m n h k = grind arith

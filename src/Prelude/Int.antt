-- ===== src/Prelude/Int.antt =====
-- Signed integers over the native numbers, and Go's int64 as a range of them.
use Prim.Native.Nat.{ℕ, suc, ◌+◌, ◌-◌, ◌*◌, ◌%◌, ◌≤◌, ◌<◌}
use mathlib.Core.Path.{◌≡◌}
use mathlib.Core.Bool.{Bool, true}
use native.Mathlib.Omega.{arith}
use imgsrv.Prelude.Tests.{ltb, leb, ◌==◌, if◌then◌else◌}

-- `negsuc n` is -(n + 1).
pub data ℤ : Type 0 where
  pos : ℕ → ℤ
  negsuc : ℕ → ℤ

abbrev pub pos_part : ℤ → ℕ
pos_part (pos n) = n
pos_part (negsuc _) = 0

abbrev pub neg_part : ℤ → ℕ
neg_part (pos _) = 0
neg_part (negsuc n) = suc n

-- a - b, as an integer.
abbrev pub sub_ℕ : ℕ → ℕ → ℤ
sub_ℕ a b = if leb b a then pos (a - b) else negsuc (b - a - 1)

abbrev pub two64 : ℕ
two64 = 18446744073709551616

abbrev pub two63 : ℕ
two63 = 9223372036854775808

-- The int64 whose bits are those of a - b.
abbrev pub wrap64 : ℕ → ℕ → ℤ
wrap64 a b =
    let w = (a + (two64 - b % two64)) % two64 in
    if ltb w two63 then pos w else negsuc (two64 - 1 - w)

-- int64 addition, subtraction and doubling, with wrap-around.
abbrev pub add64 : ℤ → ℤ → ℤ
add64 a b = wrap64 (pos_part a + pos_part b) (neg_part a + neg_part b)

abbrev pub sub64 : ℤ → ℤ → ℤ
sub64 a b = wrap64 (pos_part a + neg_part b) (neg_part a + pos_part b)

abbrev pub double64 : ℤ → ℤ
double64 a = wrap64 (pos_part a * 2) (neg_part a * 2)

abbrev pub ltb_ℤ : ℤ → ℤ → Bool
ltb_ℤ a b = ltb (pos_part a + neg_part b) (pos_part b + neg_part a)

abbrev pub leb_ℤ : ℤ → ℤ → Bool
leb_ℤ a b = leb (pos_part a + neg_part b) (pos_part b + neg_part a)

abbrev pub eqb_ℤ : ℤ → ℤ → Bool
eqb_ℤ a b = pos_part a + neg_part b == pos_part b + neg_part a

infix 50 ◌≤ℤ◌ ◌<ℤ◌
abbrev pub ◌≤ℤ◌ : ℤ → ℤ → Type 0
a ≤ℤ b = pos_part a + neg_part b ≤ pos_part b + neg_part a

abbrev pub ◌<ℤ◌ : ℤ → ℤ → Type 0
a <ℤ b = pos_part a + neg_part b < pos_part b + neg_part a

-- The values of an int64.
abbrev pub IsInt64 : ℤ → Type 0
IsInt64 a = (pos_part a < two63) × (neg_part a ≤ two63)

pub eqb_ℤ_sound : (a b : ℤ) → eqb_ℤ a b ≡ true → a ≡ b
eqb_ℤ_sound a b h = ground arith

pub sub64_exact : (a b : ℕ) → a < two63 → b < two63 → sub64 (pos a) (pos b) ≡ sub_ℕ a b
sub64_exact a b h k = ground arith

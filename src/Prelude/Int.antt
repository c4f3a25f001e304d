-- ===== src/Prelude/Int.antt =====
-- Signed integers over the native numbers, under the library's names, as far as status codes,
-- byte counts and file offsets need them.
use Prim.Native.Nat.{ℕ, ◌+◌, ◌-◌}
use mathlib.Core.Bool.{Bool, true, false}
use uvcc.Prelude.Bools.{leb, if◌then◌else◌}

-- `negsuc n` is -(n + 1).
pub data ℤ : Type 0 where
  pos : ℕ → ℤ
  negsuc : ℕ → ℤ

-- The test `x < 0` by which every libuv status is read.
abbrev pub is_negative : ℤ → Bool
is_negative (pos n) = false
is_negative (negsuc n) = true

abbrev pub is_zero : ℤ → Bool
is_zero (pos n) = leb n 0
is_zero (negsuc n) = false

-- `a - b`.
abbrev difference : ℕ → ℕ → ℤ
difference a b = if leb b a then pos (a - b) else negsuc (b - a - 1)

infixl 60 ◌+ℤ◌
abbrev pub ◌+ℤ◌ : ℤ → ℤ → ℤ
pos a +ℤ pos b = pos (a + b)
pos a +ℤ negsuc b = difference a (b + 1)
negsuc a +ℤ pos b = difference b (a + 1)
negsuc a +ℤ negsuc b = negsuc (a + b + 1)

abbrev pub is_positive : ℤ → Bool
is_positive (pos n) = if leb n 0 then false else true
is_positive (negsuc n) = false

-- ===== src/Endian/Halves.antt =====
-- The bitwise or of a number and one that is shifted past it is their sum.
use uvcc.Prelude.{ℕ, zero, suc, ◌+◌, ◌*◌, ◌/◌, ◌≤◌, ◌<◌, ◌^◌, ◌≡◌, ◌∙◌, arith}
use Prim.Native.Nat.{max, digits, bit_or, bit_or-bitwise}

-- A shift by `k` digits.
abbrev shift : ℕ → ℕ → ℕ
shift zero b = b
shift (suc k) b = shift k b * 2

abbrev or_digits : ℕ → ℕ → ℕ → ℕ
or_digits n a b = digits (λ b. b) max n a b

or_digits-shift : (n k a b : ℕ) → a ≤ n → a < shift k 1 → or_digits n a (shift k b) ≡ a + shift k b
or_digits-shift zero k zero b fits below = omega arith
or_digits-shift (suc n) k zero b fits below = omega arith
or_digits-shift zero k (suc a) b fits below = absurd (omega arith)
or_digits-shift (suc n) zero (suc a) b fits below = absurd (omega arith)
or_digits-shift (suc n) (suc k) (suc a) b fits below =
    let halved : shift k b * 2 / 2 ≡ shift k b = omega arith in
    let rest = or_digits-shift n k (suc a / 2) b (omega arith) (omega arith) in
    rw halved (omega (arith, rest))

pub bit_or-halves : (a b : ℕ) → a < 2 ^ 32 → bit_or a (b * 2 ^ 32) ≡ a + b * 2 ^ 32
bit_or-halves a b below =
    let shifted : shift 32 b ≡ b * 2 ^ 32 = omega arith in
    let sum = or_digits-shift a 32 a b (omega arith) (omega arith) in
    bit_or-bitwise a (b * 2 ^ 32) ∙ (rw shifted at sum)

-- ===== src/Endian/Reversal.antt =====
-- The conversion reverses the bytes, and is undone by the conversion back.
use uvcc.Prelude.{ℕ, zero, suc, ◌+◌, ◌-◌, ◌*◌, ◌/◌, ◌%◌, ◌<◌, ◌^◌, ◌≡◌, refl, ◌∙◌, sym, ap, arith}
use uvcc.Endian.{hton64, ntoh64}
use Prim.Native.Nat.{bit_or}
use uvcc.Endian.Halves.{bit_or-halves}

-- The byte of that number, the lowest being 0.
abbrev pub byte : ℕ → ℕ → ℕ
byte zero x = x % 256
byte (suc k) x = byte k (x / 256)

-- The function keeps to 32 bits.
abbrev pub Keeps32 : (ℕ → ℕ) → Type 0
Keeps32 f = (y : ℕ) → y < 2 ^ 32 → f y < 2 ^ 32

-- What the function does, as the system documents it for `htonl` and `ntohl`: the bytes of a number
-- of 32 bits in the other order.
pub record Reverses32 (f : ℕ → ℕ) : Type 0 where
  pub below : Keeps32 f
  pub reversed : (y k : ℕ) → y < 2 ^ 32 → k < 4 → byte k (f y) ≡ byte (3 - k) y

low : (k a b : ℕ) → k < 4 → a < 2 ^ 32 → byte k (a + b * 2 ^ 32) ≡ byte k a
low zero a b four small = omega arith
low (suc zero) a b four small = omega arith
low (suc (suc zero)) a b four small = omega arith
low (suc (suc (suc zero))) a b four small = omega arith
low (suc (suc (suc (suc k)))) a b four small = absurd (omega arith)

high : (k a b : ℕ) → a < 2 ^ 32 → byte (suc (suc (suc (suc k)))) (a + b * 2 ^ 32) ≡ byte k b
high k a b small =
    let above : (a + b * 2 ^ 32) / 256 / 256 / 256 / 256 ≡ b = omega arith in rw above refl

abbrev upper : ℕ → ℕ
upper x = x / 2 ^ 32 % 2 ^ 32

abbrev lower : ℕ → ℕ
lower x = x % 2 ^ 32

split : (x : ℕ) → x < 2 ^ 64 → x ≡ lower x + upper x * 2 ^ 32
split x small = omega arith

joined : (a b : ℕ) → a < 2 ^ 32 → b < 2 ^ 32 → bit_or a (b * 2 ^ 32 % 2 ^ 64) ≡ a + b * 2 ^ 32
joined a b small_a small_b =
    let fits : b * 2 ^ 32 % 2 ^ 64 ≡ b * 2 ^ 32 = omega arith in rw fits (bit_or-halves a b small_a)

hton64-sum : (f : ℕ → ℕ) (x : ℕ) → Keeps32 f → hton64 f x ≡ f (upper x) + f (lower x) * 2 ^ 32
unfolding hton64
hton64-sum f x below =
    joined (f (upper x)) (f (lower x)) (below (upper x) (omega arith))
      (below (lower x) (omega arith))

module _ (f : ℕ → ℕ) (system : Reverses32 f) (x : ℕ) (small : x < 2 ^ 64) where
  low_reversed : (k : ℕ) → k < 4 → byte k (hton64 f x) ≡ byte (suc (suc (suc (suc (3 - k))))) x
  low_reversed k four = rw (hton64-sum f x system.below) (
      low k (f (upper x)) (f (lower x)) four (system.below (upper x) (omega arith))
      ∙ system.reversed (upper x) k (omega arith) four
      ∙ sym (high (3 - k) (lower x) (upper x) (omega arith))
      ∙ ap (byte (suc (suc (suc (suc (3 - k)))))) (sym (split x small)))

  high_reversed : (k : ℕ) → k < 4 → byte (suc (suc (suc (suc k)))) (hton64 f x) ≡ byte (3 - k) x
  high_reversed k four = rw (hton64-sum f x system.below) (
      high k (f (upper x)) (f (lower x)) (system.below (upper x) (omega arith))
      ∙ system.reversed (lower x) k (omega arith) four
      ∙ sym (low (3 - k) (lower x) (upper x) (omega arith) (omega arith))
      ∙ ap (byte (3 - k)) (sym (split x small)))

  -- The conversion of a number of 64 bits by two conversions of 32 bits is the reversal of its eight
  -- bytes. It is given that the function of the system reverses the four bytes of a number of 32 bits.
  pub hton64-Reverses : (k : ℕ) → k < 8 → byte k (hton64 f x) ≡ byte (7 - k) x
  hton64-Reverses zero eight = low_reversed 0 (omega arith)
  hton64-Reverses (suc zero) eight = low_reversed 1 (omega arith)
  hton64-Reverses (suc (suc zero)) eight = low_reversed 2 (omega arith)
  hton64-Reverses (suc (suc (suc zero))) eight = low_reversed 3 (omega arith)
  hton64-Reverses (suc (suc (suc (suc k)))) eight =
      let rest : 7 - suc (suc (suc (suc k))) ≡ 3 - k = omega arith in
      rw rest (high_reversed k (omega arith))

module _ (f g : ℕ → ℕ) (below : Keeps32 f) (inverse : (y : ℕ) → y < 2 ^ 32 → g (f y) ≡ y) where
  -- The conversion back gives the number of 64 bits that was converted. It is given that the functions
  -- of the system keep to 32 bits and are each other's inverse.
  pub ntoh64-hton64 : (x : ℕ) → x < 2 ^ 64 → ntoh64 g (hton64 f x) ≡ x
  unfolding ntoh64
  ntoh64-hton64 x small =
      let room_u = below (upper x) (omega arith) in
      let room_l = below (lower x) (omega arith) in
      let up : upper (f (upper x) + f (lower x) * 2 ^ 32) ≡ f (lower x) =
        omega (arith, room_u, room_l) in
      let down : lower (f (upper x) + f (lower x) * 2 ^ 32) ≡ f (upper x) = omega (arith, room_u) in
      rw
        (
          hton64-sum f x below,
          up,
          down,
          inverse (upper x) (omega arith),
          inverse (lower x) (omega arith),
        )
        (joined (lower x) (upper x) (omega arith) (omega arith) ∙ sym (split x small))

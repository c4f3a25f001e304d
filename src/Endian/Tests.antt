-- ===== src/Endian/Tests.antt =====
-- Tests of the conversion of numbers.
use uvcc.Prelude.{ℕ, zero, suc, ◌+◌, ◌*◌, ◌/◌, ◌-◌, ◌%◌, ◌^◌, ◌<◌, ◌≡◌, refl, arith}
use uvcc.Endian.{hton64}
use uvcc.Endian.Reversal.{byte, Reverses32, hton64-Reverses}

-- `htonl` of a host with the lowest byte first.
abbrev htonl : ℕ → ℕ
htonl y = y / 2 ^ 24 % 256 + (y / 2 ^ 16 % 256 + (y / 2 ^ 8 % 256 + y % 256 * 256) * 256) * 256

htonl-reversed : (k y : ℕ) → y < 2 ^ 32 → k < 4 → byte k (htonl y) ≡ byte (3 - k) y
htonl-reversed zero y small four = omega arith
htonl-reversed (suc zero) y small four = omega arith
htonl-reversed (suc (suc zero)) y small four = omega arith
htonl-reversed (suc (suc (suc zero))) y small four = omega arith
htonl-reversed (suc (suc (suc (suc k)))) y small four = absurd (omega arith)

htonl-Reverses32 : Reverses32 htonl
htonl-Reverses32 = record {
  below = λ y small. omega arith;
  reversed = λ y k small four. htonl-reversed k y small four;
}

hton64_bytes : hton64 htonl 0x0102030405060708 ≡ 0x0807060504030201
unfolding hton64
hton64_bytes = refl

hton64-Reverses_example : byte 1 (hton64 htonl 0x0102030405060708) ≡ 2
hton64-Reverses_example =
    hton64-Reverses htonl htonl-Reverses32 0x0102030405060708 (omega arith) 1 (omega arith)

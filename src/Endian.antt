-- ===== src/Endian.antt =====
-- src/include/uvcc/endian.hpp: the conversion of 64-bit numbers on Windows, where the byte order of the
-- host is from the lowest byte on. The functions `htonl` and `ntohl` of the system are parameters.
pub mod Halves
pub mod Reversal
mod Tests
use uvcc.Prelude.{ℕ, ◌*◌, ◌/◌, ◌%◌, ◌^◌}
use Prim.Native.Nat.{bit_or}

-- `HOST_to_NET_64(x)`; a conversion to `uint32_t` takes the rest by 2^32.
unfoldable pub hton64 : (htonl : ℕ → ℕ) → ℕ → ℕ
hton64 htonl x = bit_or (htonl (x / 2 ^ 32 % 2 ^ 32)) (htonl (x % 2 ^ 32) * 2 ^ 32 % 2 ^ 64)

-- `NET_to_HOST_64(x)`
unfoldable pub ntoh64 : (ntohl : ℕ → ℕ) → ℕ → ℕ
ntoh64 ntohl x = bit_or (ntohl (x / 2 ^ 32 % 2 ^ 32)) (ntohl (x % 2 ^ 32) * 2 ^ 32 % 2 ^ 64)

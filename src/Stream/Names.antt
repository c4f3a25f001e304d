-- ===== src/Stream/Names.antt =====
-- The result of `getsockname` and `getpeername` of TCP sockets, which takes the status for a truth
-- value.
use uvcc.Prelude.{ℕ, ◌≡◌, refl, true, false, not, some, leb, arith}
use uvcc.Prelude.Int.{ℤ, pos, negsuc, is_negative, is_zero, is_positive}
use uvcc.Runtime.{World, Instance, HandleBody, LibUv, uv_tcp_getsockname, uv_udp_getsockname}
use uvcc.Runtime.Ends.{Ends}
use uvcc.Handle.{set_status}
use uvcc.Stream.{tcp_getsockname, udp_getsockname}

-- Neither for success nor for an error is there an answer of libuv above 0.
zero_or_negative : (r : ℤ) → is_positive r ≡ false → not (is_zero r) ≡ is_negative r
zero_or_negative (pos n) h = ground arith
zero_or_negative (negsuc n) h = refl

module _ (uv : LibUv) (p size z : ℕ) (w : World) (i : Instance HandleBody)
    (e : w.handles p ≡ some i) (fits : leb z size ≡ true) where
  -- Where the address fits, `getsockname` of a TCP socket is true on an error and false on success,
  -- since libuv answers 0 on success and a negative number on an error.
  tcp_getsockname-inverts :
      is_positive (uv w.trace (uv_tcp_getsockname p)) ≡ false
      → Ends
          (tcp_getsockname uv size z p w)
          (λ b w'. b ≡ is_negative (uv w.trace (uv_tcp_getsockname p)))
  unfolding tcp_getsockname set_status
  tcp_getsockname-inverts usual =
      rw (e, fits)
        (_, _, refl, ground (arith, zero_or_negative (uv w.trace (uv_tcp_getsockname p)) usual))

  -- That of a UDP socket is true on success and false on an error.
  pub udp_getsockname_lem :
      Ends
        (udp_getsockname uv size z p w)
        (λ b w'. b ≡ not (is_negative (uv w.trace (uv_udp_getsockname p))))
  unfolding udp_getsockname set_status
  udp_getsockname_lem = rw (e, fits) (_, _, refl, ground arith)

-- ===== src/Io/Interfaces.antt =====
-- The reading functions of streams and of UDP sockets keep the law of `Quiet`.
use uvcc.Prelude.{ℕ, refl, not, inl, inr, Bool-cases}
use uvcc.Prelude.Int.{ℤ, is_negative}
use uvcc.Runtime.{
  World, Rdcmd, LibUv, when, uv_read_start, uv_read_stop, uv_udp_recv_start, uv_udp_recv_stop,
}
use uvcc.Runtime.Ends.{Ends, Ends-then}
use uvcc.Io.State.{State, set_rdoffset_lem, call_lem}
use uvcc.Io.Commands.{Quiet}
use uvcc.Io.{stream_interface, udp_interface, set_rdoffset}

module _ (uv : LibUv) (others own : ℕ → ℕ) (p : ℕ) where
  set_offset_lem :
      (n : ℕ) (s : Rdcmd) (w : World) (offset : ℤ)
      → State others own p n s w
      → Ends
          (when (not (is_negative offset)) (set_rdoffset p offset) w)
          (λ _ w'. State others own p n s w')
  set_offset_lem n s w offset h = elim (Bool-cases (is_negative offset)) [
    | inl neg ↦ rw neg (tt, w, refl, h)
    | inr nonneg ↦ rw nonneg (set_rdoffset_lem others own p n s w offset h)
  ]

  pub stream-Quiet : Quiet (stream_interface uv) others own p
  unfolding stream_interface
  stream-Quiet = record {
    read_start-quiet = λ n s w offset h.
        Ends-then _ _ _ _ (set_offset_lem n s w offset h)
          λ _ w' h'. call_lem others own p n s w' uv (uv_read_start p) h';
    read_stop-quiet = λ n s w h. call_lem others own p n s w uv (uv_read_stop p) h;
  }

  pub udp-Quiet : Quiet (udp_interface uv) others own p
  unfolding udp_interface
  udp-Quiet = record {
    read_start-quiet = λ n s w offset h.
        Ends-then _ _ _ _ (set_offset_lem n s w offset h)
          λ _ w' h'. call_lem others own p n s w' uv (uv_udp_recv_start p) h';
    read_stop-quiet = λ n s w h. call_lem others own p n s w uv (uv_udp_recv_stop p) h;
  }

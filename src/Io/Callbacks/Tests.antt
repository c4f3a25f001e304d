-- ===== src/Io/Callbacks/Tests.antt =====
-- Tests of the read callback.
use uvcc.Prelude.{ℕ, suc, ◌≡◌, refl, sym, subst, fun_ext, false, [], ◌∷◌, arith}
use uvcc.Prelude.Int.{ℤ, pos}
use uvcc.Runtime.{
  World, Instance, HandleBody, HandleType, Rdcmd, start, stop, M, pure, ◌>>=◌, fault,
}
use uvcc.Runtime.Ends.{Ends-then}
use uvcc.Runtime.Fixtures.{one, owning, empty, a_loop, a_handle, agreeable}
use uvcc.Handle.Counted.{Inv}
use uvcc.Io.{stream_interface, read_stop}
use uvcc.Handle.Observed.{extra}
use uvcc.Io.State.{State}
use uvcc.Io.Commands.{read_stop-stops}
use uvcc.Io.Interfaces.{stream-Quiet}
use uvcc.Io.Callbacks.{io_read_cb}
use uvcc.Io.Callbacks.Dangling.{Leaves, io_read_cb-dangles}

-- A stream that is reading, with one reference to it.
abbrev reading : Instance HandleBody
reading = a_handle 1 1 HandleType.tcp Rdcmd.start

abbrev connected : World
connected = record empty { handles = one reading; loops = one (a_loop 1) }

abbrev nobody : ℕ → ℕ
nobody l = 0

reading-State : State nobody nobody 1 1 start connected
reading-State = (
  reading,
  (
    1 ∷ [],
    record {
      counted = λ p. ground arith;
      listed = λ p. ground arith;
      booked = λ l. ground arith;
      small = λ l. ground arith;
    },
  ),
  refl,
  refl,
)

-- The callback stops the reading.
abbrev stops : ℕ → ℤ → ℕ → ℤ → M (Unit {0})
stops p nread b offset = do _ ← read_stop agreeable false 0 (stream_interface agreeable) p; pure tt

-- The reference of the callback's parameter, counted as a variable's.
extra_variable : (n : ℕ) → extra nobody 1 (suc n) ≡ extra (owning 1) 1 n
extra_variable n = fun_ext λ q. ground arith

stops-Leaves : Leaves nobody nobody 1 agreeable false 0 stops 2 start (pos 8) 1 1 stop
stops-Leaves w offset (i, inv, e, st) =
    let h : State nobody (owning 1) 1 1 start w =
      (i, subst (Inv nobody w) (extra_variable 1) inv, e, st) in
    Ends-then _ _ _ _
      (read_stop-stops agreeable false 0 (stream_interface agreeable) nobody (owning 1) 1
        (stream-Quiet agreeable nobody (owning 1) 1) (omega arith) (omega arith) w start i e h st)
      λ _ w' (j, inv', e', st').
        (tt, w', refl, (j, subst (Inv nobody w') (sym (extra_variable 0)) inv', e', st'))

io_read_cb-dangles_example : io_read_cb agreeable false 0 stops 1 (pos 8) 1 connected ≡ fault
io_read_cb-dangles_example =
    io_read_cb-dangles nobody nobody 1 agreeable false 0 stops 1 start stop connected reading
      (pos 8) 1 reading-State refl refl (omega arith) (omega arith) (λ t l. refl) stops-Leaves refl
      refl

-- ===== src/File/Tests.antt =====
-- Tests of the chain of file reads.
use uvcc.Prelude.{ℕ, ◌≡◌, refl, false, [], ◌∷◌, arith}
use uvcc.Prelude.Int.{ℤ, pos}
use uvcc.Runtime.{World, Instance, HandleBody, HandleType, Rdcmd, stop, M, pure, ok}
use uvcc.Runtime.Ends.{Ends}
use uvcc.Runtime.Fixtures.{one, empty, a_loop, a_handle, agreeable}
use uvcc.Buffer.Sharing.{Sink, keeps}
use uvcc.Io.State.{State}
use uvcc.Io.Callbacks.{io_read_cb}
use uvcc.File.{file_read_cb}
use uvcc.File.Chain.{cleaned, file_read_cb-ends}

-- A file whose reading has been stopped while a read was under way.
abbrev stopped : Instance HandleBody
stopped = a_handle 1 1 HandleType.file Rdcmd.stop

abbrev opened : World
opened = record empty { handles = one stopped; loops = one (a_loop 1) }

abbrev nobody : ℕ → ℕ
nobody l = 0

stopped-State : State nobody nobody 1 1 stop opened
stopped-State = (
  stopped,
  (
    1 ∷ [],
    record {
      counted = λ p. ground arith;
      listed = λ p. ground arith;
      booked = λ l. ground arith;
      small = λ l. ground arith;
    },
  ),
  refl,
  refl,
)

abbrev nothing_saved : ℕ → Sink
nothing_saved b = keeps 0

abbrev allocates : ℕ → ℕ → M ℕ
allocates p size = pure 1

abbrev ignores : ℕ → ℤ → ℕ → ℤ → M (Unit {0})
ignores p nread b offset = pure tt

file_read_cb-ends_example : Ends (io_read_cb agreeable false 0 ignores 1 (pos 8) 0 opened) (λ _ w1.
    (file_read_cb agreeable false 0 nothing_saved allocates ignores 1 (pos 8) opened
      ≡ ok tt (cleaned 1 agreeable w1))
    × State nobody nobody 1 1 stop (cleaned 1 agreeable w1))
file_read_cb-ends_example =
    file_read_cb-ends nobody nobody 1 agreeable false 0 nothing_saved allocates ignores 1 stop stop
      opened stopped 7 stopped-State refl refl (omega arith) (omega arith) 1
      (λ w offset h. (tt, w, refl, h)) refl (omega arith) (omega arith)

-- ===== src/Handle/Fixtures.antt =====
-- A world with one handle on one loop, for the tests of the kinds of handles.
use uvcc.Prelude.{ℕ, [], ◌∷◌, arith}
use uvcc.Runtime.{World, Instance, HandleBody, HandleType, Rdcmd}
use uvcc.Runtime.Fixtures.{one, owning, empty, a_loop, a_handle}
use uvcc.Handle.Counted.{Inv}
use uvcc.Handle.Observed.{extra}

-- A handle that has booked the loop, to which there is one reference.
abbrev pub booked : Instance HandleBody
booked = a_handle 1 1 HandleType.tcp Rdcmd.stop

abbrev pub connected : World
connected = record empty { handles = one booked; loops = one (a_loop 1) }

abbrev pub nobody : ℕ → ℕ
nobody l = 0

pub connected-Inv : Inv nobody connected (extra (owning 1) 1 0)
connected-Inv = (
  1 ∷ [],
  record {
    counted = λ p. ground arith;
    listed = λ p. ground arith;
    booked = λ l. ground arith;
    small = λ l. ground arith;
  },
)

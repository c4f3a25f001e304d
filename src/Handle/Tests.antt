-- ===== src/Handle/Tests.antt =====
-- Tests of the handles' lifetimes.
use uvcc.Prelude.{ℕ, ◌+◌, ◌≡◌, refl, [], ◌∷◌, arith, length, List, false}
use uvcc.Runtime.{World, ok, HandleType, Rdcmd, Instance, HandleBody, deleted_handle}
use uvcc.Runtime.Fixtures.{one, owning, empty, a_loop, a_handle, agreeable}
use uvcc.References.{Operation, copies, assigns, drops, run}
use uvcc.References.Steps.{Keeps}
use uvcc.Handle.{ref, unref}
use uvcc.Handle.Counted.{Inv}
use uvcc.Handle.Closing.{Deleted, closing}
use uvcc.Handle.Lifetime.{unref_last-closes, handle-programs, Handle-Counting}

-- A stream that has booked the loop, to which there is no other reference.
abbrev booked : Instance HandleBody
booked = a_handle 1 1 HandleType.tcp Rdcmd.stop

abbrev connected : World
connected = record empty { handles = one booked; loops = one (a_loop 1) }

abbrev nobody : ℕ → ℕ
nobody l = 0

connected-Inv : Inv nobody connected (owning 1)
connected-Inv = (
  1 ∷ [],
  record {
    counted = λ p. ground arith;
    listed = λ p. ground arith;
    booked = λ l. ground arith;
    small = λ l. ground arith;
  },
)

-- The loop is also referred to by a variable.
abbrev shared_loop : World
shared_loop = record connected { loops = one (a_loop 2) }

shared_loop-Inv : Inv (owning 1) shared_loop (owning 1)
shared_loop-Inv = (
  1 ∷ [],
  record {
    counted = λ p. ground arith;
    listed = λ p. ground arith;
    booked = λ l. ground arith;
    small = λ l. ground arith;
  },
)

unref_last-closes_example :
    (w' : World) × (unref agreeable false 0 1 shared_loop ≡ ok tt w')
    × Deleted (owning 1) agreeable false 0 shared_loop 1 (owning 1) w'
    × (w'.trace ≡ deleted_handle 1 ∷ closing (owning 1) agreeable false 0 booked 1 [])
unref_last-closes_example =
    unref_last-closes (owning 1) agreeable false 0 shared_loop (owning 1) 1 booked shared_loop-Inv
      refl refl (λ nz. omega arith)

abbrev start : List ℕ
start = 1 ∷ []

abbrev program : List Operation
program = copies 0 ∷ assigns 1 0 ∷ drops 0 ∷ drops 1 ∷ []

handle-programs_example :
    Keeps
      (Handle-Counting nobody agreeable false 0 λ t l. refl)
      (length start + length program)
      (run ref (unref agreeable false 0) program start connected)
handle-programs_example =
    handle-programs nobody agreeable false 0 (λ t l. refl) program connected start
      (
        1 ∷ [],
        record {
          counted = λ p. ground arith;
          listed = λ p. ground arith;
          booked = λ l. ground arith;
          small = λ l. ground arith;
        },
      )
      (omega arith)

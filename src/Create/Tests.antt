-- ===== src/Create/Tests.antt =====
-- Tests of the constructors of handles.
use uvcc.Prelude.{refl, true, false, [], arith}
use uvcc.Runtime.{World}
use uvcc.Runtime.Ends.{Ends}
use uvcc.Runtime.Fixtures.{one, owning, empty, a_loop, agreeable}
use uvcc.Handle.Counted.{Inv}
use uvcc.Create.Constructors.{Created}
use uvcc.Create.Kinds.{a_tcp_socket, build}
use uvcc.Create.Fixtures.{libuv, libuv-AllInitialise}
use uvcc.Prelude.Int.{negsuc}
use uvcc.Runtime.{◌>>=◌, ◌>>◌, pure}
use uvcc.Runtime.Counts.{gain}
use uvcc.Transfer.Fixtures.{idle}
use uvcc.Watch.Notify.{Leaves}
use uvcc.Create.Constructors.{lip, Settled}
use uvcc.Create.Opening.{file_open_with}
use uvcc.Create.Opened.{weightless, complete_open, open-completes}
use uvcc.Create.Complete.{build-Created}

-- A world with a loop that one variable refers to, and no handle.
abbrev looping : World
looping = record empty { loops = one (a_loop 1) }

looping-Inv : Inv (owning 1) looping (owning 0)
looping-Inv = (
  [],
  record {
    counted = λ p. ground arith;
    listed = λ p. ground arith;
    booked = λ l. ground arith;
    small = λ l. ground arith;
  },
)

build-Created_example :
    Ends
      (build agreeable false 0 libuv (a_tcp_socket 4 true) 1 7 looping)
      (λ _ w'. Created (owning 1) (owning 0) 1 7 w')
build-Created_example =
    build-Created agreeable false 0 libuv (owning 1) (owning 0) 1 7 (omega arith)
      (libuv-AllInitialise 1 7) looping looping-Inv refl (a_loop 1, refl, ground arith)
      (a_tcp_socket 4 true)

-- A file whose opening fails behind the back of the constructor.
leaving : Leaves lip weightless (owning 1) (gain (owning 0) 7) 7 idle
leaving n s w h = (tt, w, refl, h)

open-completes_example :
    Ends
      ((do
        ret ← file_open_with agreeable false 0 libuv true 3 1 7
        complete_open agreeable false 0
            (owning 1)
            (owning 0)
            1
            7
            (omega arith)
            refl
            true
            idle
            (negsuc 1)
            ret
        pure ret)
        looping)
      (Settled (owning 1) (owning 0) 1 7)
open-completes_example =
    open-completes agreeable false 0 (owning 1) (owning 0) 1 7 (omega arith) refl libuv true 3 idle
      (negsuc 1) looping ((libuv-AllInitialise 1 7).of_file 3) looping-Inv refl
      (a_loop 1, refl, ground arith) leaving

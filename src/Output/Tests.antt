-- ===== src/Output/Tests.antt =====
-- Tests of the output request.
use uvcc.Prelude.{refl, true, false}
use uvcc.Prelude.Int.{negsuc}
use uvcc.Runtime.{HandleType, Rdcmd}
use uvcc.Runtime.Ends.{Ends}
use uvcc.Runtime.Fixtures.{owning, agreeable, a_handle, a_request}
use uvcc.Transfer.Fixtures.{nobody, ready, ready-Counts, nothing_saved, idle, held}
use uvcc.Output.{run, streams}
use uvcc.Output.Balance.{Settled, run-Settled}

run-Settled_example :
    Ends (run agreeable false 0 nothing_saved idle 1 1 1 10 (negsuc 0) true ready) (
      Settled nobody agreeable false 0 nothing_saved idle
        (λ t l. refl)
        (owning 1)
        (owning 1)
        (owning 1)
        1
        1
        1
        held
        held
        held
        streams
        true
        (a_request 1).body.has_request_cb)
run-Settled_example =
    run-Settled nobody agreeable false 0 nothing_saved idle (λ t l. refl) (owning 1) (owning 1)
      (owning 1) 1 1 1 held held held ready (a_handle 1 1 HandleType.tcp Rdcmd.stop) (a_request 1)
      10 (negsuc 0) true ready-Counts refl refl

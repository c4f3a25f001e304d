-- ===== src/SendFile/Tests.antt =====
-- Tests of the request that copies from a file to an endpoint.
use uvcc.Prelude.{refl, true, false, arith}
use uvcc.Prelude.Int.{pos, negsuc}
use uvcc.Runtime.{◌>>=◌}
use uvcc.Runtime.Counts.{gain}
use uvcc.Runtime.Ends.{Ends}
use uvcc.Runtime.Fixtures.{owning, a_request, agreeable}
use uvcc.Transfer.Counts.{Counts, Held}
use uvcc.Transfer.Completion.{Harmless}
use uvcc.Transfer.Fixtures.{nobody, ready, ready-Counts, idle}
use uvcc.SendFile.{sendfile}
use uvcc.SendFile.Completion.{complete_copy, sendfile-completes}

idle-Harmless : Harmless nobody idle
idle-Harmless h r b w q counts = (tt, w, refl, counts)

held_again : Held (gain (owning 1) 1) 1
held_again = (omega arith, omega arith)

sendfile-completes_example :
    Ends
      ((sendfile agreeable false 0 idle 1 1 1 10 (negsuc 0)
          >>= complete_copy nobody agreeable false 0 idle
              (λ t l. refl)
              idle-Harmless
              (owning 1)
              (owning 1)
              (owning 1)
              1
              1
              1
              held_again
              held_again
              held_again
              (omega arith)
              (omega arith)
              (omega arith)
              true
              (pos 10))
        ready)
      (λ _ w'. Counts nobody (owning 1) (owning 1) (owning 1) w')
sendfile-completes_example =
    sendfile-completes nobody agreeable false 0 idle (λ t l. refl) idle-Harmless (owning 1)
      (owning 1) (owning 1) 1 1 1 held_again held_again held_again (omega arith) (omega arith)
      (omega arith) ready (a_request 1) 10 (negsuc 0) (pos 10) ready-Counts refl

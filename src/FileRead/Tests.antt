-- ===== src/FileRead/Tests.antt =====
-- Tests of the file read request.
use uvcc.Prelude.{refl, false, true, arith}
use uvcc.Prelude.Int.{pos, negsuc}
use uvcc.Runtime.{◌>>=◌}
use uvcc.Runtime.Counts.{gain}
use uvcc.Runtime.Ends.{Ends}
use uvcc.Runtime.Fixtures.{owning, a_request, agreeable}
use uvcc.Transfer.Counts.{Counts, Held}
use uvcc.Transfer.Completion.{Harmless}
use uvcc.Transfer.Fixtures.{nobody, ready, ready-Counts, nothing_saved, idle}
use uvcc.FileRead.{read}
use uvcc.FileRead.Completion.{complete_read, read-completes}

idle-Harmless : Harmless nobody idle
idle-Harmless h r b w q counts = (tt, w, refl, counts)

held_again : Held (gain (owning 1) 1) 1
held_again = (omega arith, omega arith)

read-completes_example :
    Ends
      ((read agreeable false 0 nothing_saved idle 1 1 1 (negsuc 0)
          >>= complete_read nobody agreeable false 0 nothing_saved idle
              (λ t l. refl)
              idle-Harmless
              (owning 1)
              (owning 1)
              (owning 1)
              1
              1
              1
              held_again
              held_again
              held_again
              (omega arith)
              (omega arith)
              (omega arith)
              true
              (pos 10))
        ready)
      (λ _ w'. Counts nobody (owning 1) (owning 1) (owning 1) w')
read-completes_example =
    read-completes nobody agreeable false 0 nothing_saved idle (λ t l. refl) idle-Harmless
      (owning 1) (owning 1) (owning 1) 1 1 1 held_again held_again held_again (omega arith)
      (omega arith) (omega arith) ready (a_request 1) (negsuc 0) (pos 10) ready-Counts refl

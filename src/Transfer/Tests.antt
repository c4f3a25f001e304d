-- ===== src/Transfer/Tests.antt =====
-- Tests of the stream and UDP requests.
use uvcc.Prelude.{refl, false, arith}
use uvcc.Prelude.Int.{negsuc}
use uvcc.Runtime.{◌>>=◌, uv_write, uv_tcp_connect}
use uvcc.Runtime.Counts.{gain}
use uvcc.Runtime.Ends.{Ends}
use uvcc.Runtime.Fixtures.{owning, agreeable}
use uvcc.Transfer.{submit, transfer}
use uvcc.Transfer.Counts.{Counts, Held}
use uvcc.Transfer.Fixtures.{nobody, ready, ready-Counts, nothing_saved, idle}
use uvcc.Transfer.Completion.{Harmless, complete, transfer-completes}
use uvcc.Transfer.Connection.{finish, submit-completes}

idle-Harmless : Harmless nobody idle
idle-Harmless h r b w q counts = (tt, w, refl, counts)

held_again : Held (gain (owning 1) 1) 1
held_again = (omega arith, omega arith)

transfer-completes_example :
    Ends
      ((transfer agreeable false 0 nothing_saved idle 1 1 1 (uv_write 1 1 1)
          >>= complete nobody agreeable false 0 nothing_saved idle
              (λ t l. refl)
              idle-Harmless
              (owning 1)
              (owning 1)
              (owning 1)
              1
              1
              1
              held_again
              held_again
              held_again
              (omega arith)
              (omega arith)
              (omega arith)
              (negsuc 0))
        ready)
      (λ _ w'. Counts nobody (owning 1) (owning 1) (owning 1) w')
transfer-completes_example =
    transfer-completes nobody agreeable false 0 nothing_saved idle (λ t l. refl) idle-Harmless
      (owning 1) (owning 1) (owning 1) 1 1 1 held_again held_again held_again (omega arith)
      (omega arith) (omega arith) ready (uv_write 1 1 1) (negsuc 0) ready-Counts

submit-completes_example :
    Ends
      ((submit agreeable false 0 nothing_saved idle 1 1 (uv_tcp_connect 1 1)
          >>= finish nobody agreeable false 0 nothing_saved idle
              (λ t l. refl)
              idle-Harmless
              (owning 1)
              (owning 1)
              (owning 1)
              1
              1
              (omega arith)
              (omega arith)
              held_again
              held_again
              (negsuc 0))
        ready)
      (λ _ w'. Counts nobody (owning 1) (owning 1) (owning 1) w')
submit-completes_example =
    submit-completes nobody agreeable false 0 nothing_saved idle (λ t l. refl) idle-Harmless
      (owning 1) (owning 1) (owning 1) 1 1 (omega arith) (omega arith) held_again held_again ready
      (uv_tcp_connect 1 1) (negsuc 0) ready-Counts

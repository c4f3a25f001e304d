-- ===== src/Scheme/Tests.antt =====
-- Tests of the requests on files and paths.
use uvcc.Prelude.{refl, false, true, arith}
use uvcc.Prelude.Int.{pos, negsuc}
use uvcc.Runtime.{◌>>=◌}
use uvcc.Runtime.Counts.{gain}
use uvcc.Runtime.Ends.{Ends}
use uvcc.Runtime.Fixtures.{owning, a_request, agreeable}
use uvcc.Transfer.Counts.{Counts, Held}
use uvcc.Transfer.Completion.{Harmless}
use uvcc.Transfer.Fixtures.{nobody, ready, ready-Counts, idle}
use uvcc.Scheme.Requests.{of_stat, of_fchmod, run_path, run_file}
use uvcc.Scheme.OnPaths.{complete_path, path-completes}
use uvcc.Scheme.OnFiles.{complete_file, file-completes}

idle-Harmless : Harmless nobody idle
idle-Harmless h r b w q counts = (tt, w, refl, counts)

held_again : Held (gain (owning 1) 1) 1
held_again = (omega arith, omega arith)

path-completes_example :
    Ends
      ((run_path agreeable false 0 idle (of_stat true) 1
          >>= complete_path nobody agreeable false 0 idle
              (λ t l. refl)
              idle-Harmless
              (owning 1)
              (owning 1)
              (owning 1)
              1
              (omega arith)
              held_again
              (of_stat true)
              true
              (negsuc 1))
        ready)
      (λ _ w'. Counts nobody (owning 1) (owning 1) (owning 1) w')
path-completes_example =
    path-completes nobody agreeable false 0 idle (λ t l. refl) idle-Harmless (owning 1) (owning 1)
      (owning 1) 1 (omega arith) held_again (of_stat true) ready (a_request 1) (negsuc 1)
      ready-Counts refl

file-completes_example :
    Ends
      ((run_file agreeable false 0 idle of_fchmod 1 1
          >>= complete_file nobody agreeable false 0 idle
              (λ t l. refl)
              idle-Harmless
              (owning 1)
              (owning 1)
              (owning 1)
              1
              (omega arith)
              held_again
              1
              (omega arith)
              held_again
              refl
              of_fchmod
              true
              (pos 0))
        ready)
      (λ _ w'. Counts nobody (owning 1) (owning 1) (owning 1) w')
file-completes_example =
    file-completes nobody agreeable false 0 idle (λ t l. refl) idle-Harmless (owning 1) (owning 1)
      (owning 1) 1 (omega arith) held_again 1 (omega arith) held_again refl of_fchmod ready
      (a_request 1) (pos 0) ready-Counts refl

-- ===== src/Async/Tests.antt =====
-- Tests of async handles.
use uvcc.Prelude.{refl, false, arith}
use uvcc.Runtime.{ok, ◌>>◌}
use uvcc.Runtime.Ends.{Ends}
use uvcc.Runtime.Fixtures.{owning, agreeable}
use uvcc.Handle.Fixtures.{booked, connected, nobody, connected-Inv}
use uvcc.Async.{async_cb}
use uvcc.Async.Counts.{Pending, sends, coalesced-leaks}

coalesced-leaks_example :
    Ends
      ((do sends agreeable false 0 4 1; async_cb agreeable false 0 (λ q w. ok tt w) 1) connected)
      (λ _ w'. Pending nobody (owning 1) 1 3 w')
coalesced-leaks_example =
    coalesced-leaks agreeable false 0 nobody (owning 1) 1 (omega arith) (λ t. refl) 3
      (λ q w. ok tt w) connected (omega arith) (λ n s w h. (tt, w, refl, h))
      (booked, connected-Inv, refl, refl)

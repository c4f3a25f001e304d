-- ===== src/EventLoop/Tests.antt =====
-- Tests of the runs and walks of loops.
use uvcc.Prelude.{ℕ, ◌≡◌, refl, subst, fun_ext, true, false, arith}
use uvcc.Prelude.Int.{ℤ, pos}
use uvcc.Runtime.{World, M, pure}
use uvcc.Runtime.Counts.{gain}
use uvcc.Runtime.Ends.{Ends}
use uvcc.Runtime.Fixtures.{one, a_loop, owning, agreeable}
use uvcc.Transfer.Fixtures.{ready}
use uvcc.Loop
use uvcc.Loop.Lifetime.{unref_law}
use uvcc.EventLoop.{run}
use uvcc.EventLoop.Run.{Inv, run-ends}

abbrev quick : ℕ → M ℤ
quick l = pure (pos 0)

-- A loop in one variable, with a callback for its exit that releases the variable.
abbrev lone : World
lone = record ready { loops = one (record (a_loop 1) { body = record { has_exit_cb = true } }) }

abbrev none_held : ℕ → ℕ
none_held l = 0

releases :
    (w : World)
    → Inv w (gain (owning 1) 1)
    → Ends (Loop.unref agreeable false 0 1 w) (λ _ w'. Inv w' (gain none_held 1))
releases w inv =
    let (w', run, inv', _, _) =
      unref_law agreeable false 0 (λ t l. refl) w (gain (owning 1) 1) 1 inv (omega arith)
        (omega arith) in
    (tt, w', run, subst (Inv w') (fun_ext λ l. ground arith) inv')

run-ends_example :
    Ends
      (run agreeable false 0 quick (Loop.unref agreeable false 0) 1 lone)
      (λ ret w'. (ret ≡ pos 0) × Inv w' none_held)
run-ends_example =
    run-ends agreeable false 0 (λ t l. refl) 1 (Loop.unref agreeable false 0) (owning 1) none_held
      quick (pos 0) true lone (pos 0, lone, refl, (refl, (λ p. ground arith), (_, refl, refl)))
      (omega arith) (omega arith) (omega arith) releases

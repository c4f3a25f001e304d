-- ===== src/Loop/Closing.antt =====
-- What the destructor of a loop's instance does.
use uvcc.Prelude.{ℕ, zero, suc, ◌<◌, ◌≡◌, Bool, true, false, ◌∷◌, arith, List, if◌then◌else◌}
use uvcc.Prelude.Int.{is_zero}
use uvcc.Runtime.{
  World, ok, throws, LibUv, Event, called, uv_run_once, uv_loop_close, uv_walk_open_handles,
}
use uvcc.Loop.{run_pending, dispose, destruct_instance}

module _ (uv : LibUv) (l : ℕ) where
  -- A non-blocking run of the loop answers 0 after `n` runs that do not.
  abbrev pub DrainsIn : ℕ → List Event → Type 0
  DrainsIn zero t = is_zero (uv t (uv_run_once l)) ≡ true
  DrainsIn (suc n) t =
      (is_zero (uv t (uv_run_once l)) ≡ false)
      × DrainsIn n (called (uv_run_once l) (uv t (uv_run_once l)) ∷ t)

  -- The trace after those runs.
  abbrev pub drained : ℕ → List Event → List Event
  drained zero t = called (uv_run_once l) (uv t (uv_run_once l)) ∷ t
  drained (suc n) t = drained n (called (uv_run_once l) (uv t (uv_run_once l)) ∷ t)

  run_pending-drained :
      (uncaught : Bool) (fuel n k : ℕ) (w : World)
      → DrainsIn n w.trace
      → n < k
      → run_pending uv uncaught fuel k l w ≡ ok tt (record w { trace = drained n w.trace })
  unfolding run_pending
  run_pending-drained uncaught fuel n zero w d h = absurd (omega arith)
  run_pending-drained uncaught fuel zero (suc k) w d h = ground arith
  run_pending-drained uncaught fuel (suc n) (suc k) w (more, d) h = ground (
    arith,
    run_pending-drained uncaught fuel n k
        (record w { trace = called (uv_run_once l) (uv w.trace (uv_run_once l)) ∷ w.trace }) d
        (omega arith),
  )

  abbrev pub asked_close : List Event → List Event
  asked_close t = called (uv_loop_close l) (uv t (uv_loop_close l)) ∷ t

  abbrev pub asked_walk : List Event → List Event
  asked_walk t = called (uv_walk_open_handles l) (uv t (uv_walk_open_handles l)) ∷ t

  abbrev pub closes : List Event → Bool
  closes t = is_zero (uv t (uv_loop_close l))

  -- The destructor, where the loop can be drained in `n` runs and the fuel is more: it tries to close
  -- the loop; where that fails because of open handles it throws, unless an exception is in flight;
  -- otherwise it drains the loop and closes it again, and throws if that fails too.
  pub destruct_instance-total :
      (uncaught : Bool) (fuel n : ℕ) (w : World)
      → DrainsIn n (asked_walk (asked_close w.trace))
      → n < fuel
      → let t = asked_walk (asked_close w.trace) in
        destruct_instance uv uncaught fuel l w ≡ (
          if closes w.trace
          then ok tt (record w { trace = asked_close w.trace })
          else if is_zero (uv (asked_close w.trace) (uv_walk_open_handles l))
          then (if closes (drained n t)
              then ok tt (record w { trace = asked_close (drained n t) })
              else throws)
          else if uncaught
          then ok tt (record w { trace = t })
          else throws)
  unfolding destruct_instance dispose
  destruct_instance-total uncaught fuel n w d h = ground (
    arith,
    run_pending-drained uncaught fuel n fuel (record w { trace = asked_walk (asked_close w.trace) })
        d h,
  )

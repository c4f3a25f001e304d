-- ===== src/Timer/Fired.antt =====
-- A timer without a repeat interval: `timer_cb` releases the reference and leaves `has_extra_ref`.
use uvcc.Prelude.{ℕ, ◌+◌, ◌<◌, ◌≡◌, refl, Bool, true, List, none, arith}
use uvcc.Prelude.Int.{ℤ, is_zero}
use uvcc.Utility.RefCount.{long_mod}
use uvcc.Runtime.{World, M, LibUv, Event, pure, ◌>>=◌, ◌>>◌, uv_timer_get_repeat, uv_timer_stop}
use uvcc.Runtime.Counts.{lose}
use uvcc.Runtime.Ends.{Ends, Ends-then, Ends-weaken}
use uvcc.Loop.Lifetime.{ClosesAll}
use uvcc.Handle.Counted.{Inv}
use uvcc.Handle.Observed.{
  Shows, set_status-Shows, trace-Shows, call-Shows, unref-Shows, unref_deletes,
}
use uvcc.Watch.Notify.{Leaves, notify-Leaves}
use uvcc.Timer.State.{extra_ref, held, Holds, set_extra_ref-Shows}
use uvcc.Handle.{load}
use uvcc.Timer.{release, stop, timer_cb}

abbrev pub IsOnce : LibUv → ℕ → Type 0
IsOnce uv p = (t : List Event) → is_zero (uv t (uv_timer_get_repeat p)) ≡ true

module _ (uv : LibUv) (uncaught : Bool) (fuel : ℕ) (others own : ℕ → ℕ) (p : ℕ) (once : IsOnce uv p)
    (user : 0 < own p) (room : own p + 4 < long_mod) where
  -- The callback of a timer that does not repeat releases the timer's reference to itself, and
  -- `has_extra_ref` still says that there is one.
  pub timer_cb-keeps_flag :
      (f : ℕ → M (Unit {0})) (w : World)
      → Leaves extra_ref held others own p f
      → Holds others own p 0 true w
      → Ends (timer_cb uv uncaught fuel f p w) (λ _ w'. Shows extra_ref others own p 0 true w')
  unfolding timer_cb
  timer_cb-keeps_flag f w quiet (i, inv, e, st) =
      rw (e, once w.trace, st)
        (Ends-then _ _ _ _
          (notify-Leaves extra_ref held (λ s. ground arith) uv uncaught fuel others own p 1 user
            (omega arith) f true _ quiet
            (trace-Shows extra_ref others own p 1 true w _ (i, inv, e, st)))
          λ _ w1 h1.
            unref-Shows extra_ref others own p uv uncaught fuel 0 true w1 (omega arith)
              (omega arith) h1)

  stop_deletes :
      (w : World)
      → ClosesAll uv
      → own p ≡ 1
      → Shows extra_ref others own p 0 true w
      → Ends
          (release uv uncaught fuel p true w)
          (λ _ w'. (w'.handles p ≡ none) × Inv others w' (lose own p))
  unfolding release
  stop_deletes w shut only h =
      Ends-then _ _ _ _ (set_extra_ref-Shows others own p 0 true _ w h)
        λ _ w1 h1. unref_deletes extra_ref others own p uv uncaught fuel _ w1 shut only h1

  -- `stop()` with the flag set and no reference behind it.
  stop_flagged :
      (w : World)
      → ClosesAll uv
      → own p ≡ 1
      → Shows extra_ref others own p 0 true w
      → Ends
          (stop uv uncaught fuel p w)
          (λ _ w'. (w'.handles p ≡ none) × Inv others w' (lose own p))
  unfolding stop
  stop_flagged w shut only h =
      Ends-then _ _ _ _ (call-Shows extra_ref others own p 0 true w uv (uv_timer_stop p) h)
        λ r w1 (_, h1).
          Ends-then _ _ _ _ (set_status-Shows extra_ref others own p 0 true w1 r h1)
            λ ret w2 (_, h2). rest ret w2 h2
    where
      rest :
          (ret : ℤ) (w : World)
          → Shows extra_ref others own p 0 true w
          → Ends
              ((do i ← load p; release uv uncaught fuel p i.body.has_extra_ref; pure ret) w)
              (λ _ w'. (w'.handles p ≡ none) × Inv others w' (lose own p))
      rest ret w (i, inv, e, st) =
          rw (e, st)
            (Ends-then _ _ _ _ (stop_deletes w shut only (i, inv, e, st))
              λ _ w' h'. (ret, w', refl, h'))

  -- A timer that does not repeat, and to which only one variable refers: when it has fired and then is
  -- stopped, the instance is deleted although the variable still refers to it. It is given that the
  -- callback leaves the timer alone, and that libuv closes every loop that is given up.
  pub fired-stop-deletes :
      (f : ℕ → M (Unit {0})) (w : World)
      → ClosesAll uv
      → own p ≡ 1
      → Leaves extra_ref held others own p f
      → Holds others own p 0 true w
      → Ends
          ((do timer_cb uv uncaught fuel f p; stop uv uncaught fuel p) w)
          (λ _ w'. w'.handles p ≡ none)
  fired-stop-deletes f w shut only quiet h =
      Ends-then _ _ _ _ (timer_cb-keeps_flag f w quiet h)
        λ _ w1 h1. Ends-weaken _ _ _ (stop_flagged w1 shut only h1) λ _ w2 (gone, _). gone

-- ===== src/Timer/Repeating.antt =====
-- A timer with a repeat interval: any order of starts, stops and callbacks.
use uvcc.Prelude.{ℕ, ◌+◌, ◌<◌, ◌≡◌, refl, Bool, true, false, List, [], ◌∷◌, arith}
use uvcc.Prelude.Int.{is_zero}
use uvcc.Utility.RefCount.{long_mod}
use uvcc.Runtime.{World, M, LibUv, Event, pure, ◌>>=◌, ◌>>◌, uv_timer_get_repeat}
use uvcc.Runtime.Ends.{Ends, Ends-then, Ends-weaken}
use uvcc.Handle.Observed.{update-Shows, trace-Shows}
use uvcc.Watch.{set_event_cb}
use uvcc.Watch.Notify.{Balances, notify-Balances}
use uvcc.Timer.State.{extra_ref, held, Held, start_lem, stop_lem}
use uvcc.Timer.{start, start_with, stop, timer_cb}

-- What happens to a timer.
pub data Happening : Type 0 where
  starts starts_with : (timeout : ℕ) → Happening
  stops fires : Happening

module _ (uv : LibUv) (uncaught : Bool) (fuel : ℕ) where
  pub happen : (user : ℕ → M (Unit {0})) → Happening → ℕ → M (Unit {0})
  happen user (starts timeout) p = do _ ← start uv uncaught fuel timeout p; pure tt
  happen user (starts_with timeout) p = do _ ← start_with uv uncaught fuel timeout p; pure tt
  happen user stops p = do _ ← stop uv uncaught fuel p; pure tt
  happen user fires p = timer_cb uv uncaught fuel user p

  pub happenings : (user : ℕ → M (Unit {0})) → List Happening → ℕ → M (Unit {0})
  happenings user [] p = pure tt
  happenings user (x ∷ xs) p = do happen user x p; happenings user xs p

-- The repeat interval of the timer is never 0.
abbrev pub Repeats : LibUv → ℕ → Type 0
Repeats uv p = (t : List Event) → is_zero (uv t (uv_timer_get_repeat p)) ≡ false

module _ (uv : LibUv) (uncaught : Bool) (fuel : ℕ) (others own : ℕ → ℕ) (p : ℕ) (user : 0 < own p)
    (room : own p + 4 < long_mod) where
  with_lem :
      (k timeout : ℕ) (w : World)
      → k < 2
      → Held others own p k w
      → Ends (start_with uv uncaught fuel timeout p w) (λ _ w'. Held others own p k w')
  unfolding start_with set_event_cb
  with_lem k timeout w few (b, h) =
      Ends-then _ _ _ _
        (update-Shows extra_ref others own p (λ x. record x { has_event_cb = true }) (held b + k) b
          b w (λ x. refl) (λ x e. e) h)
        λ _ w1 h1.
          Ends-weaken _ _ _
            (start_lem uv uncaught fuel others own p k user (omega arith) timeout w1 (b, h1))
            λ a w2 h2. (_, h2)

  -- A callback that starts or stops its timer ends with the counts right.
  pub restart-Balances :
      (timeout : ℕ)
      → Balances extra_ref held others own p 1
          (λ q. do _ ← start uv uncaught fuel timeout q; pure tt)
  restart-Balances timeout w h =
      Ends-then _ _ _ _ (start_lem uv uncaught fuel others own p 1 user (omega arith) timeout w h)
        λ a w1 h1. (tt, w1, refl, (_, h1))

  module _ (repeats : Repeats uv p) (f : ℕ → M (Unit {0}))
      (behaves : Balances extra_ref held others own p 1 f) where
    timer_cb_lem :
        (w : World)
        → Held others own p 0 w
        → Ends (timer_cb uv uncaught fuel f p w) (λ _ w'. Held others own p 0 w')
    unfolding timer_cb
    timer_cb_lem w (b, (i, inv, e, st)) =
        rw (e, repeats w.trace)
          (notify-Balances extra_ref held (λ s. ground arith) uv uncaught fuel others own p 0 user
            (omega arith) f _ behaves
            (b, trace-Shows extra_ref others own p (held b + 0) b w _ (i, inv, e, st)))

    happen_lem :
        (x : Happening) (w : World)
        → Held others own p 0 w
        → Ends (happen uv uncaught fuel f x p w) (λ _ w'. Held others own p 0 w')
    unfolding happen
    happen_lem (starts timeout) w h =
        Ends-then _ _ _ _ (start_lem uv uncaught fuel others own p 0 user (omega arith) timeout w h)
          λ a w1 h1. (tt, w1, refl, (_, h1))
    happen_lem (starts_with timeout) w h =
        Ends-then _ _ _ _ (with_lem 0 timeout w (omega arith) h) λ a w1 h1. (tt, w1, refl, h1)
    happen_lem stops w h =
        Ends-then _ _ _ _ (stop_lem uv uncaught fuel others own p 0 user (omega arith) w h)
          λ a w1 h1. (tt, w1, refl, (_, h1))
    happen_lem fires w h = timer_cb_lem w h

    -- A timer with a repeat interval that is never 0: whatever is started, stopped and called back, in
    -- any order, the run ends, and with it the counts are right: the timer holds one reference to
    -- itself if `has_extra_ref` is set and none if not. It is given that the callback of the user ends
    -- so, and that the program holds a reference to the timer.
    pub happenings-Held :
        (xs : List Happening) (w : World)
        → Held others own p 0 w
        → Ends (happenings uv uncaught fuel f xs p w) (λ _ w'. Held others own p 0 w')
    unfolding happenings
    happenings-Held [] w h = (tt, w, refl, h)
    happenings-Held (x ∷ xs) w h =
        Ends-then _ _ _ _ (happen_lem x w h) λ _ w1 h1. happenings-Held xs w1 h1

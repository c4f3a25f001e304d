-- ===== src/Timer/State.antt =====
-- The reference that a timer holds to itself, over start, stop and callbacks.
use uvcc.Prelude.{
  ℕ, suc, ◌+◌, ◌<◌, refl, sym, subst, inl, inr, Bool, true, false, not, arith, if◌then◌else◌,
  Bool-cases,
}
use uvcc.Prelude.Int.{ℤ, pos, is_negative}
use uvcc.Utility.RefCount.{long_mod}
use uvcc.Runtime.{
  World, HandleBody, LibUv, pure, ◌>>=◌, ◌>>◌, uv_timer_get_repeat, uv_timer_start, uv_timer_stop,
}
use uvcc.Runtime.Ends.{Ends, Ends-then, Ends-weaken}
use uvcc.Handle.{load}
use uvcc.Handle.Observed.{
  Shows, recount, set_status-Shows, update-Shows, call-Shows, ref-Shows, unref-Shows,
}
use uvcc.Watch.Notify.{Balanced}
use uvcc.Timer.{set_extra_ref, start_result, acquire, release, start, stop}

abbrev pub extra_ref : HandleBody → Bool
extra_ref b = b.has_extra_ref

-- The reference of a timer with the flag `b`.
abbrev pub held : Bool → ℕ
held b = if b then 1 else 0

module _ (others own : ℕ → ℕ) (p : ℕ) where
  -- The counts are right with `k` references to `p` besides those of `own` and the one that the flag
  -- `has_extra_ref`, which is `b`, stands for.
  abbrev pub Holds : ℕ → Bool → World → Type 0
  Holds k b w = Shows extra_ref others own p (held b + k) b w

  abbrev pub Held : ℕ → World → Type 0
  Held k w = Balanced extra_ref held others own p k w

  pub set_extra_ref-Shows :
      (n : ℕ) (b b' : Bool) (w : World)
      → Shows extra_ref others own p n b w
      → Ends (set_extra_ref b' p w) (λ _ w'. Shows extra_ref others own p n b' w')
  unfolding set_extra_ref
  set_extra_ref-Shows n b b' w h =
      update-Shows extra_ref others own p (λ x. record x { has_extra_ref = b' }) n b b' w
        (λ x. refl) (λ x _. refl) h

module _ (uv : LibUv) (uncaught : Bool) (fuel : ℕ) (others own : ℕ → ℕ) (p k : ℕ) (user : 0 < own p)
    (room : own p + k + 3 < long_mod) where
  acquire_lem :
      (b : Bool) (w : World)
      → Holds others own p k b w
      → Ends (acquire uv uncaught fuel p b w) (λ _ w'. Holds others own p k true w')
  unfolding acquire
  acquire_lem true w h = (tt, w, refl, h)
  acquire_lem false w h =
      Ends-then _ _ _ _ (ref-Shows extra_ref others own p (0 + k) false w (omega arith) h)
        λ _ w1 h1.
          Ends-weaken _ _ _ (set_extra_ref-Shows others own p (suc (0 + k)) false true w1 h1)
            λ _ w2 h2. recount extra_ref others own p true w2 (omega arith) h2

  release_lem :
      (b : Bool) (w : World)
      → Holds others own p k b w
      → Ends (release uv uncaught fuel p b w) (λ _ w'. Holds others own p k false w')
  unfolding release
  release_lem false w h = (tt, w, refl, h)
  release_lem true w h =
      Ends-then _ _ _ _ (set_extra_ref-Shows others own p (1 + k) true false w h) λ _ w1 h1.
        unref-Shows extra_ref others own p uv uncaught fuel (0 + k) false w1 (omega arith)
          (omega arith) (recount extra_ref others own p false w1 (omega arith) h1)

  start_result_lem :
      (w : World) (r : ℤ)
      → Holds others own p k true w
      → Ends
          (start_result uv uncaught fuel p r w)
          (λ a w'. Holds others own p k (not (is_negative a)) w')
  unfolding start_result
  start_result_lem w r h = elim (Bool-cases (is_negative r)) [
    | inl neg ↦ rw neg (
        Ends-then _ _ _ _ (set_status-Shows extra_ref others own p (1 + k) true w r h)
          λ _ w1 (_, h1).
            Ends-then _ _ _ _ (set_extra_ref-Shows others own p (1 + k) true false w1 h1) λ _ w2 h2.
              Ends-then _ _ _ _
                (unref-Shows extra_ref others own p uv uncaught fuel (0 + k) false w2 (omega arith)
                  (omega arith) (recount extra_ref others own p false w2 (omega arith) h2))
                λ _ w3 h3. (r, w3, refl, subst (λ b. Holds others own p k (not b) w3) (sym neg) h3))
    | inr nonneg ↦
        rw nonneg (r, w, refl, subst (λ b. Holds others own p k (not b) w) (sym nonneg) h)
  ]

  -- `start()`, whether or not the timer holds a reference: it holds one if libuv has started it and
  -- none otherwise.
  pub start_lem :
      (timeout : ℕ) (w : World)
      → Held others own p k w
      → Ends
          (start uv uncaught fuel timeout p w)
          (λ a w'. Holds others own p k (not (is_negative a)) w')
  unfolding start
  start_lem timeout w (b, (i, inv, e, st)) =
      rw (e, st)
        (Ends-then _ _ _ _ (acquire_lem b w (i, inv, e, st)) λ _ w1 h1.
          Ends-then _ _ _ _ (set_status-Shows extra_ref others own p (1 + k) true w1 (pos 0) h1)
            λ _ w2 (_, h2).
              Ends-then _ _ _ _
                (call-Shows extra_ref others own p (1 + k) true w2 uv (uv_timer_get_repeat p) h2)
                λ r w3 (_, h3).
                  Ends-then _ _ _ _
                    (call-Shows extra_ref others own p (1 + k) true w3 uv
                      (uv_timer_start p timeout r) h3)
                    λ ret w4 (_, h4). start_result_lem w4 ret h4)

  -- `stop()`: the timer holds none.
  pub stop_lem :
      (w : World)
      → Held others own p k w
      → Ends (stop uv uncaught fuel p w) (λ _ w'. Holds others own p k false w')
  unfolding stop
  stop_lem w (b, h) =
      Ends-then _ _ _ _ (call-Shows extra_ref others own p (held b + k) b w uv (uv_timer_stop p) h)
        λ r w1 (_, h1).
          Ends-then _ _ _ _ (set_status-Shows extra_ref others own p (held b + k) b w1 r h1)
            λ ret w2 (_, h2). stop_rest ret b w2 h2
    where
      stop_rest :
          (ret : ℤ) (b : Bool) (w : World)
          → Holds others own p k b w
          → Ends
              ((do i ← load p; release uv uncaught fuel p i.body.has_extra_ref; pure ret) w)
              (λ _ w'. Holds others own p k false w')
      stop_rest ret b w (i, inv, e, st) =
          rw (e, st)
            (Ends-then _ _ _ _ (release_lem b w (i, inv, e, st)) λ _ w' h'. (ret, w', refl, h'))

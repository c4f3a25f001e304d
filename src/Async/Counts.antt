-- ===== src/Async/Counts.antt =====
-- The references of sends that are not called back yet.
use uvcc.Prelude.{
  ℕ, suc, zero, ◌+◌, ◌<◌, ◌≡◌, refl, ◌∙◌, inl, inr, Bool, false, List, arith, if◌then◌else◌,
  Bool-cases,
}
use uvcc.Prelude.Int.{ℤ, pos, is_negative}
use uvcc.Utility.RefCount.{long_mod}
use uvcc.Runtime.{World, HandleBody, M, LibUv, Event, pure, ◌>>=◌, ◌>>◌, uv_async_send}
use uvcc.Runtime.Ends.{Ends, Ends-then, Ends-weaken}
use uvcc.Handle.Observed.{Shows, recount, set_status-Shows, call-Shows, ref-Shows, unref-Shows}
use uvcc.Watch.Notify.{Leaves, notify-Leaves}
use uvcc.Async.{send, send_result, async_cb}

-- Nothing of the instance is looked at.
abbrev pub nothing : HandleBody → Unit {0}
nothing b = tt

abbrev pub weightless : Unit {0} → ℕ
weightless s = 0

module _ (others own : ℕ → ℕ) (p : ℕ) where
  -- The counts are right with `n` references to `p` besides those of `own`.
  abbrev pub Pending : ℕ → World → Type 0
  Pending n w = Shows nothing others own p n tt w

module _ (uv : LibUv) (uncaught : Bool) (fuel : ℕ) (others own : ℕ → ℕ) (p : ℕ)
    (user : 0 < own p) where
  send_result_lem :
      (n : ℕ) (w : World) (r : ℤ)
      → own p + n + 1 < long_mod
      → Pending others own p (suc n) w
      → Ends
          (send_result uv uncaught fuel p r w)
          (λ a w'. (a ≡ r) × Pending others own p (if is_negative a then n else suc n) w')
  unfolding send_result
  send_result_lem n w r room h = elim (Bool-cases (is_negative r)) [
    | inl neg ↦ rw neg (
        Ends-then _ _ _ _ (set_status-Shows nothing others own p (suc n) tt w r h) λ _ w1 (_, h1).
          Ends-then _ _ _ _
            (unref-Shows nothing others own p uv uncaught fuel n tt w1 (omega arith) (omega arith)
              h1)
            λ _ w2 h2.
              (r, w2, refl, (refl, recount nothing others own p tt w2 (ground (arith, neg)) h2)))
    | inr nonneg ↦
        rw nonneg (r, w, refl, (refl, recount nothing others own p tt w (ground (arith, nonneg)) h))
  ]

  -- A send keeps a reference for the callback if libuv accepts it, and none if not.
  pub send-keeps :
      (n : ℕ) (w : World)
      → own p + n + 1 < long_mod
      → Pending others own p n w
      → Ends (send uv uncaught fuel p w) (λ a w'.
        ((t : List Event) × (a ≡ uv t (uv_async_send p)))
        × Pending others own p (if is_negative a then n else suc n) w')
  unfolding send
  send-keeps n w room h =
      Ends-then _ _ _ _ (ref-Shows nothing others own p n tt w room h) λ _ w1 h1.
        Ends-then _ _ _ _ (set_status-Shows nothing others own p (suc n) tt w1 (pos 0) h1)
          λ _ w2 (_, h2).
            Ends-then _ _ _ _
              (call-Shows nothing others own p (suc n) tt w2 uv (uv_async_send p) h2)
              λ r w3 (answer, h3).
                Ends-weaken _ _ _ (send_result_lem n w3 r room h3)
                  λ a w4 (same, h4). ((_, same ∙ answer), h4)

  -- A callback releases the reference of one send.
  pub async_cb-releases :
      (f : ℕ → M (Unit {0})) (n : ℕ) (w : World)
      → own p + n + 3 < long_mod
      → Leaves nothing weightless others own p f
      → Pending others own p (suc n) w
      → Ends (async_cb uv uncaught fuel f p w) (λ _ w'. Pending others own p n w')
  unfolding async_cb
  async_cb-releases f n w room quiet h =
      Ends-then _ _ _ _
        (notify-Leaves nothing weightless (λ s. ground arith) uv uncaught fuel others own p (suc n)
          user (omega arith) f tt w quiet h)
        λ _ w1 h1.
          unref-Shows nothing others own p uv uncaught fuel n tt w1 (omega arith) (omega arith) h1

module _ (uv : LibUv) (uncaught : Bool) (fuel : ℕ) where
  abbrev pub sends : ℕ → ℕ → M (Unit {0})
  sends zero p = pure tt
  sends (suc n) p = do _ ← send uv uncaught fuel p; sends n p

-- libuv accepts every send to the handle.
abbrev pub Accepts : LibUv → ℕ → Type 0
Accepts uv p = (t : List Event) → is_negative (uv t (uv_async_send p)) ≡ false

module _ (uv : LibUv) (uncaught : Bool) (fuel : ℕ) (others own : ℕ → ℕ) (p : ℕ) (user : 0 < own p)
    (accepts : Accepts uv p) where
  sends_lem :
      (n m : ℕ) (w : World)
      → own p + m + n < long_mod
      → Pending others own p m w
      → Ends (sends uv uncaught fuel n p w) (λ _ w'. Pending others own p (m + n) w')
  sends_lem zero m w room h = (tt, w, refl, recount nothing others own p tt w (omega arith) h)
  sends_lem (suc n) m w room h =
      Ends-then _ _ _ _ (send-keeps uv uncaught fuel others own p user m w (omega arith) h)
        λ a w1 ((t, answer), h1).
          let counted : Pending others own p (suc m) w1 =
            recount nothing others own p tt w1 (ground (arith, answer, accepts t)) h1 in
          Ends-weaken _ _ _ (sends_lem n (suc m) w1 (omega arith) counted)
            λ _ w2 h2. recount nothing others own p tt w2 (omega arith) h2

  -- Where libuv makes one callback of several sends, as it may, one reference is released: of n + 1
  -- accepted sends n references are left that no callback to come releases. It is given that the
  -- callback of the user leaves the handle alone.
  pub coalesced-leaks :
      (n : ℕ) (f : ℕ → M (Unit {0})) (w : World)
      → own p + n + 4 < long_mod
      → Leaves nothing weightless others own p f
      → Pending others own p 0 w
      → Ends
          ((do sends uv uncaught fuel (suc n) p; async_cb uv uncaught fuel f p) w)
          (λ _ w'. Pending others own p n w')
  coalesced-leaks n f w room quiet h =
      Ends-then _ _ _ _ (sends_lem (suc n) 0 w (omega arith) h) λ _ w1 h1.
        async_cb-releases uv uncaught fuel others own p user f n w1 (omega arith) quiet
          (recount nothing others own p tt w1 (omega arith) h1)

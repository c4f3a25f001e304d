-- ===== src/Watch/Notify.antt =====
-- `notify`, for handles whose state `view` shows stands for `weight` references.
use uvcc.Prelude.{ℕ, suc, ◌+◌, ◌<◌, refl, inl, inr, Bool, arith, Bool-cases}
use uvcc.Utility.RefCount.{long_mod}
use uvcc.Runtime.{World, HandleBody, M, LibUv}
use uvcc.Runtime.Ends.{Ends, Ends-then, Ends-weaken}
use uvcc.Handle.Observed.{Shows, recount, ref-Shows, unref-Shows}
use uvcc.Watch.{notify}

module _ {S : Type 0} (view : HandleBody → S) (weight : S → ℕ) (others own : ℕ → ℕ) (p : ℕ) where
  -- The counts are right for the state that the handle is in, with `k` references more.
  abbrev pub Balanced : ℕ → World → Type 0
  Balanced k w = (s : S) × Shows view others own p (weight s + k) s w

  -- The callback ends with the counts right.
  abbrev pub Balances : ℕ → (ℕ → M (Unit {0})) → Type 0
  Balances k f = (w : World) → Balanced k w → Ends (f p w) (λ _ w'. Balanced k w')

  -- The code ends, and leaves the counts and what the view shows.
  abbrev pub Leaves : {A : Type 0} → (ℕ → M A) → Type 0
  Leaves f =
      (n : ℕ) (s : S) (w : World)
      → Shows view others own p n s w
      → Ends (f p w) (λ _ w'. Shows view others own p n s w')

module _ {S : Type 0} (view : HandleBody → S) (weight : S → ℕ) (light : (s : S) → weight s < 2)
    (uv : LibUv) (uncaught : Bool) (fuel : ℕ) (others own : ℕ → ℕ) (p k : ℕ) (user : 0 < own p)
    (room : own p + k + 2 < long_mod) where
  -- The callback of the user may change the state; its parameter is a reference meanwhile.
  pub notify-Balances :
      (f : ℕ → M (Unit {0})) (w : World)
      → Balances view weight others own p (suc k) f
      → Balanced view weight others own p k w
      → Ends (notify uv uncaught fuel f p w) (λ _ w'. Balanced view weight others own p k w')
  unfolding notify
  notify-Balances f w behaves (s, (i, inv, e, st)) = elim (Bool-cases i.body.has_event_cb) [
    | inl set ↦
        rw (e, set)
          (Ends-then _ _ _ _
            (ref-Shows view others own p (weight s + k) s w (omega (arith, light s))
              (i, inv, e, st))
            λ _ w1 h1.
              Ends-then _ _ _ _ (behaves w1 (s, recount view others own p s w1 (omega arith) h1))
                λ _ w2 (s2, h2).
                  Ends-weaken _ _ _
                    (unref-Shows view others own p uv uncaught fuel (weight s2 + k) s2 w2
                      (omega arith) (omega (arith, light s2))
                      (recount view others own p s2 w2 (omega arith) h2))
                    λ _ w3 h3. (s2, h3))
    | inr unset ↦ rw (e, unset) (tt, w, refl, (s, (i, inv, e, st)))
  ]

  -- A callback that leaves the handle alone.
  pub notify-Leaves :
      (f : ℕ → M (Unit {0})) (s : S) (w : World)
      → Leaves view weight others own p f
      → Shows view others own p k s w
      → Ends (notify uv uncaught fuel f p w) (λ _ w'. Shows view others own p k s w')
  unfolding notify
  notify-Leaves f s w quiet (i, inv, e, st) = elim (Bool-cases i.body.has_event_cb) [
    | inl set ↦
        rw (e, set)
          (Ends-then _ _ _ _ (ref-Shows view others own p k s w (omega arith) (i, inv, e, st))
            λ _ w1 h1. Ends-then _ _ _ _ (quiet (suc k) s w1 h1) λ _ w2 h2.
              unref-Shows view others own p uv uncaught fuel k s w2 (omega arith) (omega arith) h2)
    | inr unset ↦ rw (e, unset) (tt, w, refl, (i, inv, e, st))
  ]

-- ===== src/Watch/State.antt =====
-- What `start_as`, `stop_as` and `notify` do to the reference that a started handle holds to itself.
use uvcc.Prelude.{
  ℕ, suc, ◌+◌, ◌<◌, ◌≡◌, refl, subst, inl, inr, Bool, true, arith, if◌then◌else◌, Bool-cases,
}
use uvcc.Prelude.Int.{ℤ, pos, is_negative}
use uvcc.Utility.RefCount.{long_mod}
use uvcc.Runtime.{World, HandleBody, Opcmd, M, LibUv, when, ◌>>◌}
use uvcc.Runtime.Ends.{Ends, Ends-then, Ends-weaken}
use uvcc.Handle.{unref}
use uvcc.Handle.Observed.{Shows, recount, set_status-Shows, update-Shows, ref-Shows, unref-Shows}
use uvcc.Watch.Notify.{Balanced, Balances, Leaves, notify-Balances, notify-Leaves}
use uvcc.Watch.{is_started, set_opcmd, start_result, start_as, stop_as, notify}

abbrev pub opcmd : HandleBody → Opcmd
opcmd b = b.opcmd_state

-- The references that a handle holds to itself while it is started.
abbrev pub held : Opcmd → ℕ
held s = if is_started s then 1 else 0

-- The state behind an attempt to enter the state `s`.
abbrev pub entered : Opcmd → ℤ → Opcmd
entered s r = if is_negative r then Opcmd.unknown else s

module _ (others own : ℕ → ℕ) (p : ℕ) where
  -- The counts are right with `k` references to `p` besides those of `own` and the one that the
  -- state `s` holds.
  abbrev pub Watches : ℕ → Opcmd → World → Type 0
  Watches k s w = Shows opcmd others own p (held s + k) s w

  abbrev pub Watched : ℕ → World → Type 0
  Watched k w = Balanced opcmd held others own p k w

  abbrev pub Behaves : ℕ → (ℕ → M (Unit {0})) → Type 0
  Behaves k f = Balances opcmd held others own p k f

  abbrev pub IsQuiet : {A : Type 0} → (ℕ → M A) → Type 0
  IsQuiet f = Leaves opcmd held others own p f

  pub set_opcmd-Shows :
      (n : ℕ) (s s' : Opcmd) (w : World)
      → Shows opcmd others own p n s w
      → Ends (set_opcmd s' p w) (λ _ w'. Shows opcmd others own p n s' w')
  unfolding set_opcmd
  set_opcmd-Shows n s s' w h =
      update-Shows opcmd others own p (λ b. record b { opcmd_state = s' }) n s s' w (λ b. refl)
        (λ b _. refl) h

module _ (uv : LibUv) (uncaught : Bool) (fuel : ℕ) (others own : ℕ → ℕ) (p k : ℕ) (user : 0 < own p)
    (room : own p + k + 2 < long_mod) where
  -- The release of the reference of the state `s`, if there is one.
  release_started :
      (m : M (Unit {0})) (s s' : Opcmd) (n : ℕ) (w : World)
      → ((w : World)
          → Shows opcmd others own p (suc n) s' w
          → Ends (m w) (λ _ w'. Shows opcmd others own p n s' w'))
      → Shows opcmd others own p (held s + n) s' w
      → Ends (when (is_started s) m w) (λ _ w'. Shows opcmd others own p n s' w')
  release_started m s s' n w release h = elim (Bool-cases (is_started s)) [
    | inl is ↦ rw is (release w (recount opcmd others own p s' w (ground (arith, is)) h))
    | inr not ↦ rw not (tt, w, refl, recount opcmd others own p s' w (ground (arith, not)) h)
  ]

  start_result_lem :
      (s : Opcmd) (w : World) (r : ℤ)
      → is_started s ≡ true
      → Shows opcmd others own p (suc k) s w
      → Ends
          (start_result uv uncaught fuel p r w)
          (λ a w'. (a ≡ r) × Watches others own p k (entered s a) w')
  unfolding start_result
  start_result_lem s w r is h = elim (Bool-cases (is_negative r)) [
    | inl neg ↦ rw neg (
        Ends-then _ _ _ _ (set_status-Shows opcmd others own p (suc k) s w r h) λ _ w1 (_, h1).
          Ends-then _ _ _ _ (set_opcmd-Shows others own p (suc k) s Opcmd.unknown w1 h1) λ _ w2 h2.
            Ends-then _ _ _ _
              (unref-Shows opcmd others own p uv uncaught fuel k Opcmd.unknown w2 (omega arith)
                (omega arith) h2)
              λ _ w3 h3. (
                r,
                w3,
                refl,
                (
                  refl,
                  subst (λ s. Watches others own p k s w3) (ground (arith, neg))
                      (recount opcmd others own p Opcmd.unknown w3 (ground arith) h3),
                ),
              ))
    | inr nonneg ↦ rw nonneg (
      r,
      w,
      refl,
      (
        refl,
        subst (λ s. Watches others own p k s w) (ground (arith, nonneg))
            (recount opcmd others own p s w (ground (arith, is)) h),
      ),
    )
  ]

  -- `start()` from any state: the handle holds one reference to itself if libuv has started it, and
  -- none otherwise.
  pub start_as_lem :
      (again : ℕ → M (Unit {0})) (go : ℕ → M ℤ) (s s' : Opcmd) (w : World)
      → IsQuiet others own p again
      → IsQuiet others own p go
      → is_started s' ≡ true
      → Watches others own p k s w
      → Ends
          (start_as uv uncaught fuel again go s' p w)
          (λ a w'. Watches others own p k (entered s' a) w')
  unfolding start_as
  start_as_lem again go s s' w quiet quiet' is (i, inv, e, st) =
      rw (e, st)
        (Ends-then _ _ _ _ (set_opcmd-Shows others own p (held s + k) s s' w (i, inv, e, st))
          λ _ w1 h1.
            Ends-then _ _ _ _ (ref-Shows opcmd others own p (held s + k) s' w1 (ground arith) h1)
              λ _ w2 h2.
                Ends-then _ _ _ _
                  (release_started (again p >> unref uv uncaught fuel p) s s' (suc k) w2
                    (λ w h. Ends-then _ _ _ _ (quiet (suc (suc k)) s' w h) λ _ w' h'.
                      unref-Shows opcmd others own p uv uncaught fuel (suc k) s' w' (omega arith)
                        (omega arith) h')
                    (recount opcmd others own p s' w2 (omega arith) h2))
                  λ _ w3 h3.
                    Ends-then _ _ _ _ (set_status-Shows opcmd others own p (suc k) s' w3 (pos 0) h3)
                      λ _ w4 (_, h4). Ends-then _ _ _ _ (quiet' (suc k) s' w4 h4) λ r w5 h5.
                        Ends-weaken _ _ _ (start_result_lem s' w5 r is h5) λ a w6 (_, h6). h6)

  -- `stop()` from any state: the handle holds no reference to itself.
  pub stop_as_lem :
      (halt : ℕ → M ℤ) (s : Opcmd) (w : World)
      → IsQuiet others own p halt
      → Watches others own p k s w
      → Ends (stop_as uv uncaught fuel halt p w) (λ _ w'. Watches others own p k Opcmd.stop w')
  unfolding stop_as
  stop_as_lem halt s w quiet (i, inv, e, st) =
      rw (e, st)
        (Ends-then _ _ _ _
          (set_opcmd-Shows others own p (held s + k) s Opcmd.stop w (i, inv, e, st))
          λ _ w1 h1. Ends-then _ _ _ _ (quiet (held s + k) Opcmd.stop w1 h1) λ r w2 h2.
            Ends-then _ _ _ _ (set_status-Shows opcmd others own p (held s + k) Opcmd.stop w2 r h2)
              λ ret w3 (_, h3).
                Ends-then _ _ _ _
                  (release_started (unref uv uncaught fuel p) s Opcmd.stop k w3
                    (λ w h.
                      unref-Shows opcmd others own p uv uncaught fuel k Opcmd.stop w (omega arith)
                        (omega arith) h)
                    h3)
                  λ _ w4 h4.
                    (ret, w4, refl, recount opcmd others own p Opcmd.stop w4 (ground arith) h4))

  pub notify_lem :
      (f : ℕ → M (Unit {0})) (w : World)
      → Behaves others own p (suc k) f
      → Watched others own p k w
      → Ends (notify uv uncaught fuel f p w) (λ _ w'. Watched others own p k w')
  notify_lem f w behaves h =
      notify-Balances opcmd held (λ s. ground arith) uv uncaught fuel others own p k user room f w
        behaves h

  pub notify_quiet :
      (f : ℕ → M (Unit {0})) (s : Opcmd) (w : World)
      → IsQuiet others own p f
      → Shows opcmd others own p k s w
      → Ends (notify uv uncaught fuel f p w) (λ _ w'. Shows opcmd others own p k s w')
  notify_quiet f s w quiet h =
      notify-Leaves opcmd held (λ s. ground arith) uv uncaught fuel others own p k user room f s w
        quiet h

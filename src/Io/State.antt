-- ===== src/Io/State.antt =====
-- What the steps of a reading command do to the counts and to the state of one handle.
use uvcc.Prelude.{ℕ, suc, ◌+◌, ◌<◌, ◌≡◌, refl, subst, Bool, some, arith}
use uvcc.Prelude.Int.{ℤ}
use uvcc.Utility.RefCount.{long_mod}
use uvcc.Runtime.{World, put, Instance, HandleBody, Rdcmd, LibUv, Call, call}
use uvcc.Runtime.Ends.{Ends, Ends-weaken}
use uvcc.Handle.{set_status, ref, unref}
use uvcc.Handle.Counted.{Inv}
use uvcc.Handle.Observed.{
  extra, Shows, store-Shows, set_status-Shows, call-Shows, ref-Shows, unref-Shows,
}
use uvcc.Io.{set_state, set_rdsize, set_rdoffset, unlock}

abbrev pub rdcmd : HandleBody → Rdcmd
rdcmd b = b.rdcmd_state

module _ (others own : ℕ → ℕ) (p : ℕ) where
  -- The counts are right with `n` references to `p` besides those of `own`, and `p` is in the state
  -- `s` of reading.
  abbrev pub State : ℕ → Rdcmd → World → Type 0
  State n s w = Shows rdcmd others own p n s w

  pub store-State :
      (n : ℕ) (w : World) (i i' : Instance HandleBody)
      → Inv others w (extra own p n)
      → w.handles p ≡ some i
      → i'.refs ≡ i.refs
      → i'.body.loop_instance_ptr ≡ i.body.loop_instance_ptr
      → State n i'.body.rdcmd_state (record w { handles = put w.handles p (some i') })
  store-State n w i i' inv e same booked =
      store-Shows rdcmd others own p n i'.body.rdcmd_state w i i' inv e same booked refl

  pub set_status_lem :
      (n : ℕ) (s : Rdcmd) (w : World) (r : ℤ)
      → State n s w
      → Ends (set_status p r w) (λ a w'. (a ≡ r) × State n s w')
  set_status_lem n s w r h = set_status-Shows rdcmd others own p n s w r h

  pub set_state_lem :
      (n : ℕ) (s s' : Rdcmd) (w : World)
      → State n s w
      → Ends (set_state p s' w) (λ _ w'. State n s' w')
  unfolding set_state
  set_state_lem n s s' w (i, inv, e, st) =
      let i' = record i { body = record i.body { rdcmd_state = s' } } in
      (
        tt,
        record w { handles = put w.handles p (some i') },
        ground (arith, e),
        store-State n w i i' inv e refl refl,
      )

  pub set_rdsize_lem :
      (n : ℕ) (s : Rdcmd) (w : World) (size : ℕ)
      → State n s w
      → Ends (set_rdsize p size w) (λ _ w'. State n s w')
  unfolding set_rdsize
  set_rdsize_lem n s w size (i, inv, e, st) =
      let i' = record i { body = record i.body { rdsize = size } } in
      (
        tt,
        record w { handles = put w.handles p (some i') },
        ground (arith, e),
        subst (λ s. State n s (record w { handles = put w.handles p (some i') })) st
            (store-State n w i i' inv e refl refl),
      )

  pub set_rdoffset_lem :
      (n : ℕ) (s : Rdcmd) (w : World) (offset : ℤ)
      → State n s w
      → Ends (set_rdoffset p offset w) (λ _ w'. State n s w')
  unfolding set_rdoffset
  set_rdoffset_lem n s w offset (i, inv, e, st) =
      let i' = record i { body = record i.body { rdoffset = offset } } in
      (
        tt,
        record w { handles = put w.handles p (some i') },
        ground (arith, e),
        subst (λ s. State n s (record w { handles = put w.handles p (some i') })) st
            (store-State n w i i' inv e refl refl),
      )

  pub call_lem :
      (n : ℕ) (s : Rdcmd) (w : World) (uv : LibUv) (c : Call)
      → State n s w
      → Ends (call uv c w) (λ _ w'. State n s w')
  call_lem n s w uv c h =
      Ends-weaken _ _ _ (call-Shows rdcmd others own p n s w uv c h) λ a w' (_, h'). h'

  pub unlock_lem :
      (n : ℕ) (s : Rdcmd) (w : World) (r : ℤ)
      → State n s w
      → Ends (unlock p r w) (λ a w'. (a ≡ r) × State n s w')
  unfolding unlock
  unlock_lem n s w r (i, inv, e, st) = (r, w, ground (arith, e), (refl, (i, inv, e, st)))

  pub ref_lem :
      (n : ℕ) (s : Rdcmd) (w : World)
      → own p + n + 1 < long_mod
      → State n s w
      → Ends (ref p w) (λ _ w'. State (suc n) s w')
  ref_lem n s w room h = ref-Shows rdcmd others own p n s w room h

  pub release_lem :
      (uv : LibUv) (uncaught : Bool) (fuel n : ℕ) (s : Rdcmd) (w : World)
      → 0 < own p + n
      → own p + suc n < long_mod
      → State (suc n) s w
      → Ends (unref uv uncaught fuel p w) (λ _ w'. State n s w')
  release_lem uv uncaught fuel n s w held room h =
      unref-Shows rdcmd others own p uv uncaught fuel n s w held room h

  pub unref_lem :
      (uv : LibUv) (uncaught : Bool) (fuel n : ℕ) (s : Rdcmd) (w : World)
      → 0 < own p
      → own p + suc n < long_mod
      → State (suc n) s w
      → Ends (unref uv uncaught fuel p w) (λ _ w'. State n s w')
  unref_lem uv uncaught fuel n s w held room h =
      release_lem uv uncaught fuel n s w (omega arith) room h

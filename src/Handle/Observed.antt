-- ===== src/Handle/Observed.antt =====
-- What the steps of a command on one handle do to the counts and to what its instance shows of its
-- state: the commands of handle-io.hpp, handle-misc.hpp and handle-fs.hpp are made of these steps.
use uvcc.Prelude.{
  ℕ, suc, ◌+◌, ◌-◌, ◌<◌, ◌≡◌, refl, subst, fun_ext, Bool, List, none, some, arith, ◌==◌,
  if◌then◌else◌, ◌∷◌,
}
use uvcc.Prelude.Int.{ℤ}
use uvcc.Utility.RefCount.{long_mod}
use uvcc.Runtime.{World, put, Instance, HandleBody, LibUv, Call, Event, called, call}
use uvcc.Runtime.Ends.{Ends}
use uvcc.Handle.{set_status, update, ref, unref}
use uvcc.Handle.Counted.{Inv, modify-Inv, trace-Inv}
use uvcc.Handle.Lifetime.{ref_ok, unref_more, handle_unref_last}
use uvcc.Loop.Lifetime.{ClosesAll}
use uvcc.Runtime.Counts.{lose}

-- `n` references to the handle `p` besides those of `own`.
abbrev pub extra : (ℕ → ℕ) → ℕ → ℕ → ℕ → ℕ
extra own p n q = if q == p then own q + n else own q

module _ {S : Type 0} (view : HandleBody → S) (others own : ℕ → ℕ) (p : ℕ) where
  -- The counts are right with `n` references to `p` besides those of `own`, and `p` shows `s`.
  abbrev pub Shows : ℕ → S → World → Type 0
  Shows n s w =
      (i : Instance HandleBody) × Inv others w (extra own p n)
      × (w.handles p ≡ some i)
      × (view i.body ≡ s)

  -- The number of references written in another way.
  pub recount : {m n : ℕ} (s : S) (w : World) → m ≡ n → Shows m s w → Shows n s w
  recount s w e h = subst (λ n. Shows n s w) e h

  pub store-Shows :
      (n : ℕ) (s : S) (w : World) (i i' : Instance HandleBody)
      → Inv others w (extra own p n)
      → w.handles p ≡ some i
      → i'.refs ≡ i.refs
      → i'.body.loop_instance_ptr ≡ i.body.loop_instance_ptr
      → view i'.body ≡ s
      → Shows n s (record w { handles = put w.handles p (some i') })
  store-Shows n s w i i' inv e same booked shows =
      (i', modify-Inv others w (extra own p n) p i i' inv e same booked, ground arith, shows)

  pub set_status-Shows :
      (n : ℕ) (s : S) (w : World) (r : ℤ)
      → Shows n s w
      → Ends (set_status p r w) (λ a w'. (a ≡ r) × Shows n s w')
  unfolding set_status
  set_status-Shows n s w r (i, inv, e, st) =
      let i' = record i { uv_error = r } in
      (
        r,
        record w { handles = put w.handles p (some i') },
        ground (arith, e),
        (refl, store-Shows n s w i i' inv e refl refl st),
      )

  pub update-Shows :
      (f : HandleBody → HandleBody) (n : ℕ) (s s' : S) (w : World)
      → ((b : HandleBody) → (f b).loop_instance_ptr ≡ b.loop_instance_ptr)
      → ((b : HandleBody) → view b ≡ s → view (f b) ≡ s')
      → Shows n s w
      → Ends (update f p w) (λ _ w'. Shows n s' w')
  unfolding update
  update-Shows f n s s' w booked shows (i, inv, e, st) =
      let i' = record i { body = f i.body } in
      (
        tt,
        record w { handles = put w.handles p (some i') },
        ground (arith, e),
        store-Shows n s' w i i' inv e refl (booked i.body) (shows i.body st),
      )

  pub trace-Shows :
      (n : ℕ) (s : S) (w : World) (t : List Event)
      → Shows n s w
      → Shows n s (record w { trace = t })
  trace-Shows n s w t (i, inv, e, st) = (i, trace-Inv others w (extra own p n) t inv, e, st)

  pub call-Shows :
      (n : ℕ) (s : S) (w : World) (uv : LibUv) (c : Call)
      → Shows n s w
      → Ends (call uv c w) (λ a w'. (a ≡ uv w.trace c) × Shows n s w')
  call-Shows n s w uv c h =
      (_, _, refl, (refl, trace-Shows n s w (called c (uv w.trace c) ∷ w.trace) h))

  pub ref-Shows :
      (n : ℕ) (s : S) (w : World)
      → own p + n + 1 < long_mod
      → Shows n s w
      → Ends (ref p w) (λ _ w'. Shows (suc n) s w')
  ref-Shows n s w room (i, inv, e, st) =
      let (r, inv') = ref_ok others w (extra own p n) p i inv e (ground arith) in
      (
        tt,
        _,
        r,
        (
          record i { refs = extra own p n p + 1 },
          subst (Inv others _) (fun_ext λ q. ground arith) inv',
          ground arith,
          st,
        ),
      )

  pub unref-Shows :
      (uv : LibUv) (uncaught : Bool) (fuel n : ℕ) (s : S) (w : World)
      → 0 < own p + n
      → own p + suc n < long_mod
      → Shows (suc n) s w
      → Ends (unref uv uncaught fuel p w) (λ _ w'. Shows n s w')
  unref-Shows uv uncaught fuel n s w held room (i, inv, e, st) =
      let (r, inv') =
        unref_more others uv uncaught fuel w (extra own p (suc n)) p i inv e (ground arith)
          (ground arith) in
      (
        tt,
        _,
        r,
        (
          record i { refs = extra own p (suc n) p - 1 },
          subst (Inv others _) (fun_ext λ q. ground arith) inv',
          ground arith,
          st,
        ),
      )

  -- The release of the last reference deletes the instance.
  pub unref_deletes :
      (uv : LibUv) (uncaught : Bool) (fuel : ℕ) (s : S) (w : World)
      → ClosesAll uv
      → own p ≡ 1
      → Shows 0 s w
      → Ends
          (unref uv uncaught fuel p w)
          (λ _ w'. (w'.handles p ≡ none) × Inv others w' (lose own p))
  unref_deletes uv uncaught fuel s w shut only (i, inv, e, st) =
      let (w', r, (inv', gone, _, _)) =
        handle_unref_last others uv uncaught fuel shut w (extra own p 0) p i inv e
          (ground (arith, only)) in
      (tt, w', r, (gone, subst (Inv others w') (fun_ext λ q. ground arith) inv'))

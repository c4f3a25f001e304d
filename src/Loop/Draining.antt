-- ===== src/Loop/Draining.antt =====
-- The last reference to a loop that libuv does not close at once, as when its handles have just been
-- closed.
use uvcc.Prelude.{
  ℕ, ◌<◌, ◌≡◌, Bool, true, false, inl, inr, none, some, ◌∷◌, refl, arith, Bool-cases,
}
use uvcc.Prelude.Int.{is_zero}
use uvcc.Runtime.{World, ok, put, Instance, LoopBody, LibUv, deleted_loop, uv_walk_open_handles}
use uvcc.Runtime.Counts.{SameRest, lose, dec_ref-last}
use uvcc.Loop.Closing.{DrainsIn, drained, asked_close, asked_walk, closes, destruct_instance-total}
use uvcc.Loop.Lifetime.{Inv, destroyed}
use uvcc.Loop.{unref, dec, destroy, destruct_instance}

module _ (uv : LibUv) (uncaught : Bool) (fuel n p : ℕ) where
  destruct_instance-drained :
      (w : World)
      → closes uv p w.trace ≡ false
      → is_zero (uv (asked_close uv p w.trace) (uv_walk_open_handles p)) ≡ true
      → DrainsIn uv p n (asked_walk uv p (asked_close uv p w.trace))
      → n < fuel
      → closes uv p (drained uv p n (asked_walk uv p (asked_close uv p w.trace))) ≡ true
      → destruct_instance uv uncaught fuel p w
        ≡ ok tt (record w {
          trace = asked_close uv p (drained uv p n (asked_walk uv p (asked_close uv p w.trace)));
        })
  destruct_instance-drained w busy closing drains enough shut =
      rw (destruct_instance-total uv p uncaught fuel n w drains enough, busy, closing, shut) refl

  -- The callback for the destruction, the destructor, and the storage given back.
  destroy_lem :
      (w w' : World) (i : Instance LoopBody)
      → w.loops p ≡ some i
      → destruct_instance uv uncaught fuel p
          (record w { trace = destroyed uv uncaught fuel i p w.trace })
        ≡ ok tt w'
      → destroy uv uncaught fuel p w
        ≡ ok tt (record w' { loops = put w'.loops p none; trace = deleted_loop p ∷ w'.trace })
  unfolding destroy
  destroy_lem w w' i e d = elim (Bool-cases i.has_destroy_cb) [
    | inl set ↦ let d' = rw set at d in rw (e, set, d') refl
    | inr unset ↦ let d' = rw unset at d in rw (e, unset, d') refl
  ]

  -- The release of the last reference to a loop that libuv refuses to close at first, with no handles
  -- that are not closing, runs to its end whether or not an exception is in flight, and these are the
  -- events, in this order: the callback for the destruction, where one is set; the refused attempt;
  -- the count of the open handles; non-blocking runs of the loop until one answers 0; the second
  -- attempt; the deletion of the instance. The counts stay right, and no handle, request or buffer
  -- changes. It is given that the run behind `n` others is the first to answer 0, that the bound on
  -- the runs is above `n`, and that libuv closes the loop then.
  pub unref_last-drained :
      (w : World) (own : ℕ → ℕ) (i : Instance LoopBody)
      → Inv w own
      → w.loops p ≡ some i
      → own p ≡ 1
      → let t = destroyed uv uncaught fuel i p w.trace in
        let t1 = asked_walk uv p (asked_close uv p t) in
        closes uv p t ≡ false
        → is_zero (uv (asked_close uv p t) (uv_walk_open_handles p)) ≡ true
        → DrainsIn uv p n t1
        → n < fuel
        → closes uv p (drained uv p n t1) ≡ true
        → (w' : World) × (unref uv uncaught fuel p w ≡ ok tt w')
          × Inv w' (lose own p)
          × (w'.loops p ≡ none)
          × (w'.trace ≡ deleted_loop p ∷ asked_close uv p (drained uv p n t1))
          × (w'.handles ≡ w.handles)
          × SameRest w w'
  unfolding unref dec
  unref_last-drained w own i inv e last busy closing drains enough shut =
      let (r, c) = dec_ref-last w.loops own p i inv e last in
      let h = put w.loops p (some (record i { refs = 0 })) in
      let t = destroyed uv uncaught fuel i p w.trace in
      let t1 = asked_walk uv p (asked_close uv p t) in
      let d =
        destruct_instance-drained (record w { loops = h; trace = t }) busy closing drains enough
          shut in
      (
        record w {
          loops = put h p none;
          trace = deleted_loop p ∷ asked_close uv p (drained uv p n t1);
        },
        rw (r, destroy_lem (record w { loops = h }) _ (record i { refs = 0 }) (ground arith) d)
            refl,
        c,
        ground arith,
        refl,
        refl,
        (refl, refl),
      )

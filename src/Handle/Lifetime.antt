-- ===== src/Handle/Lifetime.antt =====
-- A handle's instance lives as long as a reference to it, and its loop at least as long.
use uvcc.Prelude.{
  length, ℕ, ◌+◌, ◌-◌, ◌<◌, ◌≡◌, ◌≢◌, refl, subst, List, Bool, false, some, arith, ◌==◌, ℕ_discrete,
  ap, ◌∙◌, ◌∷◌,
}
use uvcc.Utility.RefCount.{long_mod}
use uvcc.Runtime.{World, ok, put, Instance, HandleBody, LoopBody, LibUv, Event, deleted_handle}
use uvcc.Runtime.Counts.{
  SameRest, Counted-live, gain, lose, inc_ref-Counted, dec_ref-Counted, dec_ref-last,
}
use uvcc.References.Steps.{Counting, Keeps}
use uvcc.References.Programs.{run-Keeps}
use uvcc.References.Places.{referring}
use uvcc.References.{Operation, run}
use uvcc.Loop.Lifetime.{ClosesAll}
use uvcc.Handle.Bookings.{loop_of, bookings, bookings-pos}
use uvcc.Handle.Counted.{IsCounted, Inv, put-listed, put-booked, put-small, put-IsCounted}
use uvcc.Handle.Closing.{
  closing, close_lem, Deleted, delete_lem, LetsGo, closing-LetsGo, spared-LetsGo,
}
use uvcc.Handle.{ref, dec, delete, unref}

module _ (others : ℕ → ℕ) where
  pub ref_ok :
      (w : World) (own : ℕ → ℕ) (p : ℕ) (i : Instance HandleBody)
      → Inv others w own
      → w.handles p ≡ some i
      → own p + 1 < long_mod
      → let w' = record w { handles = put w.handles p (some (record i { refs = own p + 1 })) } in
        (ref p w ≡ ok tt w') × Inv others w' (gain own p)
  unfolding ref
  ref_ok w own p i (hs, inv) e room =
      let (r, c) = inc_ref-Counted w.handles own p i inv.counted e room in
      (
        rw r,
        (
          hs,
          put-IsCounted others w own p i (record i { refs = own p + 1 }) hs inv e refl (gain own p)
              c,
        ),
      )

  -- A loop that a live handle has booked is alive.
  booked-alive :
      (w : World) (own : ℕ → ℕ) (p : ℕ) (i : Instance HandleBody)
      → Inv others w own
      → w.handles p ≡ some i
      → i.body.loop_instance_ptr ≢ 0
      → (j : Instance LoopBody) × (w.loops i.body.loop_instance_ptr ≡ some j)
  booked-alive w own p i (hs, inv) e nz =
      let some_booking : 0 < bookings w.handles hs i.body.loop_instance_ptr =
        subst (λ l. 0 < bookings w.handles hs l) (ap loop_of e)
          (bookings-pos w.handles p hs (ground (arith, inv.listed p))) in
      let (j, live, _) =
        Counted-live w.loops (λ l. others l + bookings w.handles hs l) i.body.loop_instance_ptr
          inv.booked (omega arith) in
      (j, live)

  module _ (uv : LibUv) (uncaught : Bool) (fuel : ℕ) where
    -- The release of a reference that is not the last changes the count of that instance alone.
    pub unref_more :
        (w : World) (own : ℕ → ℕ) (p : ℕ) (i : Instance HandleBody)
        → Inv others w own
        → w.handles p ≡ some i
        → own p < long_mod
        → 1 < own p
        → let w' = record w { handles = put w.handles p (some (record i { refs = own p - 1 })) } in
          (unref uv uncaught fuel p w ≡ ok tt w') × Inv others w' (lose own p)
    unfolding unref dec
    unref_more w own p i (hs, inv) e room more =
        let (r, c) = dec_ref-Counted w.handles own p i inv.counted e room more in
        let left : (own p - 1 == 0) ≡ false = ground arith in
        (
          rw (r, left),
          (
            hs,
            put-IsCounted others w own p i (record i { refs = own p - 1 }) hs inv e refl
                (lose own p) c,
          ),
        )

    -- With the last reference the instance is deleted behind its closing.
    pub unref-closing :
        (w : World) (own : ℕ → ℕ) (p : ℕ) (i : Instance HandleBody)
        → Inv others w own
        → w.handles p ≡ some i
        → own p ≡ 1
        → let i0 = record i { refs = 0 } in
          unref uv uncaught fuel p w
          ≡ delete uv uncaught fuel p (record w {
            handles = put w.handles p (some i0);
            trace = closing others uv uncaught fuel i0 p w.trace;
          })
    unfolding unref dec
    unref-closing w own p i (hs, inv) e last =
        let i0 = record i { refs = 0 } in
        rw ((dec_ref-last w.handles own p i inv.counted e last).0) (
          close_lem others uv uncaught fuel (record w { handles = put w.handles p (some i0) }) p i0
            (ground arith))

    -- What the release of the last reference leaves, `P` holding of what happened before the deletion.
    last_lem :
        (P : List Event → Type 0) (w : World) (own : ℕ → ℕ) (p : ℕ) (i : Instance HandleBody)
        (hs : List ℕ) (inv : IsCounted others w own hs) (e : w.handles p ≡ some i)
        (last : own p ≡ 1)
        → let i0 = record i { refs = 0 } in
          let h0 = put w.handles p (some i0) in
          let w0 : World = record w {
            handles = h0;
            trace = closing others uv uncaught fuel i0 p w.trace;
          } in
          P w0.trace
          → (i.body.loop_instance_ptr ≢ 0
              → LetsGo others uv uncaught fuel P w0
                  (λ l. others l + bookings h0 hs l)
                  i.body.loop_instance_ptr)
          → (w' : World) × (unref uv uncaught fuel p w ≡ ok tt w')
            × Deleted others uv uncaught fuel w p own w'
            × (t : List Event) × (w'.trace ≡ deleted_handle p ∷ t)
            × P t
    last_lem P w own p i hs inv e last here lets_go =
        let i0 = record i { refs = 0 } in
        let h0 = put w.handles p (some i0) in
        let (r, c) = dec_ref-last w.handles own p i inv.counted e last in
        let (w', r', d, t, ends, holds) =
          delete_lem others uv uncaught fuel P
            (record w { handles = h0; trace = closing others uv uncaught fuel i0 p w.trace }) own p
            i0 hs (ground arith) c (put-listed others w own p i i0 hs inv e refl)
            (put-booked others w own p i i0 hs inv e refl)
            (put-small others w own p i i0 hs inv e refl) here lets_go in
        (
          w',
          unref-closing w own p i (hs, inv) e last ∙ r',
          (d.0, d.1, λ q ne. ground (arith, d.2 q ne), d.3),
          t,
          ends,
          holds,
        )

    -- The release of the last reference where libuv closes every loop that is given up.
    pub handle_unref_last :
        ClosesAll uv
        → (w : World) (own : ℕ → ℕ) (p : ℕ) (i : Instance HandleBody) → Inv others w own
        → w.handles p ≡ some i
        → own p ≡ 1
        → (w' : World) × (unref uv uncaught fuel p w ≡ ok tt w')
          × Deleted others uv uncaught fuel w p own w'
    handle_unref_last shut w own p i (hs, inv) e last =
        let i0 = record i { refs = 0 } in
        let (w', r, d, _, _, _) =
          last_lem (λ t. Unit {0}) w own p i hs inv e last tt
            λ nz.
              closing-LetsGo others uv uncaught fuel shut _ p i0 hs (ground arith)
                (put-listed others w own p i i0 hs inv e refl)
                (put-booked others w own p i i0 hs inv e refl)
                (put-small others w own p i i0 hs inv e refl) nz in
        (w', r, d)

    -- The release of the last reference to a handle runs to its end, and these are the events, in this
    -- order: libuv is asked to close the handle, if it knows it, or the file system to close the
    -- descriptor, if the handle is a file and the descriptor is not negative; the callback for the
    -- destruction is called, where one is set; the request of a file is cleaned up; the instance is
    -- deleted. Its booking of a loop is given up, no other handle changes, and the counts stay right.
    -- It is given that the loop that the handle has booked is referred to by another than handles, as
    -- by a variable.
    pub unref_last-closes :
        (w : World) (own : ℕ → ℕ) (p : ℕ) (i : Instance HandleBody)
        → Inv others w own
        → w.handles p ≡ some i
        → own p ≡ 1
        → (i.body.loop_instance_ptr ≢ 0 → 0 < others i.body.loop_instance_ptr)
        → (w' : World) × (unref uv uncaught fuel p w ≡ ok tt w')
          × Deleted others uv uncaught fuel w p own w'
          × (w'.trace ≡ deleted_handle p ∷ closing others uv uncaught fuel i p w.trace)
    unref_last-closes w own p i (hs, inv) e last spared =
        let i0 = record i { refs = 0 } in
        let (w', r, d, t, ends, same) =
          last_lem (λ t. t ≡ closing others uv uncaught fuel i0 p w.trace) w own p i hs inv e last
            refl
            λ nz.
              spared-LetsGo others uv uncaught fuel _ p i0 hs (ground arith)
                (put-listed others w own p i i0 hs inv e refl)
                (put-booked others w own p i i0 hs inv e refl)
                (put-small others w own p i i0 hs inv e refl) nz (spared nz) in
        (w', r, d, ends ∙ ap (λ t. deleted_handle p ∷ t) same)

    pub handle_unref_law :
        ClosesAll uv
        → (w : World) (own : ℕ → ℕ) (p : ℕ) → Inv others w own
        → 0 < own p
        → own p < long_mod
        → (w' : World) × (unref uv uncaught fuel p w ≡ ok tt w')
          × Inv others w' (lose own p)
          × SameRest w w'
    handle_unref_law shut w own p inv pos room =
        let (i, e, n) = Counted-live w.handles own p inv.1.counted pos in
        elim (ℕ_discrete (own p) 1) [
          | yes last ↦
              let (w', r, d) = handle_unref_last shut w own p i inv e last in (w', r, d.0, d.3)
          | no more ↦
              let (r, inv') = unref_more w own p i inv e room (omega arith) in
              (_, r, inv', (refl, refl))
        ]

    -- Handles keep the laws of counted references, if libuv closes every loop that is given up.
    pub Handle-Counting : ClosesAll uv → Counting ref (unref uv uncaught fuel) (Inv others)
    Handle-Counting shut = record {
      ref_law = λ w own p inv pos room.
          let (i, e, n) = Counted-live w.handles own p inv.1.counted pos in
          let (r, inv') = ref_ok w own p i inv e room in (_, r, inv');
      unref_law = λ w own p inv pos room.
          let (w', r, inv', _) = handle_unref_law shut w own p inv pos room in (w', r, inv');
    }

    -- From handle variables that the counts agree with, any sequence of copies, moves, assignments,
    -- swaps and destructions runs to its end with no use of a deleted handle or loop and no
    -- exception, and the counts of the handles and of the loops that they book agree with the
    -- variables and bookings again, if libuv closes every loop that is given up and the variables
    -- are fewer than 2^64.
    pub handle-programs :
        (shut : ClosesAll uv) (ops : List Operation) (w : World) (vars : List ℕ)
        → Inv others w (referring vars)
        → length vars + length ops < long_mod
        → Keeps
            (Handle-Counting shut)
            (length vars + length ops)
            (run ref (unref uv uncaught fuel) ops vars w)
    handle-programs shut ops w vars inv room = run-Keeps (Handle-Counting shut) ops w vars inv room

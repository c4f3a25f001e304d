-- ===== src/Handle/Closing.antt =====
-- What closing a handle does.
use uvcc.Prelude.{
  refl, ℕ, ◌+◌, ◌<◌, ◌≡◌, ◌≢◌, subst, fun_ext, List, ◌∷◌, Bool, none, some, arith, ◌==◌,
  if◌then◌else◌, ℕ_discrete, ap, ◌∙◌,
}
use uvcc.Prelude.Int.{is_negative}
use uvcc.Utility.RefCount.{long_mod}
use uvcc.Runtime.{
  World, ok, put, Instance, HandleBody, LibUv, Event, called, uv_close, uv_fs_close,
  uv_fs_req_cleanup, on_handle_destroy, deleted_handle,
}
use uvcc.Runtime.Counts.{Counted-live, SameRest, Counted, lose}
use uvcc.References.Places.{count}
use uvcc.Loop
use uvcc.Loop.Lifetime.{ClosesAll, unref_law as loop_unref_law, unref_more as loop_unref_more}
use uvcc.Handle.Bookings.{
  loop_of, bookings, remove, count-remove, bookings-put, bookings-remove, bookings-pos,
}
use uvcc.Handle.Counted.{Inv}
use uvcc.Handle.{is_unknown, is_file, unbook_loop, delete, close_cb, close_handle, close_fs, close}

module _ (others : ℕ → ℕ) where
  module _ (uv : LibUv) (uncaught : Bool) (fuel : ℕ) where
    -- The trace when the instance is about to be deleted: libuv closes the handle, if it knows it,
    -- and the callback that is set is called; a file is closed first and cleaned up last.
    abbrev pub closing : Instance HandleBody → ℕ → List Event → List Event
    closing i p t =
        let destroyed =
          λ (s : List Event). if i.has_destroy_cb then on_handle_destroy p ∷ s else s in
        if is_file i.body.type
        then (let c = uv_fs_close i.body.result in
            let s = destroyed (if is_negative i.body.result then t else called c (uv t c) ∷ t) in
            called (uv_fs_req_cleanup p) (uv s (uv_fs_req_cleanup p)) ∷ s)
        else destroyed
            (if is_unknown i.body.type then t else called (uv_close p) (uv t (uv_close p)) ∷ t)

    pub close_lem :
        (w : World) (p : ℕ) (i : Instance HandleBody)
        → w.handles p ≡ some i
        → close uv uncaught fuel p w
          ≡ delete uv uncaught fuel p (record w { trace = closing i p w.trace })
    unfolding close close_handle close_fs close_cb
    close_lem w p i e = ground arith

    -- The state behind the closing of the handle `p` is as before it but for the counts and bookings
    -- that go with the handle.
    abbrev pub Deleted : World → ℕ → (ℕ → ℕ) → World → Type 0
    Deleted w p own w' =
        Inv others w' (lose own p)
        × (w'.handles p ≡ none)
        × ((q : ℕ) → q ≢ p → w'.handles q ≡ w.handles q)
        × SameRest w w'

    delete-free :
        (w : World) (own : ℕ → ℕ) (p : ℕ) (i : Instance HandleBody) (hs : List ℕ)
        → w.handles p ≡ some i
        → i.body.loop_instance_ptr ≡ 0
        → Counted (put w.handles p none) (lose own p)
        → ((q : ℕ) → count q hs ≡ (if loop_of (w.handles q) == 0 then 0 else 1))
        → Counted w.loops (λ l. others l + bookings w.handles hs l)
        → ((l : ℕ) → others l + bookings w.handles hs l < long_mod)
        → (w' : World) × (delete uv uncaught fuel p w ≡ ok tt w')
          × Deleted w p own w'
          × (w'.trace ≡ deleted_handle p ∷ w.trace)
    unfolding delete unbook_loop
    delete-free w own p i hs e z c listed booked small = (
      record w { handles = put w.handles p none; trace = deleted_handle p ∷ w.trace },
      ground arith,
      (
        (
          hs,
          record {
            counted = c;
            listed = λ q. ground (arith, listed q);
            booked =
                subst (Counted w.loops)
                  (fun_ext λ l. ground (arith, bookings-put w.handles p none hs l (ground arith)))
                  booked;
            small = λ l. omega (arith, small l, bookings-put w.handles p none hs l (ground arith));
          },
        ),
        ground arith,
        λ q ne. ground arith,
        (refl, refl),
      ),
      refl,
    )

    -- With the loop let go of, the instance is deleted.
    delete-run :
        (w w' : World) (p : ℕ) (i : Instance HandleBody)
        → w.handles p ≡ some i
        → i.body.loop_instance_ptr ≢ 0
        → Loop.unref uv uncaught fuel i.body.loop_instance_ptr w ≡ ok tt w'
        → w'.handles ≡ w.handles
        → delete uv uncaught fuel p w
          ≡ ok tt
              (record w' { handles = put w.handles p none; trace = deleted_handle p ∷ w'.trace })
    unfolding delete unbook_loop
    delete-run w w' p i e nz r same =
        let cleared = record i { body = record i.body { loop_instance_ptr = 0 } } in
        let run : delete uv uncaught fuel p w
            ≡ ok tt (record w' {
              handles = put (put w'.handles p (some cleared)) p none;
              trace = deleted_handle p ∷ w'.trace;
            }) =
          ground (arith, r) in
        run
        ∙ ap (λ h. ok tt (record w' { handles = h; trace = deleted_handle p ∷ w'.trace }))
            (fun_ext λ q. ground (arith, ap (λ h. h q) same))

    module _ (w : World) (own : ℕ → ℕ) (p : ℕ) (i : Instance HandleBody) (hs : List ℕ)
        (e : w.handles p ≡ some i) (nz : i.body.loop_instance_ptr ≢ 0)
        (listed : (q : ℕ) → count q hs ≡ (if loop_of (w.handles q) == 0 then 0 else 1)) where
      listed_without :
          (q : ℕ) → count q (remove p hs) ≡ (if loop_of (put w.handles p none q) == 0 then 0 else 1)
      listed_without q = ground (arith, listed p, listed q, count-remove p q hs)

      booked_without :
          (q : ℕ)
          → lose (λ l. others l + bookings w.handles hs l) i.body.loop_instance_ptr q
            ≡ others q + bookings (put w.handles p none) (remove p hs) q
      booked_without q = ground (arith, listed p, bookings-remove w.handles p none hs q)

      booked_pos : 0 < bookings w.handles hs i.body.loop_instance_ptr
      booked_pos =
          subst (λ l. 0 < bookings w.handles hs l) (ap loop_of e)
            (bookings-pos w.handles p hs (ground (arith, listed p)))

    -- The booking of the loop is given up, and `P` holds of what has happened then.
    abbrev pub LetsGo : (List Event → Type 0) → World → (ℕ → ℕ) → ℕ → Type 0
    LetsGo P w total l =
        (w' : World) × (Loop.unref uv uncaught fuel l w ≡ ok tt w')
        × Counted w'.loops (lose total l)
        × (w'.handles ≡ w.handles)
        × SameRest w w'
        × P w'.trace

    delete-booked :
        (P : List Event → Type 0) (w : World) (own : ℕ → ℕ) (p : ℕ) (i : Instance HandleBody)
        (hs : List ℕ)
        → w.handles p ≡ some i
        → i.body.loop_instance_ptr ≢ 0
        → Counted (put w.handles p none) (lose own p)
        → ((q : ℕ) → count q hs ≡ (if loop_of (w.handles q) == 0 then 0 else 1))
        → LetsGo P w (λ l. others l + bookings w.handles hs l) i.body.loop_instance_ptr
        → ((l : ℕ) → others l + bookings w.handles hs l < long_mod)
        → (w' : World) × (delete uv uncaught fuel p w ≡ ok tt w')
          × Deleted w p own w'
          × (t : List Event) × (w'.trace ≡ deleted_handle p ∷ t)
          × P t
    delete-booked P w own p i hs e nz c listed (w', r, cl, same, rest, also) small = (
      record w' { handles = put w.handles p none; trace = deleted_handle p ∷ w'.trace },
      delete-run w w' p i e nz r same,
      (
        (
          remove p hs,
          record {
            counted = c;
            listed = listed_without w own p i hs e nz listed;
            booked =
                subst (Counted w'.loops) (fun_ext (booked_without w own p i hs e nz listed)) cl;
            small = λ l. ground (arith, small l, booked_without w own p i hs e nz listed l);
          },
        ),
        ground arith,
        λ q ne. ground arith,
        rest,
      ),
      _,
      refl,
      also,
    )

    pub delete_lem :
        (P : List Event → Type 0) (w : World) (own : ℕ → ℕ) (p : ℕ) (i : Instance HandleBody)
        (hs : List ℕ)
        → w.handles p ≡ some i
        → Counted (put w.handles p none) (lose own p)
        → ((q : ℕ) → count q hs ≡ (if loop_of (w.handles q) == 0 then 0 else 1))
        → Counted w.loops (λ l. others l + bookings w.handles hs l)
        → ((l : ℕ) → others l + bookings w.handles hs l < long_mod)
        → P w.trace
        → (i.body.loop_instance_ptr ≢ 0
            → LetsGo P w (λ l. others l + bookings w.handles hs l) i.body.loop_instance_ptr)
        → (w' : World) × (delete uv uncaught fuel p w ≡ ok tt w')
          × Deleted w p own w'
          × (t : List Event) × (w'.trace ≡ deleted_handle p ∷ t)
          × P t
    delete_lem P w own p i hs e c listed booked small here lets_go =
        elim (ℕ_discrete i.body.loop_instance_ptr 0) [
          | yes z ↦
              let (w', r, d, last) = delete-free w own p i hs e z c listed booked small in
              (w', r, d, w.trace, last, here)
          | no nz ↦ delete-booked P w own p i hs e nz c listed (lets_go nz) small
        ]

    -- The release of the booking, where libuv closes every loop that is given up.
    pub closing-LetsGo :
        ClosesAll uv
        → (w : World) (p : ℕ) (i : Instance HandleBody) (hs : List ℕ) → w.handles p ≡ some i
        → ((q : ℕ) → count q hs ≡ (if loop_of (w.handles q) == 0 then 0 else 1))
        → Counted w.loops (λ l. others l + bookings w.handles hs l)
        → ((l : ℕ) → others l + bookings w.handles hs l < long_mod)
        → i.body.loop_instance_ptr ≢ 0
        → LetsGo
            (λ t. Unit {0})
            w
            (λ l. others l + bookings w.handles hs l)
            i.body.loop_instance_ptr
    closing-LetsGo shut w p i hs e listed booked small nz =
        let (w', r, cl, same, rest) =
          loop_unref_law uv uncaught fuel shut w (λ l. others l + bookings w.handles hs l)
            i.body.loop_instance_ptr booked
            (omega (arith, booked_pos w (λ q. 0) p i hs e nz listed)) (small _) in
        (w', r, cl, same, rest, tt)

    -- The release of the booking, where the loop has another reference.
    pub spared-LetsGo :
        (w : World) (p : ℕ) (i : Instance HandleBody) (hs : List ℕ)
        → w.handles p ≡ some i
        → ((q : ℕ) → count q hs ≡ (if loop_of (w.handles q) == 0 then 0 else 1))
        → Counted w.loops (λ l. others l + bookings w.handles hs l)
        → ((l : ℕ) → others l + bookings w.handles hs l < long_mod)
        → i.body.loop_instance_ptr ≢ 0
        → 0 < others i.body.loop_instance_ptr
        → LetsGo
            (λ t. t ≡ w.trace)
            w
            (λ l. others l + bookings w.handles hs l)
            i.body.loop_instance_ptr
    spared-LetsGo w p i hs e listed booked small nz spared =
        let total = λ (l : ℕ). others l + bookings w.handles hs l in
        let more = booked_pos w (λ q. 0) p i hs e nz listed in
        let (j, ej, n) =
          Counted-live w.loops total i.body.loop_instance_ptr booked (omega (arith, more)) in
        let (r, c) =
          loop_unref_more uv uncaught fuel w total i.body.loop_instance_ptr j booked ej (small _)
            (omega (arith, more, spared)) in
        (_, r, c, refl, (refl, refl), refl)

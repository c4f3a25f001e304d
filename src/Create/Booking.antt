-- ===== src/Create/Booking.antt =====
-- What a constructor leaves: one reference to the new handle, and its loop booked.
use uvcc.Prelude.{
  ℕ, ◌+◌, ◌<◌, ◌≡◌, refl, sym, ◌∙◌, ap, subst, fun_ext, Bool, List, ◌∷◌, none, some, arith,
}
use uvcc.Prelude.Int.{ℤ}
use uvcc.Utility.RefCount.{long_mod}
use uvcc.Runtime.{World, Instance, HandleBody, LoopBody, HandleType, LibUv, Call, call, put}
use uvcc.Runtime.Counts.{Counted, CountIs, gain, inc_ref-Counted}
use uvcc.Runtime.Ends.{Ends}
use uvcc.References.Places.{count}
use uvcc.Loop
use uvcc.Handle.Bookings.{loop_of, bookings, bookings-put, bookings-absent}
use uvcc.Handle.Counted.{IsCounted, Inv, modify-Inv, trace-Inv}
use uvcc.Handle.{set_status, update, unbook_loop, book_loop}
use uvcc.Create.{fresh, fresh_body, create, create_file}

module _ (others own : ℕ → ℕ) (l p : ℕ) where
  -- The loop `l` is alive, with room for a reference.
  abbrev pub Roomy : World → Type 0
  Roomy w = (j : Instance LoopBody) × (w.loops l ≡ some j) × (j.refs + 1 < long_mod)

  -- The new handle is `i`, to which there is one reference, and the loop is there for its booking.
  abbrev pub Made : Instance HandleBody → World → Type 0
  Made i w = Inv others w (gain own p) × (w.handles p ≡ some i) × Roomy w

  -- A new instance in a place that is free.
  place_lem :
      (w : World) (i : Instance HandleBody)
      → Inv others w own
      → w.handles p ≡ none
      → Roomy w
      → i.refs ≡ 1
      → i.body.loop_instance_ptr ≡ 0
      → Made i (record w { handles = put w.handles p (some i) })
  place_lem w i (hs, inv) free roomy single unbooked = (
    (
      hs,
      record {
        counted = λ q. ground (arith, inv.counted q, free);
        listed = λ q. ground (arith, inv.listed q, free);
        booked =
            subst (Counted w.loops) (fun_ext λ m. ap (λ n. others m + n) (sym (same m))) inv.booked;
        small = λ m. omega (arith, inv.small m, same m);
      },
    ),
    ground arith,
    roomy,
  )
    where
      same : (m : ℕ) → bookings (put w.handles p (some i)) hs m ≡ bookings w.handles hs m
      same m = bookings-put w.handles p (some i) hs m (unbooked ∙ sym (ap loop_of free))

  pub create_lem :
      (w : World)
      → Inv others w own
      → w.handles p ≡ none
      → Roomy w
      → Ends (create p w) (λ _ w'. Made fresh w')
  unfolding create
  create_lem w inv free roomy = (tt, _, refl, place_lem w fresh inv free roomy refl refl)

  pub create_file_lem :
      (w : World)
      → Inv others w own
      → w.handles p ≡ none
      → Roomy w
      → Ends
          (create_file p w)
          (λ _ w'. Made (record fresh { body = record fresh_body { type = HandleType.file } }) w')
  unfolding create_file
  create_file_lem w inv free roomy = (tt, _, refl, place_lem w _ inv free roomy refl refl)

  pub status-Made :
      (w : World) (i : Instance HandleBody) (r : ℤ)
      → Made i w
      → Ends (set_status p r w) (λ a w'. (a ≡ r) × Made (record i { uv_error = r }) w')
  unfolding set_status
  status-Made w i r (inv, e, roomy) = (
    r,
    record w { handles = put w.handles p (some (record i { uv_error = r })) },
    ground (arith, e),
    (
      refl,
      (
        modify-Inv others w (gain own p) p i (record i { uv_error = r }) inv e refl refl,
        ground arith,
        roomy,
      ),
    ),
  )

  pub update-Made :
      (f : HandleBody → HandleBody) (w : World) (i : Instance HandleBody)
      → (f i.body).loop_instance_ptr ≡ i.body.loop_instance_ptr
      → Made i w
      → Ends (update f p w) (λ _ w'. Made (record i { body = f i.body }) w')
  unfolding update
  update-Made f w i same (inv, e, roomy) = (
    tt,
    record w { handles = put w.handles p (some (record i { body = f i.body })) },
    ground (arith, e),
    (
      modify-Inv others w (gain own p) p i (record i { body = f i.body }) inv e refl same,
      ground arith,
      roomy,
    ),
  )

  pub call-Made :
      (w : World) (i : Instance HandleBody) (uv : LibUv) (c : Call)
      → Made i w
      → Ends (call uv c w) (λ _ w'. Made i w')
  call-Made w i uv c (inv, e, roomy) =
      (_, _, refl, (trace-Inv others w (gain own p) _ inv, e, roomy))

  -- The handle has booked the loop.
  abbrev pub Booked : Instance HandleBody → World → Type 0
  Booked i w =
      Inv others w (gain own p)
      × (w.handles p ≡ some (record i { body = record i.body { loop_instance_ptr = l } }))

  abbrev with_loop : Instance HandleBody → Instance HandleBody
  with_loop i = record i { body = record i.body { loop_instance_ptr = l } }

  -- The counts behind the booking, where the handle had booked no loop.
  module _ (w : World) (i : Instance HandleBody) (hs : List ℕ)
      (inv : IsCounted others w (gain own p) hs) (e : w.handles p ≡ some i) (nz : 0 < l)
      (unbooked : i.body.loop_instance_ptr ≡ 0) where
    abbrev total : ℕ → ℕ
    total m = others m + bookings w.handles hs m

    absent : count p hs ≡ 0
    absent = ground (arith, inv.listed p, e, unbooked)

    added :
        (m : ℕ)
        → others m + bookings (put w.handles p (some (with_loop i))) (p ∷ hs) m ≡ gain total l m
    added m = ground (arith, bookings-absent w.handles p (some (with_loop i)) hs m absent)

    small_added :
        (j : Instance LoopBody)
        → j.refs ≡ total l
        → j.refs + 1 < long_mod
        → (m : ℕ) → others m + bookings (put w.handles p (some (with_loop i))) (p ∷ hs) m < long_mod
    small_added j counts room m = ground (arith, added m, inv.small m, counts, room)

    booked_IsCounted :
        (j : Instance LoopBody)
        → w.loops l ≡ some j
        → j.refs + 1 < long_mod
        → Counted (put w.loops l (some (record j { refs = total l + 1 }))) (gain total l)
        → j.refs ≡ total l
        → IsCounted others
            (record w {
              handles = put w.handles p (some (with_loop i));
              loops = put w.loops l (some (record j { refs = total l + 1 }));
            })
            (gain own p)
            (p ∷ hs)
    booked_IsCounted j live room c counts = record {
      counted = λ q. ground (arith, inv.counted q, e);
      listed = λ q. ground (arith, inv.listed q, e, absent);
      booked = subst (Counted _) (fun_ext λ m. sym (added m)) c;
      small = small_added j counts room;
    }

  module _ (uv : LibUv) (uncaught : Bool) (fuel : ℕ) where
    -- `book_loop` of a handle that libuv has put on the loop `l`.
    pub book_lem :
        (w : World) (i : Instance HandleBody)
        → 0 < l
        → i.body.loop_instance_ptr ≡ 0
        → i.body.loop ≡ l
        → Made i w
        → Ends (book_loop uv uncaught fuel p w) (λ _ w'. Booked i w')
    unfolding book_loop unbook_loop Loop.ref
    book_lem w i nz unbooked on ((hs, inv), e, (j, live, room)) =
        let here : CountIs (some j) (others l + bookings w.handles hs l) =
          subst (λ o. CountIs o (others l + bookings w.handles hs l)) live (inv.booked l) in
        let (r, c) =
          inc_ref-Counted w.loops (λ m. others m + bookings w.handles hs m) l j inv.booked live
            (omega (arith, here.0)) in
        (
          tt,
          record w {
            handles = put w.handles p (some (with_loop i));
            loops =
                put w.loops l (some (record j { refs = others l + bookings w.handles hs l + 1 }));
          },
          rw (e, unbooked, on) (ground (arith, r)),
          ((p ∷ hs, booked_IsCounted w i hs inv e nz unbooked j live room c here.0), ground arith),
        )

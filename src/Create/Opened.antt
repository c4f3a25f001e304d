-- ===== src/Create/Opened.antt =====
-- The opening of a file in the background, run and called back.
use uvcc.Prelude.{
  ℕ, ◌-◌, ◌<◌, ◌≡◌, refl, subst, fun_ext, inl, inr, Bool, true, false, none, arith, if◌then◌else◌,
  Bool-cases,
}
use uvcc.Prelude.Int.{ℤ, pos, is_negative}
use uvcc.Runtime.{World, Instance, HandleBody, M, LibUv, pure, ◌>>=◌, ◌>>◌}
use uvcc.Runtime.Counts.{gain}
use uvcc.Runtime.Ends.{Ends, Ends-then, Ends-weaken}
use uvcc.Handle.{update, set_status, ref, unref}
use uvcc.Handle.Counted.{Inv}
use uvcc.Handle.Lifetime.{ref_ok, unref_more}
use uvcc.Handle.Observed.{Shows, set_status-Shows, update-Shows, unref-Shows}
use uvcc.Transfer.Balance.{lose-gain}
use uvcc.Watch.{set_event_cb}
use uvcc.Watch.Notify.{Leaves, notify-Leaves}
use uvcc.Create.Booking.{Roomy, Made, create_file_lem, status-Made, update-Made, book_lem}
use uvcc.Create.Constructors.{
  Initialises, lip, Settled, OnLoop, Failed, book_if_lem, init-Made, Booked-OnLoop,
}
use uvcc.Create.Classes.{Initialisers, file_open}
use uvcc.Create.Opening.{settle_open, open_later, file_open_with, open_cb}

-- A handle shows the loop that it has booked, which stands for no reference to the handle.
abbrev pub weightless : ℕ → ℕ
weightless l = 0

module _ (uv : LibUv) (uncaught : Bool) (fuel : ℕ) (others own : ℕ → ℕ) (l p : ℕ) (nz : 0 < l)
    (new : own p ≡ 0) where
  -- The references with that of the variable that is constructed.
  abbrev mine : ℕ → ℕ
  mine = gain own p

  -- The file waits for its callback.
  abbrev Waiting : World → Type 0
  Waiting = Shows lip others mine p 1 l

  abbrev Opening : ℤ → World → Type 0
  Opening ret w = if is_negative ret then Failed others own l p ret w else Waiting w

  file_ref :
      (w : World) (i : Instance HandleBody)
      → Made others own l p i w
      → Ends (ref p w) (λ _ w'. Made others mine l p (record i { refs = 2 }) w')
  file_ref w i (inv, e, roomy) =
      let (run, inv') = ref_ok others w mine p i inv e (ground (arith, new)) in
      (tt, _, run, (inv', ground (arith, new), roomy))

  open_cb_lem :
      (user : ℕ → M (Unit {0})) (w : World)
      → Leaves lip weightless others mine p user
      → Waiting w
      → Ends (open_cb uv uncaught fuel user p w) (λ _ w'. OnLoop others own l p w')
  unfolding open_cb
  open_cb_lem user w leaves (i, inv, e, st) = rw e (
      Ends-then _ _ _ _ (set_status-Shows lip others mine p 1 l w i.body.result (i, inv, e, st))
        λ _ w1 (_, h1).
          Ends-then _ _ _ _
            (notify-Leaves lip weightless (λ s. omega arith) uv uncaught fuel others mine p 1
              (ground arith) (ground (arith, new)) user l w1 leaves h1)
            λ _ w2 h2.
              Ends-weaken _ _ _
                (unref-Shows lip others mine p uv uncaught fuel 0 l w2 (ground arith)
                  (ground (arith, new)) h2)
                λ _ w3 (i3, inv3, e3, st3).
                  (i3, subst (Inv others w3) (fun_ext λ q. ground arith) inv3, e3, st3))

  refused_lem :
      (w : World) (i : Instance HandleBody) (ret : ℤ)
      → Made others mine l p i w
      → i.body.loop_instance_ptr ≡ 0
      → is_negative ret ≡ true
      → Ends
          ((do _ ← set_status p ret; unref uv uncaught fuel p) w)
          (λ _ w'. Failed others own l p ret w')
  refused_lem w i ret made unbooked neg =
      Ends-then _ _ _ (λ _ w'. Failed others own l p ret w')
        (status-Made others mine l p w i ret made)
        λ _ w1 (_, (inv1, e1, _)).
          let i1 = record i { uv_error = ret } in
          let (run, inv2) =
            unref_more others uv uncaught fuel w1 (gain mine p) p i1 inv1 e1 (ground (arith, new))
              (ground (arith, new)) in
          (
            tt,
            _,
            run,
            (
              record i1 { refs = gain mine p p - 1 },
              subst (Inv others _) (lose-gain mine p) inv2,
              ground arith,
              unbooked,
              refl,
            ),
          )

  settle_open_lem :
      (w : World) (i : Instance HandleBody) (ret : ℤ)
      → Made others mine l p i w
      → i.body.loop_instance_ptr ≡ 0
      → (is_negative ret ≡ false → i.body.loop ≡ l)
      → Ends (settle_open uv uncaught fuel p ret w) (λ _ w'. Opening ret w')
  unfolding settle_open
  settle_open_lem w i ret made unbooked on = elim (Bool-cases (is_negative ret)) [
    | inl neg ↦ rw neg (refused_lem w i ret made unbooked neg)
    | inr good ↦ rw good (
        Ends-weaken _ _ _ (book_lem others mine l p uv uncaught fuel w i nz unbooked (on good) made)
          λ _ w' booked. Booked-OnLoop others mine l p w' i booked)
  ]

  open_later_lem :
      (inits : Initialisers) (path : ℕ) (w : World)
      → Initialises (inits.uv_fs_open path) l p
      → Inv others w own
      → w.handles p ≡ none
      → Roomy others own l p w
      → Ends (open_later uv uncaught fuel inits path l p w) Opening
  unfolding open_later set_event_cb
  open_later_lem inits path w does inv free roomy =
      Ends-then _ _ _ Opening (create_file_lem others own l p w inv free roomy) λ _ w1 m1.
        Ends-then _ _ _ Opening (file_ref w1 _ m1) λ _ w2 m2.
          Ends-then _ _ _ Opening (update-Made others mine l p _ w2 _ refl m2) λ _ w3 m3.
            Ends-then _ _ _ Opening (status-Made others mine l p w3 _ (pos 0) m3) λ _ w4 (_, m4).
              Ends-then _ _ _ Opening
                (init-Made others mine l p (inits.uv_fs_open path) w4 _ does m4)
                λ ret w5 (b, m5, same, on).
                  Ends-then _ _ _ Opening (settle_open_lem w5 _ ret m5 same on)
                    λ _ w6 h6. (ret, w6, refl, h6)

  open_now_lem :
      (inits : Initialisers) (path : ℕ) (w : World)
      → Initialises (inits.uv_fs_open path) l p
      → Inv others w own
      → w.handles p ≡ none
      → Roomy others own l p w
      → Ends (file_open uv uncaught fuel inits path l p w) (Settled others own l p)
  unfolding file_open
  open_now_lem inits path w does inv free roomy =
      Ends-then _ _ _ (Settled others own l p) (create_file_lem others own l p w inv free roomy)
        λ _ w1 m1.
          Ends-then _ _ _ (Settled others own l p)
            (init-Made others own l p (inits.uv_fs_open path) w1 _ does m1)
            λ ret w2 (b, m2, same, on).
              book_if_lem others own l p uv uncaught fuel nz w2 _ ret m2 same on

  -- What follows the opening in the background: libuv puts its result into the file and calls back,
  -- unless the opening was refused.
  abbrev called_back : (user : ℕ → M (Unit {0})) (result ret : ℤ) → M (Unit {0})
  called_back user result ret =
      if is_negative ret
      then pure tt
      else (do update (λ b. record b { result = result }) p; open_cb uv uncaught fuel user p)

  abbrev pub complete_open :
      (has_open_cb : Bool) (user : ℕ → M (Unit {0})) (result ret : ℤ) → M (Unit {0})
  complete_open has_open_cb user result ret =
      if has_open_cb then called_back user result ret else pure tt

  resumed_lem :
      (user : ℕ → M (Unit {0})) (result : ℤ) (w : World)
      → Leaves lip weightless others mine p user
      → Waiting w
      → Ends
          ((do update (λ b. record b { result = result }) p; open_cb uv uncaught fuel user p) w)
          (λ _ w'. OnLoop others own l p w')
  resumed_lem user result w leaves h =
      Ends-then _ _ _ _
        (update-Shows lip others mine p (λ b. record b { result = result }) 1 l l w (λ b. refl)
          (λ b e. e) h)
        λ _ w1 h1. open_cb_lem user w1 leaves h1

  called_back_lem :
      (user : ℕ → M (Unit {0})) (result ret : ℤ) (w : World)
      → Leaves lip weightless others mine p user
      → Opening ret w
      → Ends (called_back user result ret w) (λ _ w'. Settled others own l p ret w')
  called_back_lem user result ret w leaves h = elim (Bool-cases (is_negative ret)) [
    | inl neg ↦ rw neg (tt, w, refl, inr (refl, (rw neg at h)))
    | inr good ↦ rw good (
        Ends-weaken _ _ _ (resumed_lem user result w leaves (rw good at h))
          λ _ w2 h2. inl (refl, h2))
  ]

  -- A file that is opened, at once or in the background, and is then called back whatever the result,
  -- ends with the one reference of the variable that was constructed. Where libuv has taken the
  -- opening, with a result that is not negative, the loop is booked; where it has refused, this result
  -- is the status, and no loop is booked. It is given that libuv initialises handles as documented,
  -- that the address is free, that the loop is alive with room for a reference, and that the user's
  -- callback leaves the references to the file and its booking.
  pub open-completes :
      (inits : Initialisers) (has_open_cb : Bool) (path : ℕ) (user : ℕ → M (Unit {0})) (result : ℤ)
      (w : World)
      → Initialises (inits.uv_fs_open path) l p
      → Inv others w own
      → w.handles p ≡ none
      → Roomy others own l p w
      → Leaves lip weightless others mine p user
      → Ends
          ((do
            ret ← file_open_with uv uncaught fuel inits has_open_cb path l p
            complete_open has_open_cb user result ret
            pure ret)
            w)
          (Settled others own l p)
  unfolding file_open_with
  open-completes inits true path user result w does inv free roomy leaves =
      Ends-then _ _ _ (Settled others own l p) (open_later_lem inits path w does inv free roomy)
        λ ret w1 h1.
          Ends-then _ _ _ (Settled others own l p) (called_back_lem user result ret w1 leaves h1)
            λ _ w2 h2. (ret, w2, refl, h2)
  open-completes inits false path user result w does inv free roomy leaves =
      Ends-then _ _ _ (Settled others own l p) (open_now_lem inits path w does inv free roomy)
        λ ret w1 h1. (ret, w1, refl, h1)

-- ===== src/Create/Constructors.antt =====
-- The scheme of the constructors: a new instance, its initialisation by libuv, and its booking of the
-- loop if that has succeeded.
use uvcc.Prelude.{
  ℕ, ◌<◌, ◌≡◌, refl, sym, subst, inl, inr, ◌⊎◌, Bool, true, false, none, some, arith, List,
  Bool-cases,
}
use uvcc.Prelude.Int.{ℤ, is_negative}
use uvcc.Runtime.{World, Instance, HandleBody, M, LibUv, Event, put}
use uvcc.Runtime.Counts.{gain}
use uvcc.Runtime.Ends.{Ends, Ends-then, Ends-weaken}
use uvcc.Handle.Counted.{Inv, modify-Inv, rest-Inv}
use uvcc.Handle.Observed.{Shows}
use uvcc.Create.{book_if, construct}
use uvcc.Create.Booking.{Roomy, Made, Booked, create_lem, status-Made, book_lem}

-- What a function of libuv does that initialises a handle, by its documentation: it changes that
-- handle alone, of which libuv owns the structure, and where it succeeds the handle is on the loop.
abbrev pub Initialises : (ℕ → ℕ → M ℤ) → ℕ → ℕ → Type 0
Initialises init l p =
    (w : World) (i : Instance HandleBody)
    → w.handles p ≡ some i
    → Ends (init l p w) (λ r w'.
      (b : HandleBody) × (t : List Event) × (w'
        ≡ record w { handles = put w.handles p (some (record i { body = b })); trace = t })
      × (b.loop_instance_ptr ≡ i.body.loop_instance_ptr)
      × (is_negative r ≡ false → b.loop ≡ l))

abbrev pub lip : HandleBody → ℕ
lip b = b.loop_instance_ptr

module _ (others own : ℕ → ℕ) (l p : ℕ) where
  -- The instance has one reference, and has booked the loop, or else its status is an error.
  abbrev pub Created : World → Type 0
  Created w' =
      (i : Instance HandleBody) × Inv others w' (gain own p)
      × (w'.handles p ≡ some i)
      × ((i.body.loop_instance_ptr ≡ l)
          ⊎ ((i.body.loop_instance_ptr ≡ 0) × (is_negative i.uv_error ≡ true)))

  pub init-Made :
      (init : ℕ → ℕ → M ℤ) (w : World) (i : Instance HandleBody)
      → Initialises init l p
      → Made others own l p i w
      → Ends (init l p w) (λ r w'.
        (b : HandleBody) × Made others own l p (record i { body = b }) w'
        × (b.loop_instance_ptr ≡ i.body.loop_instance_ptr)
        × (is_negative r ≡ false → b.loop ≡ l))
  init-Made init w i does (inv, e, roomy) =
      Ends-weaken _ _ _ (does w i e) λ r w' (b, t, is, same, on). (
        b,
        subst (Made others own l p (record i { body = b })) (sym is) (
          rest-Inv others _ (gain own p) w.requests w.buffers t
              (modify-Inv others w (gain own p) p i (record i { body = b }) inv e refl same),
          ground arith,
          roomy,
        ),
        same,
        on,
      )

  -- A handle that has booked the loop.
  abbrev pub OnLoop : World → Type 0
  OnLoop w = Shows lip others own p 1 l w

  pub OnLoop-Created : (w : World) → OnLoop w → Created w
  OnLoop-Created w (i, inv, e, on) = (i, inv, e, inl on)

  pub Booked-OnLoop : (w : World) (i : Instance HandleBody) → Booked others own l p i w → OnLoop w
  Booked-OnLoop w i (inv, e) = (_, inv, e, refl)

  -- The constructor has failed with the status `r`.
  abbrev pub Failed : ℤ → World → Type 0
  Failed r w =
      (i : Instance HandleBody) × Inv others w (gain own p)
      × (w.handles p ≡ some i)
      × (i.body.loop_instance_ptr ≡ 0)
      × (i.uv_error ≡ r)

  -- What the constructors that can fail leave: the result says which.
  abbrev pub Settled : ℤ → World → Type 0
  Settled r w = ((is_negative r ≡ false) × OnLoop w) ⊎ ((is_negative r ≡ true) × Failed r w)

  pub Settled-Created : (r : ℤ) (w : World) → Settled r w → Created w
  Settled-Created r w (inl (_, on)) = OnLoop-Created w on
  Settled-Created r w (inr (neg, (i, inv, e, unbooked, is))) =
      (i, inv, e, inr (unbooked, subst (λ r. is_negative r ≡ true) (sym is) neg))

  module _ (uv : LibUv) (uncaught : Bool) (fuel : ℕ) (nz : 0 < l) where
    pub book_if_fails :
        (w : World) (i : Instance HandleBody) (r : ℤ)
        → Made others own l p i w
        → i.body.loop_instance_ptr ≡ 0
        → is_negative r ≡ true
        → Ends (book_if uv uncaught fuel p r w) (λ a w'. (a ≡ r) × Failed r w')
    unfolding book_if
    book_if_fails w i r made unbooked neg = rw neg (
        Ends-then _ _ _ _ (status-Made others own l p w i r made)
          λ _ w1 (_, (inv, e, _)). (r, w1, refl, (refl, (_, inv, e, unbooked, refl))))

    book_if_books :
        (w : World) (i : Instance HandleBody) (r : ℤ)
        → Made others own l p i w
        → i.body.loop_instance_ptr ≡ 0
        → i.body.loop ≡ l
        → is_negative r ≡ false
        → Ends (book_if uv uncaught fuel p r w) (λ a w'. (a ≡ r) × OnLoop w')
    unfolding book_if
    book_if_books w i r made unbooked on nonneg = rw nonneg (
        Ends-then _ _ _ _ (status-Made others own l p w i r made) λ _ w1 (_, made1).
          Ends-then _ _ _ _
            (book_lem others own l p uv uncaught fuel w1 (record i { uv_error = r }) nz unbooked on
              made1)
            λ _ w2 booked.
              (r, w2, refl, (refl, Booked-OnLoop w2 (record i { uv_error = r }) booked)))

    pub book_if_lem :
        (w : World) (i : Instance HandleBody) (r : ℤ)
        → Made others own l p i w
        → i.body.loop_instance_ptr ≡ 0
        → (is_negative r ≡ false → i.body.loop ≡ l)
        → Ends (book_if uv uncaught fuel p r w) (λ a w'. Settled a w')
    book_if_lem w i r made unbooked on = elim (Bool-cases (is_negative r)) [
      | inl neg ↦
          Ends-weaken _ _ _ (book_if_fails w i r made unbooked neg)
            λ a w' (is, failed). subst (λ r. Settled r w') (sym is) (inr (neg, failed))
      | inr nonneg ↦
          Ends-weaken _ _ _ (book_if_books w i r made unbooked (on nonneg) nonneg)
            λ a w' (is, books). subst (λ r. Settled r w') (sym is) (inl (nonneg, books))
    ]

    pub construct_lem :
        (init : ℕ → ℕ → M ℤ) (w : World)
        → Initialises init l p
        → Inv others w own
        → w.handles p ≡ none
        → Roomy others own l p w
        → Ends (construct uv uncaught fuel init l p w) (λ a w'. Settled a w')
    unfolding construct
    construct_lem init w does inv free roomy =
        Ends-then _ _ _ _ (create_lem others own l p w inv free roomy) λ _ w1 made.
          Ends-then _ _ _ _ (init-Made init w1 _ does made)
            λ r w2 (b, made2, same, on). book_if_lem w2 _ r made2 same on

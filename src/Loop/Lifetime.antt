-- ===== src/Loop/Lifetime.antt =====
-- A loop's instance lives as long as a reference to it.
use uvcc.Prelude.{
  Bool, List, length, ℕ, ◌+◌, ◌-◌, ◌<◌, ◌≡◌, refl, ◌∷◌, inl, inr, true, false, none, some, arith,
  ◌==◌, if◌then◌else◌, ℕ_discrete, Bool-cases,
}
use uvcc.Utility.RefCount.{long_mod}
use uvcc.Runtime.{Event, LibUv, World, ok, put, Instance, LoopBody, on_loop_destroy, deleted_loop}
use uvcc.Runtime.Counts.{
  SameRest, Counted, Counted-live, gain, lose, inc_ref-Counted, dec_ref-Counted, dec_ref-last,
}
use uvcc.References.Steps.{Counting, Keeps}
use uvcc.References.Programs.{run-Keeps}
use uvcc.References.Places.{referring}
use uvcc.References.{Operation, run}
use uvcc.Loop.Closing.{closes, asked_close}
use uvcc.Loop.{ref, unref, dec, destroy, destruct_instance}

-- The counts of the loops' instances are the numbers of references to them.
abbrev pub Inv : World → (ℕ → ℕ) → Type 0
Inv w own = Counted w.loops own

pub ref_law :
    (w : World) (own : ℕ → ℕ) (p : ℕ)
    → Inv w own
    → 0 < own p
    → own p + 1 < long_mod
    → (w' : World) × (ref p w ≡ ok tt w') × Inv w' (gain own p)
unfolding ref
ref_law w own p inv pos room =
    let (i, e, n) = Counted-live w.loops own p inv pos in
    let (r, c) = inc_ref-Counted w.loops own p i inv e room in
    (record w { loops = put w.loops p (some (record i { refs = own p + 1 })) }, rw r, c)

-- libuv closes every loop that is given up.
abbrev pub ClosesAll : LibUv → Type 0
ClosesAll uv = (t : List Event) (l : ℕ) → closes uv l t ≡ true

module _ (uv : LibUv) (uncaught : Bool) (fuel : ℕ) where
  -- The release of a reference that is not the last changes the count of that instance alone.
  pub unref_more :
      (w : World) (own : ℕ → ℕ) (p : ℕ) (i : Instance LoopBody)
      → Inv w own
      → w.loops p ≡ some i
      → own p < long_mod
      → 1 < own p
      → (unref uv uncaught fuel p w
          ≡ ok tt (record w { loops = put w.loops p (some (record i { refs = own p - 1 })) }))
        × Counted (put w.loops p (some (record i { refs = own p - 1 }))) (lose own p)
  unfolding unref dec
  unref_more w own p i inv e room more =
      let (r, c) = dec_ref-Counted w.loops own p i inv e room more in
      let left : (own p - 1 == 0) ≡ false = ground arith in (rw (r, left), c)

  -- The trace behind the callback for the destruction, where one is set.
  abbrev pub destroyed : Instance LoopBody → ℕ → List Event → List Event
  destroyed i p t = if i.has_destroy_cb then on_loop_destroy p ∷ t else t

  -- The release of the last reference to a loop that libuv closes calls the callback that is set
  -- for it, closes the loop and deletes the instance, in this order.
  pub loop_unref_last :
      (w : World) (own : ℕ → ℕ) (p : ℕ) (i : Instance LoopBody)
      → Inv w own
      → w.loops p ≡ some i
      → own p ≡ 1
      → closes uv p (destroyed i p w.trace) ≡ true
      → (w' : World) × (unref uv uncaught fuel p w ≡ ok tt w')
        × Inv w' (lose own p)
        × (w'.loops p ≡ none)
        × (w'.trace ≡ deleted_loop p ∷ asked_close uv p (destroyed i p w.trace))
        × (w'.handles ≡ w.handles)
        × SameRest w w'
  unfolding unref dec destroy destruct_instance
  loop_unref_last w own p i inv e last shut =
      let (r, c) = dec_ref-last w.loops own p i inv e last in
      let h = put w.loops p (some (record i { refs = 0 })) in
      (
        record w {
          loops = put h p none;
          trace = deleted_loop p ∷ asked_close uv p (destroyed i p w.trace);
        },
        elim (Bool-cases i.has_destroy_cb) [
          | inl set ↦ ground (arith, r)
          | inr unset ↦ ground (arith, r)
        ],
        c,
        ground arith,
        refl,
        refl,
        (refl, refl),
      )

  pub unref_law :
      ClosesAll uv
      → (w : World) (own : ℕ → ℕ) (p : ℕ) → Inv w own
      → 0 < own p
      → own p < long_mod
      → (w' : World) × (unref uv uncaught fuel p w ≡ ok tt w')
        × Inv w' (lose own p)
        × (w'.handles ≡ w.handles)
        × SameRest w w'
  unref_law shut w own p inv pos room =
      let (i, e, n) = Counted-live w.loops own p inv pos in
      elim (ℕ_discrete (own p) 1) [
        | yes last ↦
            let (w', r, c, _, _, k, k') = loop_unref_last w own p i inv e last (shut _ p) in
            (w', r, c, k, k')
        | no more ↦
            let (r, c) = unref_more w own p i inv e room (omega arith) in
            (_, r, c, refl, (refl, refl))
      ]

  -- Loops keep the laws of counted references, if libuv closes every loop that is given up.
  pub Loop-Counting : ClosesAll uv → Counting ref (unref uv uncaught fuel) Inv
  Loop-Counting shut = record {
    ref_law = ref_law;
    unref_law = λ w own p inv pos room.
        let (w', r, c, _, _) = unref_law shut w own p inv pos room in (w', r, c);
  }

  -- From loop variables that the counts agree with, any sequence of copies, moves, assignments,
  -- swaps and destructions runs to its end with no use of a deleted loop and no exception, and the
  -- counts agree with the variables again, if libuv closes every loop that is given up and the
  -- variables are fewer than 2^64.
  loop-programs :
      (shut : ClosesAll uv) (ops : List Operation) (w : World) (vars : List ℕ)
      → Inv w (referring vars)
      → length vars + length ops < long_mod
      → Keeps
          (Loop-Counting shut)
          (length vars + length ops)
          (run ref (unref uv uncaught fuel) ops vars w)
  loop-programs shut ops w vars inv room = run-Keeps (Loop-Counting shut) ops w vars inv room

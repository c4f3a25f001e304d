-- ===== src/Request/Lifetime.antt =====
-- A request's instance lives as long as a reference to it.
use uvcc.Prelude.{
  List, length, ℕ, ◌+◌, ◌-◌, ◌<◌, ◌≡◌, ◌≢◌, refl, ◌∷◌, inl, inr, false, none, some, arith, ◌==◌,
  if◌then◌else◌, ℕ_discrete, Bool-cases,
}
use uvcc.Utility.RefCount.{long_mod}
use uvcc.Runtime.{
  World, ok, put, Heap, Event, Instance, RequestBody, on_request_destroy, deleted_request,
}
use uvcc.Runtime.Counts.{
  Counted, Counted-live, gain, lose, inc_ref-Counted, dec_ref-Counted, dec_ref-last,
}
use uvcc.References.Steps.{Counting, Keeps}
use uvcc.References.Programs.{run-Keeps}
use uvcc.References.Places.{referring}
use uvcc.References.{Operation, run}
use uvcc.Request.{ref, unref, dec, destroy_instance}

-- The counts of the requests' instances are the numbers of references to them.
abbrev pub Inv : World → (ℕ → ℕ) → Type 0
Inv w own = Counted w.requests own

-- The release of a reference that is not the last changes the count of that instance alone.
unref_more :
    (w : World) (own : ℕ → ℕ) (p : ℕ) (i : Instance RequestBody)
    → Inv w own
    → w.requests p ≡ some i
    → own p < long_mod
    → 1 < own p
    → (unref p w
        ≡ ok tt (record w { requests = put w.requests p (some (record i { refs = own p - 1 })) }))
      × Counted (put w.requests p (some (record i { refs = own p - 1 }))) (lose own p)
unfolding unref dec
unref_more w own p i inv e room more =
    let (r, c) = dec_ref-Counted w.requests own p i inv e room more in
    let left : (own p - 1 == 0) ≡ false = ground arith in (rw (r, left), c)

-- The trace behind the destruction of an instance.
abbrev pub destroyed : Instance RequestBody → ℕ → List Event → List Event
destroyed i p t = deleted_request p ∷ (if i.has_destroy_cb then on_request_destroy p ∷ t else t)

unref_last :
    (w : World) (own : ℕ → ℕ) (p : ℕ) (i : Instance RequestBody)
    → Inv w own
    → w.requests p ≡ some i
    → own p ≡ 1
    → let h = put (put w.requests p (some (record i { refs = 0 }))) p none in
      (unref p w ≡ ok tt (record w { requests = h; trace = destroyed i p w.trace }))
      × Counted h (lose own p)
unfolding unref dec destroy_instance
unref_last w own p i inv e last =
    let (r, c) = dec_ref-last w.requests own p i inv e last in
    (
      elim (Bool-cases i.has_destroy_cb) [
        | inl set ↦ ground (arith, r)
        | inr unset ↦ ground (arith, r)
      ],
      c,
    )

-- The release of the last reference calls the callback that is set for it and deletes the instance,
-- in this order, and changes no other instance.
pub request_unref_last :
    (w : World) (own : ℕ → ℕ) (p : ℕ) (i : Instance RequestBody)
    → Inv w own
    → w.requests p ≡ some i
    → own p ≡ 1
    → (w' : World) × (unref p w ≡ ok tt w')
      × Inv w' (lose own p)
      × (w'.requests p ≡ none)
      × ((q : ℕ) → q ≢ p → w'.requests q ≡ w.requests q)
      × (w'.trace ≡ destroyed i p w.trace)
request_unref_last w own p i inv e last =
    let (r, c) = unref_last w own p i inv e last in
    (_, r, c, ground arith, λ q ne. ground arith, refl)

-- Only the requests and the trace change.
pub request_ref_law :
    (w : World) (own : ℕ → ℕ) (p : ℕ)
    → Inv w own
    → 0 < own p
    → own p + 1 < long_mod
    → (h : Heap RequestBody) × (ref p w ≡ ok tt (record w { requests = h }))
      × Counted h (gain own p)
unfolding ref
request_ref_law w own p inv pos room =
    let (i, e, n) = Counted-live w.requests own p inv pos in
    let (r, c) = inc_ref-Counted w.requests own p i inv e room in (_, rw r, c)

pub request_unref_law :
    (w : World) (own : ℕ → ℕ) (p : ℕ)
    → Inv w own
    → 0 < own p
    → own p < long_mod
    → (h : Heap RequestBody) × (t : List Event) × (unref p w
        ≡ ok tt (record w { requests = h; trace = t }))
      × Counted h (lose own p)
request_unref_law w own p inv pos room =
    let (i, e, n) = Counted-live w.requests own p inv pos in
    elim (ℕ_discrete (own p) 1) [
      | yes last ↦ let (r, c) = unref_last w own p i inv e last in (_, _, r, c)
      | no more ↦ let (r, c) = unref_more w own p i inv e room (omega arith) in (_, w.trace, r, c)
    ]

-- Requests keep the laws of counted references: so every program over request variables keeps each
-- count equal to the number of variables, and deletes an instance with its last variable.
pub Request-Counting : Counting ref unref Inv
Request-Counting = record {
  ref_law =
      λ w own p inv pos room. let (h, r, c) = request_ref_law w own p inv pos room in (_, r, c);
  unref_law = λ w own p inv pos room.
      let (h, t, r, c) = request_unref_law w own p inv pos room in (_, r, c);
}

-- From request variables that the counts agree with, any sequence of copies, moves, assignments,
-- swaps and destructions runs to its end with no use of a deleted request and no exception, and the
-- counts agree with the variables again, as long as the variables are fewer than 2^64.
request-programs :
    (ops : List Operation) (w : World) (vars : List ℕ)
    → Inv w (referring vars)
    → length vars + length ops < long_mod
    → Keeps Request-Counting (length vars + length ops) (run ref unref ops vars w)
request-programs ops w vars inv room = run-Keeps Request-Counting ops w vars inv room

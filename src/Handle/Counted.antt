-- ===== src/Handle/Counted.antt =====
-- The invariant of the handles' counts and of the loops that they have booked.
use uvcc.Prelude.{
  ℕ, ◌+◌, ◌<◌, ◌≡◌, subst, fun_ext, List, some, arith, ◌==◌, if◌then◌else◌, sym, ap, ◌∙◌,
}
use uvcc.Utility.RefCount.{long_mod}
use uvcc.Runtime.{World, put, Heap, Instance, HandleBody, RequestBody, BufferBody, Event}
use uvcc.Runtime.Counts.{Counted}
use uvcc.References.Places.{count}
use uvcc.Handle.Bookings.{loop_of, bookings, bookings-put}

-- The counts of the handles' instances are the numbers `own` of references to them, and the count of
-- a loop's instance is the number `others` of references from elsewhere and of handles that have
-- booked it. The list holds each handle that has booked a loop once.
pub record IsCounted (others : ℕ → ℕ) (w : World) (own : ℕ → ℕ) (hs : List ℕ) : Type 0 where
  pub counted : Counted w.handles own
  pub listed : (p : ℕ) → count p hs ≡ (if loop_of (w.handles p) == 0 then 0 else 1)
  pub booked : Counted w.loops (λ l. others l + bookings w.handles hs l)
  pub small : (l : ℕ) → others l + bookings w.handles hs l < long_mod

abbrev pub Inv : (ℕ → ℕ) → World → (ℕ → ℕ) → Type 0
Inv others w own = (hs : List ℕ) × IsCounted others w own hs

-- A change of one handle's instance that leaves its booking leaves the bookings.
module _ (others : ℕ → ℕ) (w : World) (own : ℕ → ℕ) (p : ℕ) (i i' : Instance HandleBody)
    (hs : List ℕ) (inv : IsCounted others w own hs) (e : w.handles p ≡ some i)
    (same : i'.body.loop_instance_ptr ≡ i.body.loop_instance_ptr) where
  abbrev changed : Heap HandleBody
  changed = put w.handles p (some i')

  pub put-listed : (q : ℕ) → count q hs ≡ (if loop_of (changed q) == 0 then 0 else 1)
  put-listed q = ground (arith, inv.listed q)

  same-bookings : (l : ℕ) → bookings changed hs l ≡ bookings w.handles hs l
  same-bookings l = bookings-put w.handles p (some i') hs l (same ∙ ap loop_of (sym e))

  pub put-booked : Counted w.loops (λ l. others l + bookings changed hs l)
  put-booked = subst (Counted w.loops) (fun_ext λ l. ground (arith, same-bookings l)) inv.booked

  pub put-small : (l : ℕ) → others l + bookings changed hs l < long_mod
  put-small l = omega (arith, inv.small l, same-bookings l)

  pub put-IsCounted :
      (own' : ℕ → ℕ)
      → Counted changed own'
      → IsCounted others (record w { handles = changed }) own' hs
  put-IsCounted own' c = record {
    counted = c;
    listed = put-listed;
    booked = put-booked;
    small = put-small;
  }

-- A change of one handle's instance that leaves its count too keeps all counts.
pub modify-Inv :
    (others : ℕ → ℕ) (w : World) (own : ℕ → ℕ) (p : ℕ) (i i' : Instance HandleBody)
    → Inv others w own
    → w.handles p ≡ some i
    → i'.refs ≡ i.refs
    → i'.body.loop_instance_ptr ≡ i.body.loop_instance_ptr
    → Inv others (record w { handles = put w.handles p (some i') }) own
modify-Inv others w own p i i' (hs, inv) e refs same =
    (hs, put-IsCounted others w own p i i' hs inv e same own (λ q. ground (arith, inv.counted q)))

-- What the trace says does not matter to the counts.
pub trace-Inv :
    (others : ℕ → ℕ) (w : World) (own : ℕ → ℕ) (t : List Event)
    → Inv others w own
    → Inv others (record w { trace = t }) own
trace-Inv others w own t (hs, inv) = (
  hs,
  record { counted = inv.counted; listed = inv.listed; booked = inv.booked; small = inv.small },
)

-- Nor do the requests and the buffers.
pub rest-Inv :
    (others : ℕ → ℕ) (w : World) (own : ℕ → ℕ) (rs : Heap RequestBody) (bs : Heap BufferBody)
    (t : List Event)
    → Inv others w own
    → Inv others (record w { requests = rs; buffers = bs; trace = t }) own
rest-Inv others w own rs bs t (hs, inv) = (
  hs,
  record { counted = inv.counted; listed = inv.listed; booked = inv.booked; small = inv.small },
)

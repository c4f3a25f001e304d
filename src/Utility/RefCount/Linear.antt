-- ===== src/Utility/RefCount/Linear.antt =====
-- Every schedule of the counter's accesses acts as a sequence of whole `inc` and `dec` calls.
use uvcc.Prelude.{
  ℕ, ◌+◌, ◌-◌, ◌<◌, ◌≡◌, refl, ◌≢◌, Bool, ap, ℕ_discrete, List, [], ◌∷◌, ◌++◌, some, arith, All,
  ◌==◌, if◌then◌else◌,
}
use uvcc.Utility.RefCount.{
  Counter, Thread, idle, comparing, Event, incremented, decremented, Access, load, compare_exchange,
  fetch_sub, inc, dec, long_mod, step, run, exchange, load_count, exchange_count, subtract,
}

-- From the count `c` the calls of the list succeed one after another with the values that they
-- return, and leave the count `d`.
abbrev pub Accepts : ℕ → List Event → ℕ → Type 0
Accepts c [] d = c ≡ d
Accepts c (incremented v ∷ es) d = (inc c ≡ some v) × Accepts v es d
Accepts c (decremented v ∷ es) d = (dec c ≡ v) × Accepts v es d

Accepts-append :
    (es fs : List Event) (c d e : ℕ) → Accepts c es d → Accepts d fs e → Accepts c (es ++ fs) e
Accepts-append [] fs c d e h k = ground arith
Accepts-append (incremented v ∷ es) fs c d e h k = (h.0, Accepts-append es fs v d e h.1 k)
Accepts-append (decremented v ∷ es) fs c d e h k = (h.0, Accepts-append es fs v d e h.1 k)

exchange-Accepts :
    (s : Counter) (i c : ℕ) (spurious : Bool)
    → Accepts s.count (exchange s i c spurious).1 (exchange s i c spurious).0.count
unfolding exchange inc
exchange-Accepts s i c spurious = ground arith

load_count-Accepts :
    (s : Counter) (i : ℕ) (t : Thread)
    → Accepts s.count (load_count s i t).1 (load_count s i t).0.count
unfolding load_count
load_count-Accepts s i idle = refl
load_count-Accepts s i t = refl

exchange_count-Accepts :
    (s : Counter) (i : ℕ) (spurious : Bool) (t : Thread)
    → Accepts s.count (exchange_count s i spurious t).1 (exchange_count s i spurious t).0.count
unfolding exchange_count
exchange_count-Accepts s i spurious (comparing c) = exchange-Accepts s i c spurious
exchange_count-Accepts s i spurious t = refl

subtract-Accepts :
    (s : Counter) (i : ℕ) (t : Thread) → Accepts s.count (subtract s i t).1 (subtract s i t).0.count
unfolding subtract
subtract-Accepts s i idle = (refl, refl)
subtract-Accepts s i t = refl

step-Accepts : (s : Counter) (a : Access) → Accepts s.count (step s a).1 (step s a).0.count
unfolding step
step-Accepts s (load i) = load_count-Accepts s i (s.threads i)
step-Accepts s (compare_exchange i spurious) = exchange_count-Accepts s i spurious (s.threads i)
step-Accepts s (fetch_sub i) = subtract-Accepts s i (s.threads i)

-- Whatever the interleaving, spurious failures included, the completed calls in the order of their
-- effects are a run of the counter as a sequential object.
pub run-Accepts :
    (s : Counter) (accesses : List Access)
    → Accepts s.count (run s accesses).1 (run s accesses).0.count
unfolding run
run-Accepts s [] = refl
run-Accepts s (a ∷ rest) =
    Accepts-append (step s a).1 (run (step s a).0 rest).1 _ _ _ (step-Accepts s a)
      (run-Accepts (step s a).0 rest)

-- The calls that left the count at zero by decrementing it.
abbrev pub releases : List Event → ℕ
releases [] = 0
releases (incremented v ∷ es) = releases es
releases (decremented v ∷ es) = (if v == 0 then 1 else 0) + releases es

-- No decrement is of a reference that nobody holds, and no increment wraps round.
abbrev pub IsOwned : Event → Type 0
IsOwned (incremented v) = v ≢ 0
IsOwned (decremented v) = v ≢ long_mod - 1

nothing_after_zero :
    (es : List Event) (c d : ℕ) → c ≡ 0 → Accepts c es d → All IsOwned es → (d ≡ 0) × (es ≡ [])
unfolding inc dec
nothing_after_zero [] c d z h o = ground arith
nothing_after_zero (incremented v ∷ es) c d z h o = ground arith
nothing_after_zero (decremented v ∷ es) c d z h o = absurd (omega arith)

releases-Accepts :
    (es : List Event) (c d : ℕ)
    → 0 < c
    → c < long_mod
    → Accepts c es d
    → All IsOwned es
    → releases es ≡ (if d == 0 then 1 else 0)
unfolding inc dec
releases-Accepts [] c d pos small h o = ground arith
releases-Accepts (incremented v ∷ es) c d pos small h o =
    releases-Accepts es v d (ground arith) (ground arith) h.1 o.1
releases-Accepts (decremented v ∷ es) c d pos small h o = elim (ℕ_discrete v 0) [
  | yes z ↦
      let (dz, ez) = nothing_after_zero es v d z h.1 o.1 in
      let none_left : releases es ≡ 0 = ap releases ez in ground arith
  | no nz ↦ let rest = releases-Accepts es v d (omega arith) (omega arith) h.1 o.1 in ground arith
]

-- Of the calls of a schedule, from a positive count, exactly one decrement returns zero if the count
-- ends at zero and none does otherwise, so the object is released once. The schedule's decrements
-- are of references held and the count does not overflow.
pub run-releases :
    (s : Counter) (accesses : List Access)
    → 0 < s.count
    → s.count < long_mod
    → All IsOwned (run s accesses).1
    → releases (run s accesses).1 ≡ (if (run s accesses).0.count == 0 then 1 else 0)
run-releases s accesses pos small o =
    releases-Accepts (run s accesses).1 s.count (run s accesses).0.count pos small
      (run-Accepts s accesses) o

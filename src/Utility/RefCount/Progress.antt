-- ===== src/Utility/RefCount/Progress.antt =====
-- The loop of `inc` holds up no other thread.
use uvcc.Prelude.{ℕ, ◌≡◌, refl, ◌≢◌, ◌⊎◌, inl, inr, Bool, false, List, [], ◌∷◌, ◌++◌, arith, All}
use uvcc.Utility.RefCount.{
  Counter, Thread, idle, comparing, Event, Access, load, compare_exchange, fetch_sub, step, run,
  exchange, load_count, exchange_count, subtract,
}

-- The access is by another thread than `i`.
abbrev pub IsOfOther : ℕ → Access → Type 0
IsOfOther i (load j) = j ≢ i
IsOfOther i (compare_exchange j spurious) = j ≢ i
IsOfOther i (fetch_sub j) = j ≢ i

-- The thread has read the count that there is now.
abbrev pub Fresh : ℕ → Counter → Type 0
Fresh i s = (s.threads i ≡ comparing s.count) × (s.count ≢ 0)

load-Fresh : (s : Counter) (i j : ℕ) (t : Thread) → j ≢ i → Fresh i s → Fresh i (load_count s j t).0
unfolding load_count
load-Fresh s i j idle other (e, nz) = (ground (arith, e), nz)
load-Fresh s i j t other h = h

exchange-Fresh :
    (s : Counter) (i j : ℕ) (spurious : Bool) (t : Thread)
    → j ≢ i
    → Fresh i s
    → (exchange_count s j spurious t).1 ≡ []
    → Fresh i (exchange_count s j spurious t).0
unfolding exchange_count exchange
exchange-Fresh s i j spurious (comparing c) other (e, nz) quiet =
    (ground (arith, e, quiet, other), ground (arith, nz, quiet))
exchange-Fresh s i j spurious t other h quiet = h

subtract-Fresh :
    (s : Counter) (i j : ℕ) (t : Thread)
    → Fresh i s
    → (subtract s j t).1 ≡ []
    → Fresh i (subtract s j t).0
unfolding subtract
subtract-Fresh s i j idle h quiet = absurd (ground (arith, quiet))
subtract-Fresh s i j t h quiet = h

step-Fresh :
    (s : Counter) (i : ℕ) (a : Access)
    → IsOfOther i a
    → Fresh i s
    → (step s a).1 ≡ []
    → Fresh i (step s a).0
unfolding step
step-Fresh s i (load j) other h quiet = load-Fresh s i j (s.threads j) other h
step-Fresh s i (compare_exchange j b) other h quiet =
    exchange-Fresh s i j b (s.threads j) other h quiet
step-Fresh s i (fetch_sub j) other h quiet = subtract-Fresh s i j (s.threads j) h quiet

empty_or_not : (es : List Event) → (es ≡ []) ⊎ (es ≢ [])
empty_or_not [] = inl refl
empty_or_not (e ∷ es) = inr (λ h. ground (arith, h))

append_empty : (es fs : List Event) → es ++ fs ≡ [] → (es ≡ []) × (fs ≡ [])
append_empty [] fs h = (refl, h)
append_empty (e ∷ es) fs h = absurd (ground (arith, h))

-- A thread that has read the count, which is not zero, and exchanges it without a spurious failure
-- behind any accesses of other threads, has not gone round for nothing: a call has changed the count,
-- its own or another thread's.
pub run-progresses :
    (s : Counter) (i : ℕ) (accesses : List Access)
    → All (IsOfOther i) accesses
    → Fresh i s
    → (run s (accesses ++ (compare_exchange i false ∷ []))).1 ≢ []
unfolding run step exchange_count exchange
run-progresses s i [] others (e, nz) = rw e (λ h. ground (arith, h, nz))
run-progresses s i (a ∷ rest) (other, others) h = elim (empty_or_not (step s a).1) [
  | inl quiet ↦ λ h'.
      run-progresses (step s a).0 i rest others (step-Fresh s i a other h quiet)
        ((append_empty (step s a).1 _ h').1)
  | inr loud ↦ λ h'. loud ((append_empty (step s a).1 _ h').0)
]

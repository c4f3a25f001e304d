-- ===== src/Utility/Spinlock/Exclusion.antt =====
-- Mutual exclusion of the spin lock.
use uvcc.Prelude.{ℕ, ◌≡◌, refl, ◌≢◌, true, false, List, [], ◌∷◌, arith}
use uvcc.Utility.Spinlock.{
  Lock, Move, enter, test_and_set, clear, Thread, outside, spinning, holding, begin, attempt,
  unlock, step, run, init,
}

pub record Inv (s : Lock) : Type 0 where
  pub free : (i : ℕ) → s.flag ≡ false → s.threads i ≢ holding
  pub alone : (i j : ℕ) → s.threads i ≡ holding → s.threads j ≡ holding → i ≡ j

begin-Inv : (s : Lock) (i : ℕ) (t : Thread) → Inv s → Inv (begin s i t)
unfolding begin
begin-Inv s i outside v = record {
  free = λ j. ground (arith, v.free j);
  alone = λ j k. ground (arith, v.alone j k);
}
begin-Inv s i t v = v

attempt-Inv : (s : Lock) (i : ℕ) (t : Thread) → Inv s → Inv (attempt s i t)
unfolding attempt
attempt-Inv s i spinning v = record {
  free = λ j. ground (arith, v.free j);
  alone = λ j k. ground (arith, v.alone j k, v.free j, v.free k);
}
attempt-Inv s i t v = v

unlock-Inv : (s : Lock) (i : ℕ) (t : Thread) → s.threads i ≡ t → Inv s → Inv (unlock s i t)
unfolding unlock
unlock-Inv s i holding e v = record {
  free = λ j. ground (arith, v.alone i j);
  alone = λ j k. ground (arith, v.alone j k);
}
unlock-Inv s i t e v = v

step-Inv : (s : Lock) (m : Move) → Inv s → Inv (step s m)
unfolding step
step-Inv s (enter i) v = begin-Inv s i (s.threads i) v
step-Inv s (test_and_set i) v = attempt-Inv s i (s.threads i) v
step-Inv s (clear i) v = unlock-Inv s i (s.threads i) refl v

run-Inv : (s : Lock) (ms : List Move) → Inv s → Inv (run s ms)
unfolding run
run-Inv s [] v = v
run-Inv s (m ∷ ms) v = run-Inv (step s m) ms (step-Inv s m v)

init-Inv : Inv init
unfolding init
init-Inv = record { free = λ i e. cc; alone = λ i j. cc }

-- From a fresh lock, in every interleaving of `lock` and `unlock` calls, two threads that are
-- between the two calls are one thread, and the flag is set while there is one.
pub run-exclusive :
    (ms : List Move) (i j : ℕ)
    → (run init ms).threads i ≡ holding
    → ((run init ms).flag ≡ true) × ((run init ms).threads j ≡ holding → i ≡ j)
run-exclusive ms i j h =
    let v = run-Inv init ms init-Inv in (ground (arith, v.free i), v.alone i j h)

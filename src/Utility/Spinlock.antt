-- ===== src/Utility/Spinlock.antt =====
-- src/include/uvcc/utility.hpp, `spinlock`, used by threads that lock, work and unlock.
pub mod Exclusion
mod Tests
use uvcc.Prelude.{ℕ, Bool, true, false, List, [], ◌∷◌, ◌==◌, if◌then◌else◌}

-- Outside, in the loop of `lock`, or between `lock` and `unlock`.
pub data Thread : Type 0 where
  outside spinning holding : Thread

pub record Lock : Type 0 where
  pub flag : Bool
  pub threads : ℕ → Thread

pub data Move : Type 0 where
  enter : ℕ → Move
  test_and_set : ℕ → Move
  clear : ℕ → Move

abbrev pub put : (ℕ → Thread) → ℕ → Thread → ℕ → Thread
put f i t j = if j == i then t else f j

-- One turn of the loop of `lock`: the flag is set, and the loop ends if it was clear.
attempt : Lock → ℕ → Thread → Lock
attempt s i spinning = record s {
  flag = true;
  threads = put s.threads i (if s.flag then spinning else holding);
}
attempt s i t = s

unlock : Lock → ℕ → Thread → Lock
unlock s i holding = record s { flag = false; threads = put s.threads i outside }
unlock s i t = s

begin : Lock → ℕ → Thread → Lock
begin s i outside = record s { threads = put s.threads i spinning }
begin s i t = s

pub step : Lock → Move → Lock
unfolding attempt unlock begin
step s (enter i) = begin s i (s.threads i)
step s (test_and_set i) = attempt s i (s.threads i)
step s (clear i) = unlock s i (s.threads i)

pub run : Lock → List Move → Lock
unfolding step
run s [] = s
run s (m ∷ ms) = run (step s m) ms

pub init : Lock
init = record { flag = false; threads = λ _. outside }

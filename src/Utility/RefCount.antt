-- ===== src/Utility/RefCount.antt =====
-- src/include/uvcc/utility.hpp, `ref_count`. The count is a 64-bit `long`, held as its bit pattern.
-- Several threads may call `inc` and `dec`; a schedule is the list of their atomic accesses.
pub mod Linear
pub mod Progress
mod Tests
use uvcc.Prelude.{
  ℕ, ◌+◌, ◌-◌, ◌%◌, ◌^◌, Bool, true, false, not, ◌&&◌, List, [], ◌∷◌, ◌++◌, Option, none, some,
  ◌==◌, if◌then◌else◌,
}

abbrev pub long_mod : ℕ
long_mod = 2 ^ 64

-- A thread between two accesses of one call: before it, in the loop of `inc` with the value that
-- it compares with, after it with the value returned, or after the exception.
pub data Thread : Type 0 where
  idle : Thread
  comparing : ℕ → Thread
  returned : ℕ → Thread
  threw : Thread

pub record Counter : Type 0 where
  pub count : ℕ
  pub threads : ℕ → Thread

-- What changed the count, with the value that the call returns.
pub data Event : Type 0 where
  incremented : ℕ → Event
  decremented : ℕ → Event

-- An access by the thread of that number. The weak exchange may fail for no reason.
pub data Access : Type 0 where
  load : ℕ → Access
  compare_exchange : ℕ → (spurious : Bool) → Access
  fetch_sub : ℕ → Access

-- `inc` and `dec` with no other thread about; `none` is the exception.
unfoldable pub inc : ℕ → Option ℕ
inc c = if c == 0 then none else some ((c + 1) % long_mod)

unfoldable pub dec : ℕ → ℕ
dec c = (c + long_mod - 1) % long_mod

abbrev put : (ℕ → Thread) → ℕ → Thread → ℕ → Thread
put f i t j = if j == i then t else f j

exchange : Counter → ℕ → ℕ → Bool → Counter × List Event
exchange s i c spurious =
    if c == 0
    then (record s { threads = put s.threads i threw }, [])
    else if c == s.count && not spurious
    then (
      record s {
        count = (c + 1) % long_mod;
        threads = put s.threads i (returned ((c + 1) % long_mod));
      },
      incremented ((c + 1) % long_mod) ∷ [],
    )
    else (record s { threads = put s.threads i (comparing s.count) }, [])

load_count : Counter → ℕ → Thread → Counter × List Event
load_count s i idle = (record s { threads = put s.threads i (comparing s.count) }, [])
load_count s i t = (s, [])

exchange_count : Counter → ℕ → Bool → Thread → Counter × List Event
exchange_count s i spurious (comparing c) = exchange s i c spurious
exchange_count s i spurious t = (s, [])

subtract : Counter → ℕ → Thread → Counter × List Event
unfolding dec
subtract s i idle = (
  record s { count = dec s.count; threads = put s.threads i (returned (dec s.count)) },
  decremented (dec s.count) ∷ [],
)
subtract s i t = (s, [])

step : Counter → Access → Counter × List Event
unfolding load_count exchange_count exchange subtract
step s (load i) = load_count s i (s.threads i)
step s (compare_exchange i spurious) = exchange_count s i spurious (s.threads i)
step s (fetch_sub i) = subtract s i (s.threads i)

pub run : Counter → List Access → Counter × List Event
unfolding step
run s [] = (s, [])
run s (a ∷ rest) = let (s', es) = step s a in let (s'', fs) = run s' rest in (s'', es ++ fs)

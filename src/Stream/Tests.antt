-- ===== src/Stream/Tests.antt =====
-- Tests of streams.
use uvcc.Prelude.{
  ℕ, zero, suc, ◌-◌, ◌≡◌, refl, false, List, [], ◌∷◌, ◌++◌, some, leb, if◌then◌else◌, arith,
}
use uvcc.Prelude.Int.{pos, negsuc}
use uvcc.Runtime.{tcp, LibUv}
use uvcc.Runtime.Ends.{Ends}
use uvcc.Runtime.Fixtures.{owning}
use uvcc.Handle.Observed.{extra}
use uvcc.Handle.Fixtures.{booked, connected, nobody, connected-Inv}
use uvcc.Create.Constructors.{Created}
use uvcc.Create.Fixtures.{libuv, libuv-AllInitialise}
use uvcc.Stream.{accept}
use uvcc.Stream.Accepting.{of_tcp, accept-Created}
use uvcc.Stream.PipeName.{Answer, uv_enobufs, resize, pipe_name, IsNamed, pipe_name-pads}

-- libuv that refuses everything.
abbrev reluctant : LibUv
reluctant t c = negsuc 3

accept-Created_example :
    Ends
      (accept reluctant false 0 libuv false 1 2 connected)
      (λ c w'. (c ≡ 2) × Created nobody (extra (owning 1) 1 0) 1 2 w')
accept-Created_example =
    accept-Created reluctant false 0 libuv nobody (extra (owning 1) 1 0) 1 1 2 (omega arith)
      (ground arith) refl false ((libuv-AllInitialise 1 2).of_pipe false)
      (libuv-AllInitialise 1 2).of_tcp tcp connected booked of_tcp refl refl refl connected-Inv refl
      (_, refl, ground arith)

-- A name of 109 characters, which does not fit into the first buffer.
abbrev letters : ℕ → List ℕ
letters zero = []
letters (suc n) = 97 ∷ letters n

abbrev long_name : ℕ → Answer
long_name len =
    if leb 110 len
    then record { status = pos 0; size = 109; written = letters 109 }
    else record { status = uv_enobufs; size = 110; written = [] }

long_name-IsNamed : IsNamed (letters 109) 110 long_name
long_name-IsNamed = record {
  fits = omega arith;
  enough = λ len more. ground (arith, more);
  short = λ len less. ground (arith, less);
}

pipe_name-pads_example : pipe_name 2 long_name ≡ some (pos 0, letters 109 ++ resize (110 - 109) [])
pipe_name-pads_example = pipe_name-pads (letters 109) 110 long_name long_name-IsNamed 0

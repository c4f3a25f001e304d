-- ===== src/Transfer/Fixtures.antt =====
-- A world with a stream, a request and a buffer, for the tests of requests.
use uvcc.Prelude.{ℕ, false, [], ◌∷◌, arith}
use uvcc.Runtime.{World, HandleType, Rdcmd, M, pure}
use uvcc.Runtime.Fixtures.{one, owning, a_loop, a_handle, a_request, a_buffer}
use uvcc.Buffer.Sharing.{Sink, keeps}
use uvcc.Transfer.Counts.{Counts, Held}

abbrev pub nobody : ℕ → ℕ
nobody l = 0

-- A stream on a loop, a request and a buffer, each in one variable.
abbrev pub ready : World
ready = record {
  handles = one (a_handle 1 1 HandleType.tcp Rdcmd.stop);
  requests = one (a_request 1);
  loops = one (a_loop 1);
  buffers = one (a_buffer 1 false);
  trace = [];
}

pub ready-Counts : Counts nobody (owning 1) (owning 1) (owning 1) ready
ready-Counts = (
  (
    1 ∷ [],
    record {
      counted = λ p. ground arith;
      listed = λ p. ground arith;
      booked = λ l. ground arith;
      small = λ l. ground arith;
    },
  ),
  λ q. ground arith,
  λ c. ground arith,
  λ c i e. ground (arith, e),
)

abbrev pub nothing_saved : ℕ → Sink
nothing_saved c = keeps 0

abbrev pub idle : ℕ → M (Unit {0})
idle q = pure tt

pub held : Held (owning 1) 1
held = (omega arith, omega arith)

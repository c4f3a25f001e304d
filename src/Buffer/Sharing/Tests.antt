-- ===== src/Buffer/Sharing/Tests.antt =====
-- Tests of the buffers' lifetimes.
use uvcc.Prelude.{ℕ, ◌≡◌, refl, arith, true}
use uvcc.Runtime.{World, ok}
use uvcc.Runtime.Fixtures.{one, owning, empty, a_buffer}
use uvcc.Buffer.Sharing.{Sink, keeps, unref}
use uvcc.Buffer.Sharing.Lifetime.{Inv, with_count, unref_last-run_sink}

abbrev saves : ℕ → Sink
saves b = keeps 2

unref_last-run_sink_example :
    (w' : World) × (unref saves 1 (record empty { buffers = one (a_buffer 1 true) }) ≡ ok tt w')
    × Inv w' (with_count (owning 1) 1 2)
unref_last-run_sink_example =
    unref_last-run_sink saves (record empty { buffers = one (a_buffer 1 true) }) (owning 1) 1
      (a_buffer 1 true) (λ p. ground arith) refl refl refl (omega arith)

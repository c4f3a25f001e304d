-- ===== src/Buffer/Sharing.antt =====
-- src/include/uvcc/buffer.hpp: the counted instances of buffers, and the callback that can save one.
pub mod Lifetime
mod Tests
use uvcc.Prelude.{ℕ, zero, suc, Bool, Option, none, some, ◌∷◌, ◌==◌, if◌then◌else◌}
use uvcc.Runtime.{
  Instance, BufferBody, World, Run, ok, M, pure, ◌>>=◌, ◌>>◌, when, emit, put, inc_ref, dec_ref,
  lift, found, on_sink, deleted_buffer,
}

-- What the sink callback does with the variable that it is handed: it copies the variable `n` times
-- for later use, and leaves it or moves it out.
pub data Sink : Type 0 where
  keeps : ℕ → Sink
  moves : ℕ → Sink

abbrev pub load : ℕ → M (Instance BufferBody)
load b w = found (w.buffers b) λ i. ok i w

abbrev pub store : ℕ → Instance BufferBody → M (Unit {0})
store b i w = ok tt (record w { buffers = put w.buffers b (some i) })

pub ref : ℕ → M (Unit {0})
ref b w = lift (inc_ref w.buffers b) λ h. ok tt (record w { buffers = h })

pub dec : ℕ → M ℕ
dec b w = lift (dec_ref w.buffers b) λ (n, h). ok n (record w { buffers = h })

-- `delete this`.
abbrev pub delete : ℕ → M (Unit {0})
delete b w = ok tt (record w { buffers = put w.buffers b none; trace = deleted_buffer b ∷ w.trace })

pub ref_times : ℕ → ℕ → M (Unit {0})
ref_times zero b = pure tt
ref_times (suc n) b = do ref b; ref_times n b

-- `sink_cb(b)` and what follows it in `destroy`.
pub run_sink : ℕ → Sink → M (Unit {0})
run_sink b (keeps n) = do ref_times n b; m ← dec b; when (m == 0) (delete b)
run_sink b (moves n) = ref_times n b

module _ (sink : ℕ → Sink) where
  pub destroy : ℕ → M (Unit {0})
  destroy b = do
    i ← load b
    if i.body.has_sink_cb
        then (do store b (record i { refs = 1 }); emit (on_sink b); run_sink b (sink b))
        else delete b

  pub unref : ℕ → M (Unit {0})
  unref b = do n ← dec b; when (n == 0) (destroy b)

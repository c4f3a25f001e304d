-- ===== src/Io/Callbacks.antt =====
-- src/include/uvcc/handle-io.hpp, `io_alloc_cb` and `io_read_cb`, which libuv calls while a handle
-- reads. The callbacks of the user are parameters: `alloc_cb` gives the variable of a buffer,
-- `read_cb` also releases its parameter for the buffer. A buffer is named by its `uv_buf`;
-- `io_read_cb` finds it from the base of a buffer of one chunk, and gets 0 where libuv gives a null
-- base.
pub mod Dangling
mod Tests
use uvcc.Prelude.{ℕ, Bool, true, false, ◌∷◌, Option, none, some, ◌==◌, if◌then◌else◌}
use uvcc.Prelude.Int.{ℤ, pos, is_positive, ◌+ℤ◌}
use uvcc.Runtime.{Instance, HandleBody, World, Run, ok, throws, M, LibUv, pure, ◌>>=◌, ◌>>◌, when}
use uvcc.Handle.{load, set_status, ref, unref}
use uvcc.Buffer.Sharing
use uvcc.Buffer.Sharing.{Sink}
use uvcc.Io.{set_rdoffset}

module _ (uv : LibUv) (uncaught : Bool) (fuel : ℕ) where
  -- The buffer that libuv gets: a reference to it is kept for `io_read_cb`.
  pub io_alloc_cb : (sink : ℕ → Sink) (alloc_cb : ℕ → ℕ → M ℕ) → ℕ → ℕ → M ℕ
  io_alloc_cb sink alloc_cb p suggested_size = do
    i ← load p
    ref p
    b ←
        if i.body.has_alloc_cb
        then alloc_cb p (if i.body.rdsize == 0 then suggested_size else i.body.rdsize)
        else (λ _. throws)
    unref uv uncaught fuel p
    Sharing.ref b
    Sharing.unref sink b
    pure b

  -- `if (_nread > 0)  properties.rdoffset += _nread;`
  pub advance : ℕ → ℤ → M (Unit {0})
  advance p nread =
      when (is_positive nread) (do i ← load p; set_rdoffset p (i.body.rdoffset +ℤ nread))

  pub io_read_cb : (read_cb : ℕ → ℤ → ℕ → ℤ → M (Unit {0})) → ℕ → ℤ → ℕ → M (Unit {0})
  io_read_cb read_cb p nread b = do
    i ← load p
    _ ← set_status p nread
    if i.body.has_read_cb then (do ref p; read_cb p nread b i.body.rdoffset) else (λ _. throws)
    unref uv uncaught fuel p
    advance p nread

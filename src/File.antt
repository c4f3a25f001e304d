-- ===== src/File.antt =====
-- src/include/uvcc/handle-fs.hpp, `file`: reading from a file as a chain of requests, behind the
-- virtual functions of `io::uv_interface`.
pub mod Chain
mod Tests
use uvcc.Prelude.{ℕ, Bool, true, false, ◌∷◌, Option, none, some, ◌==◌, if◌then◌else◌}
use uvcc.Prelude.Int.{ℤ, pos, negsuc, is_negative, is_zero}
use uvcc.Runtime.{
  Instance, HandleBody, World, Run, ok, M, LibUv, pure, ◌>>=◌, ◌>>◌, when, call, lseek64,
  uv_fs_read, uv_fs_read_cleanup,
}
use uvcc.Handle.{load, store, set_status}
use uvcc.Buffer.Sharing
use uvcc.Buffer.Sharing.{Sink}
use uvcc.Io.{Interface, is_reading, set_rdoffset}
use uvcc.Io.Callbacks.{io_alloc_cb, io_read_cb}

-- `UV_EOF`.
abbrev pub uv_eof : ℤ
uv_eof = negsuc 4094

-- `properties.rd.uv_buf_struct`, with 0 for a null base.
pub set_rd_buf : ℕ → ℕ → M (Unit {0})
set_rd_buf p b = do i ← load p; store p (record i { body = record i.body { rd_buf = b } })

module _ (uv : LibUv) (uncaught : Bool) (fuel : ℕ) (sink : ℕ → Sink) (alloc_cb : ℕ → ℕ → M ℕ) where
  pub file_read : ℕ → M ℤ
  file_read p = do
    b ← io_alloc_cb uv uncaught fuel sink alloc_cb p 65536
    set_rd_buf p b
    i ← load p
    call uv (uv_fs_read p b i.body.rdoffset)

  -- `file::uv_interface`.
  unfoldable pub file_interface : Interface
  file_interface = record {
    read_start = λ p offset. do
      x ← if is_negative offset then call uv (lseek64 p) else pure offset
      set_rdoffset p x
      file_read p;
    read_stop = λ p. pure (pos 0);
  }

  -- The unused buffer is released on an error or at the end of the file.
  pub drop_buffer : ℕ → ℤ → M (Unit {0})
  drop_buffer p nread =
      when (is_negative nread) (do i ← load p; Sharing.unref sink i.body.rd_buf; set_rd_buf p 0)

  -- The next read of the chain.
  pub read_on : ℕ → M (Unit {0})
  read_on p = do
    i ← load p
    when (is_reading i.body.rdcmd_state) (do
      _ ← set_status p (pos 0)
      ret ← file_read p
      when (is_negative ret) (do _ ← set_status p ret; pure tt))

  -- `file::read_cb`, with the result of the request.
  pub file_read_cb : (read_cb : ℕ → ℤ → ℕ → ℤ → M (Unit {0})) → ℕ → ℤ → M (Unit {0})
  file_read_cb read_cb p result = do
    let nread = if is_zero result then uv_eof else result
    drop_buffer p nread
    i ← load p
    io_read_cb uv uncaught fuel read_cb p nread i.body.rd_buf
    _ ← call uv (uv_fs_read_cleanup p)
    read_on p

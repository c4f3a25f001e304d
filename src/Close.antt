-- ===== src/Close.antt =====
-- src/include/uvcc/request-fs.hpp, `fs::close`: the request that closes a file, which stops the reading
-- of the file first.
pub mod Steps
pub mod Balance
pub mod Again
mod Tests
use uvcc.Prelude.{ℕ, Bool, true, some, if◌then◌else◌}
use uvcc.Prelude.Int.{ℤ, pos}
use uvcc.Runtime.{M, LibUv, pure, ◌>>=◌, ◌>>◌, call, uv_fs_req_cleanup, uv_fs_close_file}
use uvcc.Handle
use uvcc.Handle.{update}
use uvcc.Request
use uvcc.Buffer.Sharing.{Sink}
use uvcc.Io
use uvcc.File.{file_interface}
use uvcc.Scheme.{save, now, undo_file, file_cb}

module _ (uv : LibUv) (uncaught : Bool) (fuel : ℕ) (sink : ℕ → Sink) (alloc_cb : ℕ → ℕ → M ℕ)
    (on_request : ℕ → M (Unit {0})) where
  -- `_file.read_stop()`, over the functions of a file.
  pub stop_reading : ℕ → M ℤ
  stop_reading p = Io.read_stop uv uncaught fuel (file_interface uv uncaught fuel sink alloc_cb) p

  -- `run` without a callback: synchronous.
  pub close_now : ℕ → ℕ → M ℤ
  close_now q p = do
    save (some p) q
    _ ← stop_reading p
    now uv uncaught fuel on_request q (uv_fs_close_file q p)

  -- `run` with a callback: reading is stopped behind the extra reference to the file.
  pub close_later : ℕ → ℕ → M ℤ
  close_later q p = do
    Handle.ref p
    Request.ref q
    save (some p) q
    _ ← stop_reading p
    Request.set_status q (pos 0)
    ret ← call uv (uv_fs_close_file q p)
    undo_file uv uncaught fuel on_request q p ret
    pure ret

  pub close : ℕ → ℕ → M ℤ
  close q p = do
    _ ← call uv (uv_fs_req_cleanup q)
    update (λ b. record b { is_closing = true }) p
    i ← Request.load q
    if i.body.has_request_cb then close_later q p else close_now q p

  unfoldable pub close_cb : ℕ → ℤ → M (Unit {0})
  close_cb = file_cb uv uncaught fuel on_request

-- ===== src/FileRead.antt =====
-- src/include/uvcc/request-fs.hpp, `fs::read`: the request that reads from a file to a buffer.
pub mod Balance
pub mod Completion
mod Tests
use uvcc.Prelude.{ℕ, Bool, if◌then◌else◌}
use uvcc.Prelude.Int.{ℤ, pos, is_negative}
use uvcc.Runtime.{M, LibUv, pure, ◌>>=◌, ◌>>◌, when, call, uv_fs_req_cleanup, uv_fs_read_into}
use uvcc.Handle
use uvcc.Request
use uvcc.Buffer.Sharing
use uvcc.Buffer.Sharing.{Sink}
use uvcc.Transfer.{hand_over}
use uvcc.FileWrite.{position, set_target, set_read}

module _ (uv : LibUv) (uncaught : Bool) (fuel : ℕ) (sink : ℕ → Sink)
    (on_request : ℕ → M (Unit {0})) where
  -- `run` without a callback: synchronous.
  pub read_now : ℕ → ℕ → ℕ → ℤ → M ℤ
  read_now q p b offset = do
    set_target q p offset
    ret ← call uv (uv_fs_read_into q p b offset)
    Request.set_status q ret
    pure ret

  -- The branch `if (uv_ret < 0)` of `run`.
  pub undo : ℕ → ℕ → ℕ → ℤ → M (Unit {0})
  undo q p b ret = when (is_negative ret) (do
    Request.set_status q ret
    Handle.unref uv uncaught fuel p
    Sharing.unref sink b
    Request.unref q)

  -- `run` with a callback.
  pub read_later : ℕ → ℕ → ℕ → ℤ → M ℤ
  read_later q p b offset = do
    Handle.ref p
    Sharing.ref b
    Request.ref q
    set_read q p b offset
    Request.set_status q (pos 0)
    ret ← call uv (uv_fs_read_into q p b offset)
    undo q p b ret
    pure ret

  pub read : ℕ → ℕ → ℕ → ℤ → M ℤ
  read q p b offset = do
    _ ← call uv (uv_fs_req_cleanup q)
    at ← position uv p offset
    i ← Request.load q
    if i.body.has_request_cb then read_later q p b at else read_now q p b at

  -- `read_cb`, with the result of the `uv_fs_t`.
  pub read_cb : ℕ → ℤ → M (Unit {0})
  read_cb q result = do
    Request.set_status q result
    i ← Request.load q
    hand_over uv uncaught fuel sink on_request q i.body.uv_buf i.body.has_request_cb
    Request.unref q
    Handle.unref uv uncaught fuel i.body.handle

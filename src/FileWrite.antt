-- ===== src/FileWrite.antt =====
-- src/include/uvcc/request-fs.hpp, `fs::write`: the request that writes a buffer to a file. The sum of
-- the lengths of the buffer's chunks is the argument `size`.
pub mod Steps
pub mod Balance
pub mod Completion
mod Tests
use uvcc.Prelude.{
  ℕ, ◌+◌, ◌-◌, ◌%◌, Bool, true, false, not, ◌∷◌, Option, none, some, ◌==◌, if◌then◌else◌,
}
use uvcc.Prelude.Int.{ℤ, pos, negsuc, is_negative}
use uvcc.Buffer.{size_mod}
use uvcc.Runtime.{
  Instance, HandleBody, RequestBody, World, Run, ok, M, LibUv, pure, ◌>>=◌, ◌>>◌, when, call,
  uv_fs_req_cleanup, uv_fs_write, uv_fs_try_write, lseek64,
}
use uvcc.Handle
use uvcc.Request
use uvcc.Transfer.{hand_over}
use uvcc.Buffer.Sharing
use uvcc.Buffer.Sharing.{Sink}

-- `UV_EAGAIN` on Linux.
abbrev pub uv_eagain : ℤ
uv_eagain = negsuc 10

-- The file and the offset kept in the request.
unfoldable pub set_target : ℕ → ℕ → ℤ → M (Unit {0})
set_target q p offset = do
  i ← Request.load q
  Request.store q (record i { body = record i.body { handle = p; offset = offset } })

-- What `fs::read` keeps in the request, and `fs::write`.
unfoldable pub set_read : ℕ → ℕ → ℕ → ℤ → M (Unit {0})
set_read q p b offset = do
  i ← Request.load q
  Request.store q (record i { body = record i.body { handle = p; uv_buf = b; offset = offset } })

pub set_write : ℕ → ℕ → ℕ → ℤ → ℕ → M (Unit {0})
set_write q p b offset size = do
  i ← Request.load q
  Request.store q (record i {
    body = record i.body { handle = p; uv_buf = b; offset = offset; pending_size = size };
  })

-- `write_queue_size += wr_size` and `-=` on `size_t`.
pub add_queued : ℕ → ℕ → M (Unit {0})
add_queued p size = do
  i ← Handle.load p
  Handle.store p (record i {
    body = record i.body { write_queue_size = (i.body.write_queue_size + size) % size_mod };
  })

pub sub_queued : ℕ → ℕ → M (Unit {0})
sub_queued p size = do
  i ← Handle.load p
  Handle.store p (record i {
    body = record i.body {
      write_queue_size = (i.body.write_queue_size + size_mod - size % size_mod) % size_mod;
    };
  })

-- A negative offset stands for the current position of the file.
pub position : LibUv → ℕ → ℤ → M ℤ
position uv p offset = if is_negative offset then call uv (lseek64 p) else pure offset

module _ (uv : LibUv) (uncaught : Bool) (fuel : ℕ) (sink : ℕ → Sink)
    (on_request : ℕ → M (Unit {0})) where
  -- `run` without a callback: synchronous.
  pub write_now : ℕ → ℕ → ℕ → ℤ → M ℤ
  write_now q p b offset = do
    set_target q p offset
    ret ← call uv (uv_fs_write q p b offset)
    Request.set_status q ret
    pure ret

  -- The branch `if (uv_ret < 0)` of `run`.
  pub undo : ℕ → ℕ → ℕ → ℕ → ℤ → M (Unit {0})
  undo q p b size ret = when (is_negative ret) (do
    Request.set_status q ret
    sub_queued p size
    Handle.unref uv uncaught fuel p
    Sharing.unref sink b
    Request.unref q)

  -- `run` with a callback.
  pub write_later : ℕ → ℕ → ℕ → ℕ → ℤ → M ℤ
  write_later q p b size offset = do
    Handle.ref p
    Sharing.ref b
    Request.ref q
    set_write q p b offset size
    add_queued p size
    Request.set_status q (pos 0)
    ret ← call uv (uv_fs_write q p b offset)
    undo q p b size ret
    pure ret

  pub write : ℕ → ℕ → ℕ → ℕ → ℤ → M ℤ
  write q p b size offset = do
    _ ← call uv (uv_fs_req_cleanup q)
    at ← position uv p offset
    i ← Request.load q
    if i.body.has_request_cb then write_later q p b size at else write_now q p b at

  pub try_write : ℕ → ℕ → ℕ → ℤ → M ℤ
  try_write q p b offset = do
    _ ← call uv (uv_fs_req_cleanup q)
    i ← Handle.load p
    if not (i.body.write_queue_size == 0)
        then (do Request.set_status q uv_eagain; pure uv_eagain)
        else (do
          at ← position uv p offset
          set_target q p at
          ret ← call uv (uv_fs_try_write p b at)
          Request.set_status q ret
          pure ret)

  -- `write_cb`, with the result of the `uv_fs_t`.
  unfoldable pub write_cb : ℕ → ℤ → M (Unit {0})
  write_cb q result = do
    Request.set_status q result
    i ← Request.load q
    sub_queued i.body.handle i.body.pending_size
    hand_over uv uncaught fuel sink on_request q i.body.uv_buf i.body.has_request_cb
    Request.unref q
    Handle.unref uv uncaught fuel i.body.handle

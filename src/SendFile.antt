-- ===== src/SendFile.antt =====
-- src/include/uvcc/request-fs.hpp, `fs::sendfile`: the request that copies from a file to an endpoint,
-- which may be a file, too, and the same one. The length is a `size_t`.
pub mod Steps
pub mod Balance
pub mod Completion
mod Tests
use uvcc.Prelude.{ℕ, Bool, true, false, ◌==◌, if◌then◌else◌}
use uvcc.Prelude.Int.{ℤ, pos, negsuc, is_negative}
use uvcc.Runtime.{
  M, LibUv, pure, ◌>>=◌, ◌>>◌, when, call, uv_fs_req_cleanup, uv_fs_sendfile, uv_fileno, uv_os_fd,
}
use uvcc.Handle
use uvcc.Handle.{is_file}
use uvcc.Request
use uvcc.FileWrite.{position, add_queued, sub_queued}
use uvcc.Output.{uv_ebadf}
use uvcc.Scheme.{now, notify_if}

abbrev pub is_minus_one : ℤ → Bool
is_minus_one (pos n) = false
is_minus_one (negsuc n) = n == 0

-- The two handles and the offset kept in the request.
pub set_files : ℕ → ℕ → ℕ → ℤ → M (Unit {0})
set_files q out p offset = do
  i ← Request.load q
  Request.store q
      (record i { body = record i.body { handle_out = out; handle = p; offset = offset } })

pub set_copy : ℕ → ℕ → ℕ → ℤ → ℕ → M (Unit {0})
set_copy q out p offset length = do
  i ← Request.load q
  Request.store q (record i {
    body = record i.body { handle_out = out; handle = p; offset = offset; pending_size = length };
  })

-- `if (_out.type() == UV_FILE)`, the size of the queue of the output file.
pub queue_file : ℕ → ℕ → M (Unit {0})
queue_file out length = do i ← Handle.load out; when (is_file i.body.type) (add_queued out length)

pub unqueue_file : ℕ → ℕ → M (Unit {0})
unqueue_file out length = do i ← Handle.load out; when (is_file i.body.type) (sub_queued out length)

module _ (uv : LibUv) where
  -- The descriptor of the endpoint. That of a file is the result of the opening, that of another
  -- handle is what libuv stores beside the status that it returns.
  pub descriptor : ℕ → M ℤ
  descriptor out = do
    i ← Handle.load out
    if is_file i.body.type then call uv (uv_os_fd out) else (do
      ret ← call uv (uv_fileno out)
      _ ← Handle.set_status out ret
      call uv (uv_os_fd out))

module _ (uv : LibUv) (uncaught : Bool) (fuel : ℕ) (on_request : ℕ → M (Unit {0})) where
  -- `run` without a callback: synchronous.
  pub copy_now : ℕ → ℕ → ℕ → ℕ → ℤ → M ℤ
  copy_now q out p length offset = do
    set_files q out p offset
    now uv uncaught fuel on_request q (uv_fs_sendfile q out p offset length)

  -- The branch `if (uv_ret < 0)` of `run`.
  pub undo_copy : ℕ → ℕ → ℕ → ℕ → ℤ → M (Unit {0})
  undo_copy q out p length ret = when (is_negative ret) (do
    Request.set_status q ret
    unqueue_file out length
    Handle.unref uv uncaught fuel out
    Handle.unref uv uncaught fuel p
    Request.unref q)

  -- `run` with a callback.
  pub copy_later : ℕ → ℕ → ℕ → ℕ → ℤ → M ℤ
  copy_later q out p length offset = do
    Handle.ref out
    Handle.ref p
    Request.ref q
    set_copy q out p offset length
    queue_file out length
    Request.set_status q (pos 0)
    ret ← call uv (uv_fs_sendfile q out p offset length)
    undo_copy q out p length ret
    pure ret

  pub copy_at : ℕ → ℕ → ℕ → ℕ → ℤ → M ℤ
  copy_at q out p length offset = do
    at ← position uv p offset
    i ← Request.load q
    if i.body.has_request_cb then copy_later q out p length at else copy_now q out p length at

  pub sendfile : ℕ → ℕ → ℕ → ℕ → ℤ → M ℤ
  sendfile q out p length offset = do
    _ ← call uv (uv_fs_req_cleanup q)
    fd ← descriptor uv out
    if is_minus_one fd then pure uv_ebadf else copy_at q out p length offset

  -- `sendfile_cb`, with the result of the `uv_fs_t`.
  unfoldable pub sendfile_cb : ℕ → ℤ → M (Unit {0})
  sendfile_cb q result = do
    Request.set_status q result
    i ← Request.load q
    unqueue_file i.body.handle_out i.body.pending_size
    notify_if uv uncaught fuel on_request i.body.has_request_cb q
    Request.unref q
    Handle.unref uv uncaught fuel i.body.handle
    Handle.unref uv uncaught fuel i.body.handle_out

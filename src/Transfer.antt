-- ===== src/Transfer.antt =====
-- src/include/uvcc/request-stream.hpp and request-udp.hpp: the requests that connect, write to and shut
-- down streams and send over UDP sockets. While libuv works on a request, references to it, to the
-- stream and to the buffer are held, taken by `run` and released by the callback. A callback gets the
-- pointers that libuv has kept in the request, `handle` and `send_handle`, as arguments.
pub mod Counts
pub mod Balance
pub mod Completion
pub mod Connection
pub mod Background
pub mod Taken
pub mod Fixtures
mod Tests
use uvcc.Prelude.{ℕ, Bool, true, false, ◌∷◌, Option, none, some, ◌==◌, if◌then◌else◌}
use uvcc.Prelude.Int.{ℤ, pos, is_negative}
use uvcc.Runtime.{
  Instance, RequestBody, World, Run, ok, M, LibUv, pure, ◌>>=◌, ◌>>◌, when, call, uv_tcp_connect,
  uv_pipe_connect, uv_write, uv_write2, uv_try_write, uv_shutdown, uv_udp_send, uv_udp_try_send,
  Call,
}
use uvcc.Handle
use uvcc.Request
use uvcc.Buffer.Sharing
use uvcc.Buffer.Sharing.{Sink}

-- `properties().uv_buf = _buf.uv_buf`.
pub set_buf : ℕ → ℕ → M (Unit {0})
set_buf q b = do
  i ← Request.load q
  Request.store q (record i { body = record i.body { uv_buf = b } })

-- `on_request` is the callback that the user has set, without the release of its parameters.
module _ (uv : LibUv) (uncaught : Bool) (fuel : ℕ) (sink : ℕ → Sink)
    (on_request : ℕ → M (Unit {0})) where
  abbrev unref_handle : ℕ → M (Unit {0})
  unref_handle p = Handle.unref uv uncaught fuel p

  abbrev unref_buffer : ℕ → M (Unit {0})
  unref_buffer b = Sharing.unref sink b

  -- The branch `if (uv_ret < 0)` of `connect::run` and `shutdown::run`.
  pub undo : ℕ → ℕ → ℤ → M (Unit {0})
  undo q p ret =
      when (is_negative ret) (do Request.set_status q ret; unref_handle p; Request.unref q)

  -- What `connect::run` for a TCP stream and `shutdown::run` have in common, around the call `c`.
  pub submit : ℕ → ℕ → Call → M ℤ
  submit q p c = do
    Handle.ref p
    Request.ref q
    Request.set_status q (pos 0)
    ret ← call uv c
    undo q p ret
    pure ret

  -- `connect::run` for a TCP stream.
  unfoldable pub connect_tcp : ℕ → ℕ → M ℤ
  connect_tcp q p = submit q p (uv_tcp_connect q p)

  -- `connect::run` for a pipe, which has no result.
  pub connect_pipe : ℕ → ℕ → M (Unit {0})
  connect_pipe q p = do Handle.ref p; Request.ref q; _ ← call uv (uv_pipe_connect q p); pure tt

  -- `shutdown::run`.
  unfoldable pub shutdown : ℕ → ℕ → M ℤ
  shutdown q p = submit q p (uv_shutdown q p)

  -- The callback of the user with a request variable as its parameter.
  pub notify : ℕ → M (Unit {0})
  notify q = do Request.ref q; on_request q; Request.unref q

  -- `connect_cb` and `shutdown_cb`, for the handle `p` of the request. The guards are released in the
  -- opposite order.
  pub finished_cb : ℕ → ℕ → ℤ → M (Unit {0})
  finished_cb q p status = do
    Request.set_status q status
    i ← Request.load q
    when i.body.has_request_cb (notify q)
    Request.unref q
    unref_handle p

  -- The branch `if (uv_ret < 0)` of `write::run`.
  pub undo_write : ℕ → ℕ → ℕ → ℤ → M (Unit {0})
  undo_write q p b ret =
      when (is_negative ret)
        (do Request.set_status q ret; unref_handle p; unref_buffer b; Request.unref q)

  -- What `write::run` and `udp_send::run` have in common, around the call `c`.
  pub transfer : ℕ → ℕ → ℕ → Call → M ℤ
  transfer q p b c = do
    Handle.ref p
    Sharing.ref b
    Request.ref q
    set_buf q b
    Request.set_status q (pos 0)
    ret ← call uv c
    undo_write q p b ret
    pure ret

  -- `write::run`.
  unfoldable pub write : ℕ → ℕ → ℕ → M ℤ
  write q p b = transfer q p b (uv_write q p b)

  -- `udp_send::run`, but for the address of the peer, which it copies for `getpeername`.
  unfoldable pub udp_send : ℕ → ℕ → ℕ → M ℤ
  udp_send q p b = transfer q p b (uv_udp_send q p b)

  -- The same branch where a handle is sent.
  pub undo_write2 : ℕ → ℕ → ℕ → ℕ → ℤ → M (Unit {0})
  undo_write2 q p b s ret =
      when (is_negative ret) (do
        Request.set_status q ret
        unref_handle p
        unref_buffer b
        unref_handle s
        Request.unref q)

  -- `write::run` with the handle `s` to be sent over a pipe.
  pub write2 : ℕ → ℕ → ℕ → ℕ → M ℤ
  write2 q p b s = do
    Handle.ref p
    Sharing.ref b
    Handle.ref s
    Request.ref q
    set_buf q b
    Request.set_status q (pos 0)
    ret ← call uv (uv_write2 q p b s)
    undo_write2 q p b s ret
    pure ret

  -- `udp_send::try_send`.
  pub try_send : ℕ → ℕ → ℕ → M ℤ
  try_send q p b = do ret ← call uv (uv_udp_try_send p b); Request.set_status q ret; pure ret

  -- `write::try_write`.
  pub try_write : ℕ → ℕ → ℕ → M ℤ
  try_write q p b = do ret ← call uv (uv_try_write p b); Request.set_status q ret; pure ret

  -- What `write_cb` does with the buffer: the reference goes with the parameter of the callback, or
  -- is released.
  pub hand_over : ℕ → ℕ → Bool → M (Unit {0})
  hand_over q b true = do Request.ref q; on_request q; unref_buffer b; Request.unref q
  hand_over q b false = unref_buffer b

  -- `write_cb` and `udp_send_cb`, for the handle `p` of the request.
  pub write_cb : ℕ → ℕ → ℤ → M (Unit {0})
  write_cb q p status = do
    Request.set_status q status
    i ← Request.load q
    hand_over q i.body.uv_buf i.body.has_request_cb
    Request.unref q
    unref_handle p

  -- `write2_cb`, for the handle `s` that was sent.
  pub write2_cb : ℕ → ℕ → ℕ → ℤ → M (Unit {0})
  write2_cb q p s status = do write_cb q p status; unref_handle s

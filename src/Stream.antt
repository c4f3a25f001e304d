-- ===== src/Stream.antt =====
-- src/include/uvcc/handle-stream.hpp: listening, accepting connections and handles, and the inquiries
-- about addresses, with the one of handle-udp.hpp. The callback of the user is a parameter.
pub mod Accepting
pub mod Names
pub mod PipeName
mod Tests
use uvcc.Prelude.{ℕ, Bool, not, ◌&&◌, leb, if◌then◌else◌}
use uvcc.Prelude.Int.{ℤ, pos, negsuc, is_negative, is_zero}
use uvcc.Runtime.{
  HandleType, named_pipe, tcp, tty, M, LibUv, pure, ◌>>=◌, ◌>>◌, when, call, uv_listen, uv_accept,
  uv_tcp_getsockname, uv_tcp_getpeername, uv_udp_getsockname,
}
use uvcc.Handle.{load, set_status}
use uvcc.Watch.{notify, set_event_cb}
use uvcc.Create.{construct}
use uvcc.Create.Classes.{Initialisers}

-- `UV_ENOTSUP` and `UV_EBADF` on Linux.
abbrev pub uv_enotsup : ℤ
uv_enotsup = negsuc 94

abbrev pub uv_ebadf : ℤ
uv_ebadf = negsuc 8

module _ (uv : LibUv) (uncaught : Bool) (fuel : ℕ) where
  -- `listen`; whether the callback is empty is given.
  pub listen : (backlog : ℕ) (connection_cb : Bool) → ℕ → M ℤ
  listen backlog connection_cb p = do
    set_event_cb connection_cb p
    _ ← set_status p (pos 0)
    ret ← call uv (uv_listen p backlog)
    if is_negative ret then (do _ ← set_status p ret; pure ret) else pure ret

  pub connection_cb : (user : ℕ → M (Unit {0})) (status : ℤ) → ℕ → M (Unit {0})
  connection_cb user status p = do _ ← set_status p status; notify uv uncaught fuel user p

  -- The end of `accept` and `accept_pending_handle`, from `if (!client)` on.
  pub take : (server client : ℕ) → M ℕ
  take server client = do
    j ← load client
    if is_negative j.uv_error then (do _ ← set_status server j.uv_error; pure client) else (do
      ret ← call uv (uv_accept server client)
      _ ← set_status server ret
      when (is_negative ret) (do _ ← set_status client ret; pure tt)
      pure client)

module _ (uv : LibUv) (uncaught : Bool) (fuel : ℕ) (inits : Initialisers) where
  -- The switch of `accept`; a variable that is void is the address 0. `ipc` is that of the server.
  pub accept_as : HandleType → (ipc : Bool) → (loop server client : ℕ) → M ℕ
  accept_as named_pipe ipc l server client = do
    _ ← construct uv uncaught fuel (inits.uv_pipe_init ipc) l client
    take uv uncaught fuel server client
  accept_as tcp ipc l server client = do
    _ ← construct uv uncaught fuel inits.uv_tcp_init l client
    take uv uncaught fuel server client
  accept_as tty ipc l server client = do _ ← set_status 0 uv_enotsup; take uv uncaught fuel server 0
  accept_as type ipc l server client = do _ ← set_status 0 uv_ebadf; take uv uncaught fuel server 0

  pub accept : (ipc : Bool) → (server client : ℕ) → M ℕ
  accept ipc server client = do i ← load server; accept_as i.body.type ipc i.body.loop server client

  -- The switch of `accept_pending_handle`.
  pub accept_pending_as : HandleType → (ipc : Bool) → (loop server client : ℕ) → M ℕ
  accept_pending_as named_pipe ipc l server client = do
    _ ← construct uv uncaught fuel (inits.uv_pipe_init ipc) l client
    take uv uncaught fuel server client
  accept_pending_as tcp ipc l server client = do
    _ ← construct uv uncaught fuel inits.uv_tcp_init l client
    take uv uncaught fuel server client
  accept_pending_as type ipc l server client = do
    _ ← set_status 0 uv_ebadf
    take uv uncaught fuel server 0

  -- `pending` is what `uv_pipe_pending_type` answers.
  pub accept_pending_handle : (pending : HandleType) (ipc : Bool) → (server client : ℕ) → M ℕ
  accept_pending_handle pending ipc server client = do
    i ← load server
    accept_pending_as pending ipc i.body.loop server client

module _ (uv : LibUv) where
  -- `getsockname` and `getpeername` of TCP sockets: `size` is that of the argument, `z` what libuv
  -- stores of the size of the address. The status is taken for a truth value.
  pub tcp_getsockname : (size z : ℕ) → ℕ → M Bool
  tcp_getsockname size z p = do
    r ← call uv (uv_tcp_getsockname p)
    s ← set_status p r
    pure (not (is_zero s) && leb z size)

  pub tcp_getpeername : (size z : ℕ) → ℕ → M Bool
  tcp_getpeername size z p = do
    r ← call uv (uv_tcp_getpeername p)
    s ← set_status p r
    pure (not (is_zero s) && leb z size)

  -- `getsockname` of UDP sockets.
  pub udp_getsockname : (size z : ℕ) → ℕ → M Bool
  udp_getsockname size z p = do
    r ← call uv (uv_udp_getsockname p)
    s ← set_status p r
    pure (not (is_negative s) && leb z size)

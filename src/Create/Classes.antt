-- ===== src/Create/Classes.antt =====
-- The constructors of the classes of handles.
use uvcc.Prelude.{ℕ, Bool, not}
use uvcc.Prelude.Int.{ℤ, is_negative}
use uvcc.Runtime.{
  M, LibUv, pure, ◌>>=◌, ◌>>◌, when, call, uv_timer_set_repeat, uv_tcp_open, uv_udp_open,
  uv_pipe_open, uv_pipe_bind,
}
use uvcc.Handle.{load, update, set_status, book_loop}
use uvcc.Create.{create, create_file, book_if, construct, set_blocking}

-- The functions of libuv that initialise a handle of a loop.
pub record Initialisers : Type 0 where
  pub uv_async_init : (loop handle : ℕ) → M ℤ
  pub uv_timer_init : (loop handle : ℕ) → M ℤ
  pub uv_idle_init : (loop handle : ℕ) → M ℤ
  pub uv_prepare_init : (loop handle : ℕ) → M ℤ
  pub uv_check_init : (loop handle : ℕ) → M ℤ
  pub uv_signal_init : (loop handle : ℕ) → M ℤ
  pub uv_poll_init : ℕ → (loop handle : ℕ) → M ℤ
  pub uv_fs_event_init : (loop handle : ℕ) → M ℤ
  pub uv_tcp_init : (loop handle : ℕ) → M ℤ
  pub uv_tcp_init_ex : ℕ → (loop handle : ℕ) → M ℤ
  pub uv_udp_init : (loop handle : ℕ) → M ℤ
  pub uv_udp_init_ex : ℕ → (loop handle : ℕ) → M ℤ
  pub uv_pipe_init : Bool → (loop handle : ℕ) → M ℤ
  pub uv_tty_init : ℕ → Bool → (loop handle : ℕ) → M ℤ
  pub uv_fs_open : (path : ℕ) → (loop handle : ℕ) → M ℤ

-- The result of a call of libuv becomes the status.
abbrev pub status_of : M ℤ → ℕ → M (Unit {0})
status_of m p = do r ← m; _ ← set_status p r; pure tt

module _ (uv : LibUv) (uncaught : Bool) (fuel : ℕ) (inits : Initialisers) where
  unfoldable pub async_create : ℕ → ℕ → M ℤ
  async_create = construct uv uncaught fuel inits.uv_async_init

  unfoldable pub timer_create : (repeat_interval : ℕ) → ℕ → ℕ → M ℤ
  timer_create repeat_interval l p = do
    create p
    ret ← inits.uv_timer_init l p
    _ ← set_status p ret
    when (not (is_negative ret))
        (do _ ← call uv (uv_timer_set_repeat p repeat_interval); book_loop uv uncaught fuel p)
    pure ret

  unfoldable pub idle_create : ℕ → ℕ → M ℤ
  idle_create = construct uv uncaught fuel inits.uv_idle_init

  unfoldable pub prepare_create : ℕ → ℕ → M ℤ
  prepare_create = construct uv uncaught fuel inits.uv_prepare_init

  unfoldable pub check_create : ℕ → ℕ → M ℤ
  check_create = construct uv uncaught fuel inits.uv_check_init

  unfoldable pub poll_create : (fd : ℕ) → ℕ → ℕ → M ℤ
  poll_create fd = construct uv uncaught fuel (inits.uv_poll_init fd)

  -- The properties are set between the call of libuv and the test of its result.
  unfoldable pub signal_create : (signum : ℤ) → ℕ → ℕ → M ℤ
  signal_create signum l p = do
    create p
    ret ← inits.uv_signal_init l p
    update (λ b. record b { signum = signum }) p
    book_if uv uncaught fuel p ret

  unfoldable pub fs_event_create : (event_flags : ℤ) → ℕ → ℕ → M ℤ
  fs_event_create event_flags l p = do
    create p
    ret ← inits.uv_fs_event_init l p
    update (λ b. record b { event_flags = event_flags }) p
    book_if uv uncaught fuel p ret

  unfoldable pub process_create : ℕ → ℕ → M (Unit {0})
  process_create l p = do
    create p
    update (λ b. record b { loop = l }) p
    book_loop uv uncaught fuel p

  unfoldable pub tcp_create : (flags : ℕ) → ℕ → ℕ → M ℤ
  tcp_create flags = construct uv uncaught fuel (inits.uv_tcp_init_ex flags)

  unfoldable pub tcp_open : (socket : ℕ) (blocking : Bool) → ℕ → ℕ → M (Unit {0})
  tcp_open socket blocking l p = do
    ret ← construct uv uncaught fuel inits.uv_tcp_init l p
    when (not (is_negative ret)) (do
      r ← call uv (uv_tcp_open p socket)
      _ ← set_status p r
      when (not (is_negative r)) (set_blocking uv uncaught fuel p blocking))

  unfoldable pub udp_create : (flags : ℕ) → ℕ → ℕ → M ℤ
  udp_create flags = construct uv uncaught fuel (inits.uv_udp_init_ex flags)

  unfoldable pub udp_open : (socket : ℕ) → ℕ → ℕ → M (Unit {0})
  udp_open socket l p = do
    ret ← construct uv uncaught fuel inits.uv_udp_init l p
    when (not (is_negative ret)) (status_of (call uv (uv_udp_open p socket)) p)

  unfoldable pub pipe_create : (ipc : Bool) → ℕ → ℕ → M ℤ
  pipe_create ipc = construct uv uncaught fuel (inits.uv_pipe_init ipc)

  unfoldable pub pipe_bind : (name : ℕ) (ipc : Bool) → ℕ → ℕ → M (Unit {0})
  pipe_bind name ipc l p = do
    _ ← pipe_create ipc l p
    i ← load p
    when (not (is_negative i.uv_error)) (status_of (call uv (uv_pipe_bind p name)) p)

  unfoldable pub pipe_open : (fd : ℕ) (ipc blocking : Bool) → ℕ → ℕ → M (Unit {0})
  pipe_open fd ipc blocking l p = do
    _ ← pipe_create ipc l p
    i ← load p
    when (not (is_negative i.uv_error)) (do
      r ← call uv (uv_pipe_open p fd)
      _ ← set_status p r
      when (not (is_negative r)) (set_blocking uv uncaught fuel p blocking))

  unfoldable pub tty_create : (fd : ℕ) (readable blocking : Bool) → ℕ → ℕ → M (Unit {0})
  tty_create fd readable blocking l p = do
    ret ← construct uv uncaught fuel (inits.uv_tty_init fd readable) l p
    when (not (is_negative ret)) (set_blocking uv uncaught fuel p blocking)

  -- The synchronous opening of a file.
  unfoldable pub file_open : (path : ℕ) → ℕ → ℕ → M ℤ
  file_open path l p = do
    create_file p
    ret ← inits.uv_fs_open path l p
    book_if uv uncaught fuel p ret

  -- A file of a descriptor.
  unfoldable pub file_of : (fd : ℤ) (path : ℕ) → ℕ → ℕ → M (Unit {0})
  file_of fd path l p = do
    create_file p
    update (λ b. record b { loop = l; result = fd; path = path; is_closing = is_negative fd }) p
    book_loop uv uncaught fuel p

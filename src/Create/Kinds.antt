-- ===== src/Create/Kinds.antt =====
-- Every constructor of the classes of handles, as one function of what is constructed.
use uvcc.Prelude.{ℕ, Bool}
use uvcc.Prelude.Int.{ℤ}
use uvcc.Runtime.{M, LibUv, pure, ◌>>=◌}
use uvcc.Create.Constructors.{Initialises}
use uvcc.Create.Classes.{
  Initialisers, async_create, timer_create, idle_create, prepare_create, check_create, poll_create,
  signal_create, fs_event_create, process_create, tcp_create, tcp_open, udp_create, udp_open,
  pipe_create, pipe_bind, pipe_open, tty_create, file_open, file_of,
}

-- Every initialiser does as documented.
pub record AllInitialise (inits : Initialisers) (l p : ℕ) : Type 0 where
  pub of_async : Initialises inits.uv_async_init l p
  pub of_timer : Initialises inits.uv_timer_init l p
  pub of_idle : Initialises inits.uv_idle_init l p
  pub of_prepare : Initialises inits.uv_prepare_init l p
  pub of_check : Initialises inits.uv_check_init l p
  pub of_signal : Initialises inits.uv_signal_init l p
  pub of_poll : (fd : ℕ) → Initialises (inits.uv_poll_init fd) l p
  pub of_fs_event : Initialises inits.uv_fs_event_init l p
  pub of_tcp : Initialises inits.uv_tcp_init l p
  pub of_tcp_ex : (flags : ℕ) → Initialises (inits.uv_tcp_init_ex flags) l p
  pub of_udp : Initialises inits.uv_udp_init l p
  pub of_udp_ex : (flags : ℕ) → Initialises (inits.uv_udp_init_ex flags) l p
  pub of_pipe : (ipc : Bool) → Initialises (inits.uv_pipe_init ipc) l p
  pub of_tty : (fd : ℕ) (readable : Bool) → Initialises (inits.uv_tty_init fd readable) l p
  pub of_file : (path : ℕ) → Initialises (inits.uv_fs_open path) l p

-- What is constructed, with the arguments besides the loop.
pub data Constructor : Type 0 where
  an_async an_idle a_prepare a_check a_process : Constructor
  a_timer : (repeat_interval : ℕ) → Constructor
  a_poll : (fd : ℕ) → Constructor
  a_signal : (signum : ℤ) → Constructor
  an_fs_event : (event_flags : ℤ) → Constructor
  a_tcp a_udp : (flags : ℕ) → Constructor
  a_tcp_socket : (socket : ℕ) (blocking : Bool) → Constructor
  a_udp_socket : (socket : ℕ) → Constructor
  a_pipe : (ipc : Bool) → Constructor
  a_named_pipe : (name : ℕ) (ipc : Bool) → Constructor
  a_pipe_fd : (fd : ℕ) (ipc blocking : Bool) → Constructor
  a_tty : (fd : ℕ) (readable blocking : Bool) → Constructor
  a_file : (path : ℕ) → Constructor
  a_file_fd : (fd : ℤ) (path : ℕ) → Constructor

-- The variable that the constructor leaves is all that the caller gets.
abbrev pub discard : M ℤ → M (Unit {0})
discard m = do _ ← m; pure tt

module _ (uv : LibUv) (uncaught : Bool) (fuel : ℕ) (inits : Initialisers) where
  unfoldable pub build : Constructor → (loop handle : ℕ) → M (Unit {0})
  build an_async l p = discard (async_create uv uncaught fuel inits l p)
  build an_idle l p = discard (idle_create uv uncaught fuel inits l p)
  build a_prepare l p = discard (prepare_create uv uncaught fuel inits l p)
  build a_check l p = discard (check_create uv uncaught fuel inits l p)
  build a_process l p = process_create uv uncaught fuel inits l p
  build (a_timer repeat_interval) l p =
      discard (timer_create uv uncaught fuel inits repeat_interval l p)
  build (a_poll fd) l p = discard (poll_create uv uncaught fuel inits fd l p)
  build (a_signal signum) l p = discard (signal_create uv uncaught fuel inits signum l p)
  build (an_fs_event event_flags) l p =
      discard (fs_event_create uv uncaught fuel inits event_flags l p)
  build (a_tcp flags) l p = discard (tcp_create uv uncaught fuel inits flags l p)
  build (a_udp flags) l p = discard (udp_create uv uncaught fuel inits flags l p)
  build (a_tcp_socket socket blocking) l p = tcp_open uv uncaught fuel inits socket blocking l p
  build (a_udp_socket socket) l p = udp_open uv uncaught fuel inits socket l p
  build (a_pipe ipc) l p = discard (pipe_create uv uncaught fuel inits ipc l p)
  build (a_named_pipe name ipc) l p = pipe_bind uv uncaught fuel inits name ipc l p
  build (a_pipe_fd fd ipc blocking) l p = pipe_open uv uncaught fuel inits fd ipc blocking l p
  build (a_tty fd readable blocking) l p =
      tty_create uv uncaught fuel inits fd readable blocking l p
  build (a_file path) l p = discard (file_open uv uncaught fuel inits path l p)
  build (a_file_fd fd path) l p = file_of uv uncaught fuel inits fd path l p

-- ===== src/Runtime.antt =====
-- The memory in which the reference-counted instances of handle-base.hpp, request-base.hpp, loop.hpp
-- and buffer.hpp live, the calls of libuv, and the monad of the code that uses them.
pub mod Counts
pub mod Fixtures
pub mod Ends
use uvcc.Prelude.{ℕ, Bool, true, false, List, [], ◌∷◌, Option, none, some, ◌==◌, if◌then◌else◌}
use uvcc.Prelude.Int.{ℤ, pos, negsuc}
use uvcc.Utility.RefCount.{inc, dec}

-- `uv_handle_type`.
pub data HandleType : Type 0 where
  unknown async check fs_event fs_poll idle named_pipe poll prepare process stream tcp timer tty udp
        signal file :
      HandleType

-- `uv_req_type`, with `req` for `UV_REQ`.
pub data RequestType : Type 0 where
  req connect write shutdown udp_send fs work getaddrinfo getnameinfo : RequestType

-- `io::rdcmd`.
pub data Rdcmd : Type 0 where
  unknown stop pause start resume : Rdcmd

-- `opcmd` of the handles that are started and stopped; START_ONESHOT is of signals only.
pub data Opcmd : Type 0 where
  unknown stop start start_oneshot : Opcmd

-- The fields of an instance that the classes have in common, and `body` for the others.
pub record Instance (B : Type 0) : Type 0 where
  pub refs : ℕ
  pub uv_error : ℤ
  pub has_destroy_cb : Bool
  pub body : B

-- The fields `loop_instance_ptr` and `io::properties` of a handle's instance, those that libuv
-- sets in the handle: its type, its loop, and the result of an `uv_fs_t`, and the properties of the
-- handles for events, with whether their callback is set; a path is a number.
pub record HandleBody : Type 0 where
  pub loop_instance_ptr : ℕ
  pub type : HandleType
  pub loop : ℕ
  pub result : ℤ
  pub rdcmd_state : Rdcmd
  pub rdsize : ℕ
  pub rdoffset : ℤ
  pub has_alloc_cb : Bool
  pub has_read_cb : Bool
  pub write_queue_size : ℕ
  pub rd_buf : ℕ
  pub opcmd_state : Opcmd
  pub has_extra_ref : Bool
  pub has_event_cb : Bool
  pub signum : ℤ
  pub event_flags : ℤ
  pub path : ℕ
  pub is_closing : Bool

-- The type, the callback, and the pointers and numbers that a request holds while libuv works on it.
pub record RequestBody : Type 0 where
  pub type : RequestType
  pub has_request_cb : Bool
  pub handle : ℕ
  pub send_handle : ℕ
  pub handle_out : ℕ
  pub uv_buf : ℕ
  pub offset : ℤ
  pub pending_size : ℕ
  pub output_offset : ℤ

pub record LoopBody : Type 0 where
  pub has_exit_cb : Bool

pub record BufferBody : Type 0 where
  pub has_sink_cb : Bool

-- The functions of libuv on files and paths, besides those that read and write.
pub data FsFunction : Type 0 where
  fsync fdatasync ftruncate stat lstat fstat chmod fchmod chown fchown utime futime unlink mkdir
        mkdtemp rmdir scandir rename access link symlink readlink realpath :
      FsFunction

-- The calls of libuv, by the pointers to the structures that they get.
pub data Call : Type 0 where
  uv_close : ℕ → Call
  uv_fs_close : ℤ → Call
  uv_fs_req_cleanup : ℕ → Call
  uv_loop_close : ℕ → Call
  uv_walk_open_handles : ℕ → Call
  uv_run_once : ℕ → Call
  uv_read_start uv_read_stop uv_udp_recv_start uv_udp_recv_stop : ℕ → Call
  lseek64 : ℕ → Call
  uv_fs_read : (handle buf : ℕ) → ℤ → Call
  uv_fs_read_cleanup : ℕ → Call
  uv_tcp_connect : (req handle : ℕ) → Call
  uv_pipe_connect : (req handle : ℕ) → Call
  uv_write : (req handle buf : ℕ) → Call
  uv_write2 : (req handle buf send_handle : ℕ) → Call
  uv_try_write : (handle buf : ℕ) → Call
  uv_shutdown : (req handle : ℕ) → Call
  uv_udp_send : (req handle buf : ℕ) → Call
  uv_udp_try_send : (handle buf : ℕ) → Call
  uv_fs_write : (req handle buf : ℕ) → ℤ → Call
  uv_fs_try_write : (handle buf : ℕ) → ℤ → Call
  uv_idle_start uv_idle_stop uv_prepare_start uv_prepare_stop uv_check_start uv_check_stop :
      ℕ → Call
  uv_poll_start : ℕ → ℤ → Call
  uv_poll_stop uv_signal_stop uv_fs_event_stop : ℕ → Call
  uv_signal_start : ℕ → ℤ → Call
  uv_fs_event_start : (handle path : ℕ) → ℤ → Call
  uv_timer_start : (handle timeout : ℕ) → ℤ → Call
  uv_timer_stop uv_timer_get_repeat uv_async_send : ℕ → Call
  uv_fs : FsFunction → (req handle : ℕ) → Call
  uv_fs_read_into : (req handle buf : ℕ) → ℤ → Call
  uv_fs_close_file : (req handle : ℕ) → Call
  uv_fileno uv_os_fd : ℕ → Call
  uv_spawn : ℕ → Call
  uv_process_kill : ℕ → ℤ → Call
  uv_fs_sendfile : (req out handle : ℕ) → ℤ → ℕ → Call
  uv_freeaddrinfo uv_getaddrinfo uv_getnameinfo uv_queue_work : (req : ℕ) → Call
  uv_timer_set_repeat : (handle interval : ℕ) → Call
  uv_stream_set_blocking : ℕ → Call
  uv_tcp_open uv_udp_open uv_pipe_open : (handle fd : ℕ) → Call
  uv_pipe_bind : (handle name : ℕ) → Call
  uv_accept : (server client : ℕ) → Call
  uv_listen : (handle backlog : ℕ) → Call
  uv_pipe_pending_type : ℕ → Call
  uv_tcp_getsockname uv_tcp_getpeername uv_udp_getsockname : ℕ → Call

-- What the program does that can be seen from outside: a call of libuv with its result, a callback
-- of the user, an instance deleted.
pub data Event : Type 0 where
  called : Call → ℤ → Event
  on_handle_destroy on_request_destroy on_loop_destroy on_sink : ℕ → Event
  deleted_handle deleted_request deleted_loop deleted_buffer : ℕ → Event
  on_request : (req : ℕ) → Event
  on_alloc : (handle size : ℕ) → Event
  on_read : (handle : ℕ) → (nread : ℤ) → (buf : ℕ) → (offset : ℤ) → Event
  on_write : (req buf : ℕ) → Event

-- libuv, as far as its answers go: an answer may depend on all that happened before, newest first.
abbrev pub LibUv : Type 0
LibUv = List Event → Call → ℤ

abbrev pub Heap : Type 0 → Type 0
Heap B = ℕ → Option (Instance B)

pub record World : Type 0 where
  pub handles : Heap HandleBody
  pub requests : Heap RequestBody
  pub loops : Heap LoopBody
  pub buffers : Heap BufferBody
  pub trace : List Event

-- The end of a piece of code: a result, the exception of `ref_count::inc` or of a loop's destructor,
-- undefined behaviour, as the use of a deleted instance is, or the fuel of a loop used up.
pub data Run {ℓ} (A : Type ℓ) : Type ℓ where
  ok : A → World → Run A
  throws : Run A
  fault : Run A
  out_of_fuel : Run A

abbrev pub M {ℓ} : Type ℓ → Type ℓ
M A = World → Run A

abbrev pub pure {ℓ} : {A : Type ℓ} → A → M A
pure a w = ok a w

abbrev pub and_then {ℓ κ} : {A : Type ℓ} {B : Type κ} → Run A → (A → M B) → Run B
and_then (ok a w) f = f a w
and_then throws f = throws
and_then fault f = fault
and_then out_of_fuel f = out_of_fuel

infixl 5 ◌>>=◌ ◌>>◌
abbrev pub ◌>>=◌ {ℓ κ} : {A : Type ℓ} {B : Type κ} → M A → (A → M B) → M B
◌>>=◌ m f w = and_then (m w) f

abbrev pub ◌>>◌ {ℓ} : {B : Type ℓ} → M (Unit {0}) → M B → M B
m >> k = m >>= λ _. k

abbrev pub when : Bool → M (Unit {0}) → M (Unit {0})
when true m = m
when false m = pure tt

-- A call of libuv: its result, which the trace keeps.
abbrev pub call : LibUv → Call → M ℤ
call uv c w = ok (uv w.trace c) (record w { trace = called c (uv w.trace c) ∷ w.trace })

abbrev pub emit : Event → M (Unit {0})
emit e w = ok tt (record w { trace = e ∷ w.trace })

-- What an operation on one heap makes: a result, the exception, or a fault.
pub data Outcome (A : Type 0) : Type 0 where
  done : A → Outcome A
  raised dangling : Outcome A

module _ {B : Type 0} where
  abbrev pub put : Heap B → ℕ → Option (Instance B) → Heap B
  put h p i q = if q == p then i else h q

  inc_instance : Heap B → ℕ → Instance B → Option ℕ → Outcome (Heap B)
  inc_instance h p i none = raised
  inc_instance h p i (some c) = done (put h p (some (record i { refs = c })))

  inc_at : Heap B → ℕ → Option (Instance B) → Outcome (Heap B)
  unfolding inc_instance
  inc_at h p none = dangling
  inc_at h p (some i) = inc_instance h p i (inc i.refs)

  -- `instance::from(p)->refs.inc()`.
  pub inc_ref : Heap B → ℕ → Outcome (Heap B)
  unfolding inc_at
  inc_ref h p = inc_at h p (h p)

  dec_at : Heap B → ℕ → Option (Instance B) → Outcome (ℕ × Heap B)
  dec_at h p none = dangling
  dec_at h p (some i) = done (dec i.refs, put h p (some (record i { refs = dec i.refs })))

  -- `instance::from(p)->refs.dec()`.
  pub dec_ref : Heap B → ℕ → Outcome (ℕ × Heap B)
  unfolding dec_at
  dec_ref h p = dec_at h p (h p)

-- An operation on one heap within a run.
abbrev pub lift : {A B : Type 0} → Outcome A → (A → Run B) → Run B
lift (done a) k = k a
lift raised k = throws
lift dangling k = fault

-- What reads an instance faults where there is none.
abbrev pub found {ℓ} : {I : Type 0} {A : Type ℓ} → Option I → (I → Run A) → Run A
found none k = fault
found (some i) k = k i

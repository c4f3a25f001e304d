-- ===== src/Create.antt =====
-- The constructors of handles: handle-base.hpp, `instance::create`, and the constructors of
-- handle-stream.hpp, handle-udp.hpp, handle-misc.hpp and handle-fs.hpp, which initialise a new handle
-- by libuv and book its loop. What the functions `uv_..._init` do is a parameter; a new instance gets
-- an address that is given, and is not in use.
pub mod Classes
pub mod Booking
pub mod Constructors
pub mod Kinds
pub mod Continuing
pub mod Complete
pub mod Opening
pub mod Opened
pub mod Fixtures
mod Tests
use uvcc.Prelude.{ℕ, Bool, true, false, not, if◌then◌else◌}
use uvcc.Prelude.Int.{ℤ, pos, is_negative}
use uvcc.Runtime.{
  Instance, HandleBody, HandleType, Rdcmd, Opcmd, M, LibUv, pure, ◌>>=◌, ◌>>◌, when, call,
  uv_stream_set_blocking,
}
use uvcc.Handle.{load, store, set_status, book_loop}

-- The properties as `property_storage.reset` makes them, and a structure of libuv that is zero.
abbrev pub fresh_body : HandleBody
fresh_body = record {
  loop_instance_ptr = 0;
  type = HandleType.unknown;
  loop = 0;
  result = pos 0;
  rdcmd_state = Rdcmd.unknown;
  rdsize = 0;
  rdoffset = pos 0;
  has_alloc_cb = false;
  has_read_cb = false;
  write_queue_size = 0;
  rd_buf = 0;
  opcmd_state = Opcmd.unknown;
  has_extra_ref = false;
  has_event_cb = false;
  signum = pos 0;
  event_flags = pos 0;
  path = 0;
  is_closing = false;
}

abbrev pub fresh : Instance HandleBody
fresh = record { refs = 1; uv_error = pos 0; has_destroy_cb = false; body = fresh_body }

-- `instance::create()` at the address `p`. The type is the one that the interface of the class shows:
-- that of the zero structure, and UV_FILE for a file.
unfoldable pub create : ℕ → M (Unit {0})
create p = store p fresh

unfoldable pub create_file : ℕ → M (Unit {0})
create_file p = store p (record fresh { body = record fresh_body { type = HandleType.file } })

module _ (uv : LibUv) (uncaught : Bool) (fuel : ℕ) where
  -- `if (uv_status(uv_ret) < 0)  return;` and the booking of the loop.
  unfoldable pub book_if : ℕ → ℤ → M ℤ
  book_if p ret = do
    _ ← set_status p ret
    when (not (is_negative ret)) (book_loop uv uncaught fuel p)
    pure ret

  -- A constructor: `init` is the function of libuv, which gets the loop and the handle.
  unfoldable pub construct : (init : ℕ → ℕ → M ℤ) → ℕ → ℕ → M ℤ
  construct init l p = do create p; ret ← init l p; book_if p ret

  -- `set_blocking` of a stream.
  unfoldable pub set_blocking : ℕ → Bool → M (Unit {0})
  set_blocking p enable =
      when enable (do r ← call uv (uv_stream_set_blocking p); _ ← set_status p r; pure tt)

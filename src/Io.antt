-- ===== src/Io.antt =====
-- src/include/uvcc/handle-io.hpp: the commands that start, stop, pause and resume reading, over the
-- virtual functions of `io::uv_interface`, and those functions for streams and UDP sockets
-- (handle-stream.hpp, handle-udp.hpp). Each command runs under the lock `rdstate_switch`, which its
-- end lets go of; the lock stands in the instance.
pub mod State
pub mod Commands
pub mod Table
pub mod Interfaces
pub mod Callbacks
mod Tests
use uvcc.Prelude.{ℕ, Bool, true, false, not, ◌&&◌, ◌∷◌, Option, none, some, ◌==◌, if◌then◌else◌}
use uvcc.Prelude.Int.{ℤ, pos, negsuc, is_negative}
use uvcc.Runtime.{
  Instance, HandleBody, Rdcmd, unknown, stop, pause, start, resume, World, Run, ok, M, LibUv, pure,
  ◌>>=◌, ◌>>◌, when, call, uv_read_start, uv_read_stop, uv_udp_recv_start, uv_udp_recv_stop,
}
use uvcc.Handle.{load, store, set_status, ref, unref}

-- `io::uv_interface`, the functions for reading.
pub record Interface : Type 0 where
  pub read_start : ℕ → ℤ → M ℤ
  pub read_stop : ℕ → M ℤ

-- `UV_EINVAL` on Linux.
abbrev pub uv_einval : ℤ
uv_einval = negsuc 21

-- The cases START and RESUME of the switches.
abbrev pub is_reading : Rdcmd → Bool
is_reading start = true
is_reading resume = true
is_reading state = false

abbrev pub is_paused : Rdcmd → Bool
is_paused pause = true
is_paused state = false

unfoldable pub set_state : ℕ → Rdcmd → M (Unit {0})
set_state p s = do i ← load p; store p (record i { body = record i.body { rdcmd_state = s } })

pub set_rdsize : ℕ → ℕ → M (Unit {0})
set_rdsize p n = do i ← load p; store p (record i { body = record i.body { rdsize = n } })

pub set_rdoffset : ℕ → ℤ → M (Unit {0})
set_rdoffset p n = do i ← load p; store p (record i { body = record i.body { rdoffset = n } })

-- The destructor of `lk`, which writes to the instance.
unfoldable pub unlock : ℕ → ℤ → M ℤ
unlock p r = do _ ← load p; pure r

module _ (uv : LibUv) where
  unfoldable pub stream_interface : Interface
  stream_interface = record {
    read_start = λ p offset. do
      when (not (is_negative offset)) (set_rdoffset p offset)
      call uv (uv_read_start p);
    read_stop = λ p. call uv (uv_read_stop p);
  }

  unfoldable pub udp_interface : Interface
  udp_interface = record {
    read_start = λ p offset. do
      when (not (is_negative offset)) (set_rdoffset p offset)
      call uv (uv_udp_recv_start p);
    read_stop = λ p. call uv (uv_udp_recv_stop p);
  }

module _ (uv : LibUv) (uncaught : Bool) (fuel : ℕ) (interface : Interface) where
  -- The end of `read_start` and `read_resume`, with the extra reference released on failure.
  pub finish_start : ℕ → ℤ → M ℤ
  finish_start p ret =
      if is_negative ret
      then (do _ ← set_status p ret; set_state p unknown; unref uv uncaught fuel p; pure ret)
      else pure ret

  pub stop_and_release : ℕ → M ℤ
  stop_and_release p = do
    r ← interface.read_stop p
    ret ← set_status p r
    unref uv uncaught fuel p
    pure ret

  -- The cases START and RESUME of the switch of `read_start`.
  pub restart : ℕ → Rdcmd → M (Unit {0})
  restart p s = when (is_reading s) (do _ ← stop_and_release p; pure tt)

  -- What `read_start` and `read_resume` have in common.
  pub launch : ℕ → ℤ → M ℤ
  launch p offset = do
    _ ← set_status p (pos 0)
    r ← interface.read_start p offset
    ret ← finish_start p r
    unlock p ret

  -- `read_start(_size, _offset)`.
  pub read_start : ℕ → ℕ → ℤ → M ℤ
  read_start p size offset = do
    i ← load p
    if not (i.body.has_alloc_cb && i.body.has_read_cb)
        then (do ret ← set_status p uv_einval; unlock p ret)
        else (do
          set_state p start
          ref p
          restart p i.body.rdcmd_state
          set_rdsize p size
          launch p offset)

  -- `read_start(_alloc_cb, _read_cb, _size, _offset)`; whether the two callbacks are empty is given.
  pub read_start_with : ℕ → (alloc_cb read_cb : Bool) → ℕ → ℤ → M ℤ
  read_start_with p alloc_cb read_cb size offset = do
    i ← load p
    store p (record i { body = record i.body { has_alloc_cb = alloc_cb; has_read_cb = read_cb } })
    read_start p size offset

  unfoldable pub read_stop : ℕ → M ℤ
  read_stop p = do
    i ← load p
    set_state p stop
    r ← interface.read_stop p
    ret ← set_status p r
    when (is_reading i.body.rdcmd_state) (unref uv uncaught fuel p)
    unlock p ret

  pub read_pause : ℕ → Bool → M ℤ
  read_pause p false = pure (pos 1)
  read_pause p true = do
    i ← load p
    if is_reading i.body.rdcmd_state
        then (do set_state p pause; ret ← stop_and_release p; unlock p ret)
        else unlock p (pos 2)

  pub read_resume : ℕ → Bool → M ℤ
  read_resume p false = pure (pos 1)
  read_resume p true = do
    i ← load p
    if is_paused i.body.rdcmd_state
        then (do set_state p resume; ref p; launch p i.body.rdoffset)
        else unlock p (pos 2)

-- A call of one of the commands, with its arguments.
pub data Command : Type 0 where
  starts : ℕ → ℤ → Command
  starts_with : (alloc_cb read_cb : Bool) → ℕ → ℤ → Command
  stops : Command
  pauses : Bool → Command
  resumes : Bool → Command

module _ (uv : LibUv) (uncaught : Bool) (fuel : ℕ) (interface : Interface) where
  pub command : Command → ℕ → M ℤ
  command (starts size offset) p = read_start uv uncaught fuel interface p size offset
  command (starts_with alloc_cb read_cb size offset) p =
      read_start_with uv uncaught fuel interface p alloc_cb read_cb size offset
  command stops p = read_stop uv uncaught fuel interface p
  command (pauses b) p = read_pause uv uncaught fuel interface p b
  command (resumes b) p = read_resume uv uncaught fuel interface p b

-- ===== src/Watch.antt =====
-- The handles that are started and stopped and call back while they are active:
-- src/include/uvcc/handle-misc.hpp, the classes idle, prepare, check, poll and signal, and
-- src/include/uvcc/handle-fs.hpp, the class fs_event. Their `start` and `stop` are the same text but
-- for the calls of libuv; `start_as` and `stop_as` are that text.
pub mod Notify
pub mod Classes
pub mod State
pub mod Machine
pub mod Callbacks
mod Tests
use uvcc.Prelude.{ℕ, Bool, true, false, if◌then◌else◌}
use uvcc.Prelude.Int.{ℤ, pos, is_negative}
use uvcc.Runtime.{HandleBody, Opcmd, M, LibUv, pure, ◌>>=◌, ◌>>◌, when}
use uvcc.Handle.{load, update, set_status, ref, unref}

-- The cases START and START_ONESHOT of the switches.
abbrev pub is_started : Opcmd → Bool
is_started Opcmd.start = true
is_started Opcmd.start_oneshot = true
is_started state = false

abbrev pub is_oneshot : Opcmd → Bool
is_oneshot Opcmd.start_oneshot = true
is_oneshot state = false

pub set_opcmd : Opcmd → ℕ → M (Unit {0})
set_opcmd s = update λ b. record b { opcmd_state = s }

unfoldable pub set_event_cb : Bool → ℕ → M (Unit {0})
set_event_cb c = update λ b. record b { has_event_cb = c }

module _ (uv : LibUv) (uncaught : Bool) (fuel : ℕ) where
  -- `if (uv_ret < 0)`: the extra reference is released on failure.
  pub start_result : ℕ → ℤ → M ℤ
  start_result p ret =
      if is_negative ret
      then (do _ ← set_status p ret; set_opcmd Opcmd.unknown p; unref uv uncaught fuel p; pure ret)
      else pure ret

  -- `start()`: `again` is what is done for a handle that has been started, besides the release of its
  -- extra reference, and `go` calls libuv.
  pub start_as : (again : ℕ → M (Unit {0})) (go : ℕ → M ℤ) → Opcmd → ℕ → M ℤ
  start_as again go s p = do
    i ← load p
    set_opcmd s p
    ref p
    when (is_started i.body.opcmd_state) (do again p; unref uv uncaught fuel p)
    _ ← set_status p (pos 0)
    ret ← go p
    start_result p ret

  -- `stop()`
  pub stop_as : (halt : ℕ → M ℤ) → ℕ → M ℤ
  stop_as halt p = do
    i ← load p
    set_opcmd Opcmd.stop p
    r ← halt p
    ret ← set_status p r
    when (is_started i.body.opcmd_state) (unref uv uncaught fuel p)
    pure ret

  -- `if (cb)  cb(handle)`, with the variable that is the parameter of the callback.
  unfoldable pub notify : (user : ℕ → M (Unit {0})) → ℕ → M (Unit {0})
  notify user p = do
    i ← load p
    when i.body.has_event_cb (do ref p; user p; unref uv uncaught fuel p)

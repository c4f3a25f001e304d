-- ===== src/Async.antt =====
-- src/include/uvcc/handle-misc.hpp, the class async: `send` takes a reference that `async_cb` releases.
pub mod Counts
mod Tests
use uvcc.Prelude.{ℕ, Bool, true, if◌then◌else◌}
use uvcc.Prelude.Int.{ℤ, pos, is_negative}
use uvcc.Runtime.{M, LibUv, pure, ◌>>=◌, ◌>>◌, call, uv_async_send}
use uvcc.Handle.{set_status, ref, unref}
use uvcc.Watch.{notify, set_event_cb}

module _ (uv : LibUv) (uncaught : Bool) (fuel : ℕ) where
  -- `if (uv_ret < 0)`
  pub send_result : ℕ → ℤ → M ℤ
  send_result p ret =
      if is_negative ret
      then (do _ ← set_status p ret; unref uv uncaught fuel p; pure ret)
      else pure ret

  pub send : ℕ → M ℤ
  send p = do ref p; _ ← set_status p (pos 0); ret ← call uv (uv_async_send p); send_result p ret

  pub send_with : ℕ → M ℤ
  send_with p = do set_event_cb true p; send p

  -- The guard `unref_handle` releases the reference behind the callback of the user.
  pub async_cb : (user : ℕ → M (Unit {0})) → ℕ → M (Unit {0})
  async_cb user p = do notify uv uncaught fuel user p; unref uv uncaught fuel p

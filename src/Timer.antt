-- ===== src/Timer.antt =====
-- src/include/uvcc/handle-misc.hpp, the class timer: `has_extra_ref` says whether the timer holds a
-- reference to itself.
pub mod State
pub mod Repeating
pub mod Fired
mod Tests
use uvcc.Prelude.{ℕ, Bool, true, false, not, ◌&&◌, if◌then◌else◌}
use uvcc.Prelude.Int.{ℤ, pos, is_negative, is_zero}
use uvcc.Runtime.{
  M, LibUv, pure, ◌>>=◌, ◌>>◌, when, call, uv_timer_start, uv_timer_stop, uv_timer_get_repeat,
}
use uvcc.Handle.{load, update, set_status, ref, unref}
use uvcc.Watch.{notify, set_event_cb}

pub set_extra_ref : Bool → ℕ → M (Unit {0})
set_extra_ref b = update λ x. record x { has_extra_ref = b }

module _ (uv : LibUv) (uncaught : Bool) (fuel : ℕ) where
  -- `if (uv_ret < 0)`
  pub start_result : ℕ → ℤ → M ℤ
  start_result p ret =
      if is_negative ret
      then (do _ ← set_status p ret; set_extra_ref false p; unref uv uncaught fuel p; pure ret)
      else pure ret

  -- `if (!properties.has_extra_ref)`
  pub acquire : ℕ → Bool → M (Unit {0})
  acquire p has = when (not has) (do ref p; set_extra_ref true p)

  -- `if (properties.has_extra_ref)`
  pub release : ℕ → Bool → M (Unit {0})
  release p has = when has (do set_extra_ref false p; unref uv uncaught fuel p)

  unfoldable pub start : (timeout : ℕ) → ℕ → M ℤ
  start timeout p = do
    i ← load p
    acquire p i.body.has_extra_ref
    _ ← set_status p (pos 0)
    repeat ← call uv (uv_timer_get_repeat p)
    ret ← call uv (uv_timer_start p timeout repeat)
    start_result p ret

  unfoldable pub start_with : (timeout : ℕ) → ℕ → M ℤ
  start_with timeout p = do set_event_cb true p; start timeout p

  unfoldable pub stop : ℕ → M ℤ
  stop p = do
    r ← call uv (uv_timer_stop p)
    ret ← set_status p r
    i ← load p
    release p i.body.has_extra_ref
    pure ret

  unfoldable pub timer_cb : (user : ℕ → M (Unit {0})) → ℕ → M (Unit {0})
  timer_cb user p = do
    repeat ← call uv (uv_timer_get_repeat p)
    i ← load p
    if is_zero repeat && i.body.has_extra_ref
        then (do notify uv uncaught fuel user p; unref uv uncaught fuel p)
        else notify uv uncaught fuel user p

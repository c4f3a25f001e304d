-- ===== src/EventLoop.antt =====
-- src/include/uvcc/loop.hpp: what runs a loop and walks over its handles. What `uv_run` does, with all
-- the callbacks that it makes, is a parameter, and so is the list of handles that `uv_walk` visits.
pub mod Run
pub mod Walk
mod Tests
use uvcc.Prelude.{ℕ, Bool, some, List, [], ◌∷◌}
use uvcc.Prelude.Int.{ℤ}
use uvcc.Runtime.{Instance, LoopBody, World, M, LibUv, pure, ◌>>=◌, ◌>>◌, when, put, ok}
use uvcc.Loop
use uvcc.Handle

store : ℕ → Instance LoopBody → M (Unit {0})
store l i w = ok tt (record w { loops = put w.loops l (some i) })

-- `uv_status(_value)`
pub set_status : ℕ → ℤ → M ℤ
unfolding store
set_status l r = do i ← Loop.load l; store l (record i { uv_error = r }); pure r

module _ (uv : LibUv) (uncaught : Bool) (fuel : ℕ) where
  -- `if (exit_cb)  exit_cb(loop(uv_loop));`
  pub notify_exit : (exit_cb : ℕ → M (Unit {0})) → ℕ → M (Unit {0})
  notify_exit exit_cb l = do
    i ← Loop.load l
    when i.body.has_exit_cb (do Loop.ref l; exit_cb l; Loop.unref uv uncaught fuel l)

  -- `run(_mode)`
  pub run : (uv_run : ℕ → M ℤ) (exit_cb : ℕ → M (Unit {0})) → ℕ → M ℤ
  run uv_run exit_cb l = do
    ret ← uv_run l
    uv_ret ← set_status l ret
    notify_exit exit_cb l
    pure uv_ret

  -- `walk_cb`, which makes a variable of the handle for the callback.
  pub walk_cb : (cb : ℕ → M (Unit {0})) → ℕ → M (Unit {0})
  walk_cb cb p = do Handle.ref p; cb p; Handle.unref uv uncaught fuel p

  -- `uv_walk(uv_loop, walk_cb, &cb)`
  pub walk : (cb : ℕ → M (Unit {0})) → List ℕ → M (Unit {0})
  walk cb [] = pure tt
  walk cb (p ∷ ps) = do walk_cb cb p; walk cb ps

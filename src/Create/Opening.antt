-- ===== src/Create/Opening.antt =====
-- src/include/uvcc/handle-fs.hpp: the constructor of `file` that opens it in the background.
use uvcc.Prelude.{ℕ, Bool, true, if◌then◌else◌}
use uvcc.Prelude.Int.{ℤ, pos, is_negative}
use uvcc.Runtime.{M, LibUv, pure, ◌>>=◌, ◌>>◌}
use uvcc.Handle.{load, set_status, ref, unref, book_loop}
use uvcc.Watch.{set_event_cb, notify}
use uvcc.Create.{create_file}
use uvcc.Create.Classes.{Initialisers, file_open}

module _ (uv : LibUv) (uncaught : Bool) (fuel : ℕ) where
  -- `if (uv_ret >= 0)` behind the call of libuv.
  unfoldable pub settle_open : ℕ → ℤ → M (Unit {0})
  settle_open p ret =
      if is_negative ret
      then (do _ ← set_status p ret; unref uv uncaught fuel p)
      else book_loop uv uncaught fuel p

  -- The constructor for a callback that is not empty.
  unfoldable pub open_later : Initialisers → (path : ℕ) → ℕ → ℕ → M ℤ
  open_later inits path l p = do
    create_file p
    ref p
    set_event_cb true p
    _ ← set_status p (pos 0)
    ret ← inits.uv_fs_open path l p
    settle_open p ret
    pure ret

  unfoldable pub file_open_with : Initialisers → (has_open_cb : Bool) (path : ℕ) → ℕ → ℕ → M ℤ
  file_open_with inits has_open_cb path l p =
      if has_open_cb then open_later inits path l p else file_open uv uncaught fuel inits path l p

  -- `open_cb`, with the guard of the reference that the constructor has taken.
  unfoldable pub open_cb : (user : ℕ → M (Unit {0})) → ℕ → M (Unit {0})
  open_cb user p = do
    i ← load p
    _ ← set_status p i.body.result
    notify uv uncaught fuel user p
    unref uv uncaught fuel p

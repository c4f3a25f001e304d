-- ===== src/Handle.antt =====
-- src/include/uvcc/handle-base.hpp: the counted instances of handles, their booking of a loop, and
-- how they are closed.
pub mod Bookings
pub mod Counted
pub mod Closing
pub mod Lifetime
pub mod Observed
pub mod Fixtures
mod Tests
use uvcc.Prelude.{ℕ, Bool, true, false, Option, none, some, ◌∷◌, not, ◌==◌, if◌then◌else◌}
use uvcc.Prelude.Int.{ℤ, pos, is_negative}
use uvcc.Runtime.{
  Instance, HandleBody, HandleType, World, Run, ok, M, LibUv, pure, ◌>>=◌, ◌>>◌, when, call, emit,
  put, inc_ref, dec_ref, lift, found, uv_close, uv_fs_close, uv_fs_req_cleanup, on_handle_destroy,
  deleted_handle,
}
use uvcc.Loop

abbrev pub load : ℕ → M (Instance HandleBody)
load p w = found (w.handles p) λ i. ok i w

abbrev pub store : ℕ → Instance HandleBody → M (Unit {0})
store p i w = ok tt (record w { handles = put w.handles p (some i) })

-- A change of the properties in place.
unfoldable pub update : (HandleBody → HandleBody) → ℕ → M (Unit {0})
update f p = do i ← load p; store p (record i { body = f i.body })

pub ref : ℕ → M (Unit {0})
ref p w = lift (inc_ref w.handles p) λ h. ok tt (record w { handles = h })

pub dec : ℕ → M ℕ
dec p w = lift (dec_ref w.handles p) λ (n, h). ok n (record w { handles = h })

-- `uv_status(_value)`, which returns the value.
unfoldable pub set_status : ℕ → ℤ → M ℤ
set_status p r = do i ← load p; store p (record i { uv_error = r }); pure r

abbrev pub is_unknown : HandleType → Bool
is_unknown HandleType.unknown = true
is_unknown t = false

abbrev pub is_file : HandleType → Bool
is_file HandleType.file = true
is_file t = false

-- The storage of the instance given back.
abbrev free : ℕ → M (Unit {0})
free p w = ok tt (record w { handles = put w.handles p none; trace = deleted_handle p ∷ w.trace })

module _ (uv : LibUv) (uncaught : Bool) (fuel : ℕ) where
  unfoldable pub unbook_loop : ℕ → M (Unit {0})
  unbook_loop p = do
    i ← load p
    let l = i.body.loop_instance_ptr
    when (not (l == 0)) (do
      Loop.unref uv uncaught fuel l
      store p (record i { body = record i.body { loop_instance_ptr = 0 } }))

  -- `loop_instance_ptr->ref()` of the loop that libuv has the handle on.
  unfoldable pub book_loop : ℕ → M (Unit {0})
  book_loop p = do
    unbook_loop p
    i ← load p
    store p (record i { body = record i.body { loop_instance_ptr = i.body.loop } })
    Loop.ref i.body.loop

  -- `delete instance_ptr`: the destructor lets go of the loop.
  pub delete : ℕ → M (Unit {0})
  delete p = do unbook_loop p; free p

  -- `uv_handle_interface::close_cb`.
  pub close_cb : ℕ → M (Unit {0})
  close_cb p = do i ← load p; when i.has_destroy_cb (emit (on_handle_destroy p)); delete p

  -- `uv_handle_interface::close`.
  pub close_handle : ℕ → M (Unit {0})
  close_handle p = do
    i ← load p
    when (not (is_unknown i.body.type)) (do _ ← call uv (uv_close p); pure tt)
    close_cb p

  -- `uv_fs_interface::close`.
  pub close_fs : ℕ → M (Unit {0})
  close_fs p = do
    i ← load p
    when (not (is_negative i.body.result)) (do _ ← call uv (uv_fs_close i.body.result); pure tt)
    when i.has_destroy_cb (emit (on_handle_destroy p))
    _ ← call uv (uv_fs_req_cleanup p)
    delete p

  -- `uv_interface_ptr->close(&uv_handle_struct)`.
  pub close : ℕ → M (Unit {0})
  close p = do i ← load p; if is_file i.body.type then close_fs p else close_handle p

  pub unref : ℕ → M (Unit {0})
  unref p = do n ← dec p; when (n == 0) (close p)

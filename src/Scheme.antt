-- ===== src/Scheme.antt =====
-- The scheme that the requests of request-fs.hpp, request-dns.hpp and request-misc.hpp share: without
-- a callback a request runs synchronously, with one it holds a reference to itself, and to the file
-- that it runs on, until its callback. Paths, modes, times and other arguments that only go to libuv
-- are left out.
pub mod Classes
pub mod Steps
pub mod Files
pub mod Callbacks
pub mod Truncate
pub mod Requests
pub mod OnPaths
pub mod OnFiles
mod Tests
use uvcc.Prelude.{ℕ, Bool, true, false, Option, none, some, ◌==◌, ◌&&◌, not, if◌then◌else◌}
use uvcc.Prelude.Int.{ℤ, pos, is_negative}
use uvcc.Runtime.{
  Instance, RequestBody, M, LibUv, Call, pure, ◌>>=◌, ◌>>◌, when, call, uv_fs_req_cleanup,
}
use uvcc.Handle
use uvcc.Request

-- `properties.uv_handle`, where the request has it: the file, or 0 for a path.
unfoldable pub save : Option ℕ → ℕ → M (Unit {0})
save none q = pure tt
save (some t) q = do
  i ← Request.load q
  Request.store q (record i { body = record i.body { handle = t } })

module _ (uv : LibUv) (uncaught : Bool) (fuel : ℕ) (on_request : ℕ → M (Unit {0})) where
  -- What a request gives up that it holds from an earlier run.
  pub clean : Option Call → M (Unit {0})
  clean none = pure tt
  clean (some c) = do _ ← call uv c; pure tt

  -- `return uv_status(...)`
  unfoldable pub now : ℕ → Call → M ℤ
  now q c = do ret ← call uv c; Request.set_status q ret; pure ret

  -- `if (uv_ret < 0)` for a request on a path.
  pub undo : ℕ → ℤ → M (Unit {0})
  undo q ret = when (is_negative ret) (do Request.set_status q ret; Request.unref q)

  pub later : Option ℕ → ℕ → Call → M ℤ
  later t q c = do
    Request.ref q
    save t q
    Request.set_status q (pos 0)
    ret ← call uv c
    undo q ret
    pure ret

  -- `run` of a request on a path, or on nothing that it holds.
  unfoldable pub run_on_path : Option Call → Option ℕ → ℕ → Call → M ℤ
  run_on_path before t q c = do
    clean before
    i ← Request.load q
    if i.body.has_request_cb then later t q c else (do save t q; now q c)

  -- `if (uv_ret < 0)` for a request on a file.
  pub undo_file : ℕ → ℕ → ℤ → M (Unit {0})
  undo_file q p ret =
      when (is_negative ret)
        (do Request.set_status q ret; Handle.unref uv uncaught fuel p; Request.unref q)

  pub later_file : ℕ → ℕ → Call → M ℤ
  later_file q p c = do
    Handle.ref p
    Request.ref q
    save (some p) q
    Request.set_status q (pos 0)
    ret ← call uv c
    undo_file q p ret
    pure ret

  -- `run` of a request on a file.
  unfoldable pub run_on_file : ℕ → ℕ → Call → M ℤ
  run_on_file q p c = do
    clean (some (uv_fs_req_cleanup q))
    i ← Request.load q
    if i.body.has_request_cb then later_file q p c else (do save (some p) q; now q c)

  -- `if (cb)  cb(request)`
  pub notify_if : Bool → ℕ → M (Unit {0})
  notify_if b q = when b (do Request.ref q; on_request q; Request.unref q)

  -- The callback of a request on a path, with the guard of the request.
  unfoldable pub path_cb : ℕ → ℤ → M (Unit {0})
  path_cb q result = do
    Request.set_status q result
    i ← Request.load q
    notify_if i.body.has_request_cb q
    Request.unref q

  -- The callback of a request on a file: the guards are released in the opposite order.
  unfoldable pub file_cb : ℕ → ℤ → M (Unit {0})
  file_cb q result = do
    Request.set_status q result
    i ← Request.load q
    notify_if i.body.has_request_cb q
    Request.unref q
    Handle.unref uv uncaught fuel i.body.handle

  -- The callback of a request on either, which tests `properties.uv_handle`.
  unfoldable pub either_cb : ℕ → ℤ → M (Unit {0})
  either_cb q result = do
    Request.set_status q result
    i ← Request.load q
    if i.body.handle == 0 then (do notify_if i.body.has_request_cb q; Request.unref q) else (do
      notify_if i.body.has_request_cb q
      Request.unref q
      Handle.unref uv uncaught fuel i.body.handle)

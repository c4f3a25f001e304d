-- ===== src/Scheme/Requests.antt =====
-- The requests of Scheme.Classes, as one function of the request.
use uvcc.Prelude.{ℕ, Bool, true, Option, none, some}
use uvcc.Prelude.Int.{ℤ}
use uvcc.Runtime.{M, LibUv}
use uvcc.Scheme.Classes.{
  sync, sync_cb, stat_path, stat_file, stat_cb, link, link_cb, getaddrinfo, getaddrinfo_cb,
  getnameinfo, getnameinfo_cb, work, after_work_cb, unlink, unlink_cb, mkdir, mkdir_cb, mkdtemp,
  mkdtemp_cb, rmdir, rmdir_cb, scandir, scandir_cb, rename, rename_cb, access, access_cb, readlink,
  readlink_cb, realpath, realpath_cb, chmod_path, chmod_file, chmod_cb, chown_path, chown_file,
  chown_cb, utime_path, utime_file, utime_cb,
}
use uvcc.Scheme.Truncate.{truncate, truncate_cb}

-- The requests on paths and on nothing.
pub data PathRequest : Type 0 where
  of_unlink of_mkdir of_mkdtemp of_rmdir of_scandir of_rename of_access of_readlink of_realpath :
      PathRequest
  of_stat : (follow_symlinks : Bool) → PathRequest
  of_chmod of_chown of_utime : PathRequest
  of_link : (symlink : Bool) → PathRequest
  of_getaddrinfo of_getnameinfo of_work : PathRequest

-- The requests on files.
pub data FileRequest : Type 0 where
  of_sync : (flush_all_metadata : Bool) → FileRequest
  of_fstat of_fchmod of_fchown of_futime : FileRequest
  of_truncate : (offset : ℤ) → FileRequest

-- Whether a request runs in the background, by whether it has a callback: a work always does.
abbrev pub in_background : PathRequest → Bool → Bool
in_background of_work set = true
in_background k set = set

-- What it keeps of a handle.
abbrev pub target : PathRequest → Option ℕ
target (of_stat follow_symlinks) = some 0
target of_chmod = some 0
target of_chown = some 0
target of_utime = some 0
target k = none

module _ (uv : LibUv) (uncaught : Bool) (fuel : ℕ) (on_request : ℕ → M (Unit {0})) where
  unfoldable pub run_path : PathRequest → ℕ → M ℤ
  run_path of_unlink = unlink uv uncaught fuel on_request
  run_path of_mkdir = mkdir uv uncaught fuel on_request
  run_path of_mkdtemp = mkdtemp uv uncaught fuel on_request
  run_path of_rmdir = rmdir uv uncaught fuel on_request
  run_path of_scandir = scandir uv uncaught fuel on_request
  run_path of_rename = rename uv uncaught fuel on_request
  run_path of_access = access uv uncaught fuel on_request
  run_path of_readlink = readlink uv uncaught fuel on_request
  run_path of_realpath = realpath uv uncaught fuel on_request
  run_path (of_stat follow_symlinks) = stat_path uv uncaught fuel on_request follow_symlinks
  run_path of_chmod = chmod_path uv uncaught fuel on_request
  run_path of_chown = chown_path uv uncaught fuel on_request
  run_path of_utime = utime_path uv uncaught fuel on_request
  run_path (of_link symlink) = link uv uncaught fuel on_request symlink
  run_path of_getaddrinfo = getaddrinfo uv uncaught fuel on_request
  run_path of_getnameinfo = getnameinfo uv uncaught fuel on_request
  run_path of_work = work uv uncaught fuel on_request

  unfoldable pub path_callback : PathRequest → ℕ → ℤ → M (Unit {0})
  path_callback of_unlink = unlink_cb uv uncaught fuel on_request
  path_callback of_mkdir = mkdir_cb uv uncaught fuel on_request
  path_callback of_mkdtemp = mkdtemp_cb uv uncaught fuel on_request
  path_callback of_rmdir = rmdir_cb uv uncaught fuel on_request
  path_callback of_scandir = scandir_cb uv uncaught fuel on_request
  path_callback of_rename = rename_cb uv uncaught fuel on_request
  path_callback of_access = access_cb uv uncaught fuel on_request
  path_callback of_readlink = readlink_cb uv uncaught fuel on_request
  path_callback of_realpath = realpath_cb uv uncaught fuel on_request
  path_callback (of_stat follow_symlinks) = stat_cb uv uncaught fuel on_request
  path_callback of_chmod = chmod_cb uv uncaught fuel on_request
  path_callback of_chown = chown_cb uv uncaught fuel on_request
  path_callback of_utime = utime_cb uv uncaught fuel on_request
  path_callback (of_link symlink) = link_cb uv uncaught fuel on_request
  path_callback of_getaddrinfo = getaddrinfo_cb uv uncaught fuel on_request
  path_callback of_getnameinfo = getnameinfo_cb uv uncaught fuel on_request
  path_callback of_work = after_work_cb uv uncaught fuel on_request

  unfoldable pub run_file : FileRequest → ℕ → ℕ → M ℤ
  run_file (of_sync flush_all_metadata) q p =
      sync uv uncaught fuel on_request flush_all_metadata q p
  run_file of_fstat q p = stat_file uv uncaught fuel on_request q p
  run_file of_fchmod q p = chmod_file uv uncaught fuel on_request q p
  run_file of_fchown q p = chown_file uv uncaught fuel on_request q p
  run_file of_futime q p = utime_file uv uncaught fuel on_request q p
  run_file (of_truncate offset) q p = truncate uv uncaught fuel on_request q p offset

  unfoldable pub file_callback : FileRequest → ℕ → ℤ → M (Unit {0})
  file_callback (of_sync flush_all_metadata) = sync_cb uv uncaught fuel on_request
  file_callback of_fstat = stat_cb uv uncaught fuel on_request
  file_callback of_fchmod = chmod_cb uv uncaught fuel on_request
  file_callback of_fchown = chown_cb uv uncaught fuel on_request
  file_callback of_futime = utime_cb uv uncaught fuel on_request
  file_callback (of_truncate offset) = truncate_cb uv uncaught fuel on_request

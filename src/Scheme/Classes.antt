-- ===== src/Scheme/Classes.antt =====
-- The requests of request-fs.hpp on files and paths, of request-dns.hpp, and `work` of
-- request-misc.hpp.
use uvcc.Prelude.{ℕ, Bool, none, some, if◌then◌else◌}
use uvcc.Prelude.Int.{ℤ}
use uvcc.Runtime.{
  M, LibUv, FsFunction, uv_fs, uv_fs_req_cleanup, uv_freeaddrinfo, uv_getaddrinfo, uv_getnameinfo,
  uv_queue_work,
}
use uvcc.Scheme.{run_on_path, run_on_file, later, path_cb, file_cb, either_cb}

module _ (uv : LibUv) (uncaught : Bool) (fuel : ℕ) (on_request : ℕ → M (Unit {0})) where
  -- A request of request-fs.hpp on a path: those that may also run on a file have a handle of 0.
  abbrev on_path : FsFunction → ℕ → M ℤ
  on_path f q =
      run_on_path uv uncaught fuel on_request (some (uv_fs_req_cleanup q)) none q (uv_fs f q 0)

  abbrev on_null : FsFunction → ℕ → M ℤ
  on_null f q =
      run_on_path uv uncaught fuel on_request (some (uv_fs_req_cleanup q)) (some 0) q (uv_fs f q 0)

  abbrev on_file : FsFunction → ℕ → ℕ → M ℤ
  on_file f q p = run_on_file uv uncaught fuel on_request q p (uv_fs f q p)

  unfoldable pub sync : (flush_all_metadata : Bool) → ℕ → ℕ → M ℤ
  sync flush_all_metadata q p =
      on_file (if flush_all_metadata then FsFunction.fsync else FsFunction.fdatasync) q p

  unfoldable pub sync_cb : ℕ → ℤ → M (Unit {0})
  sync_cb = file_cb uv uncaught fuel on_request

  unfoldable pub stat_path : (follow_symlinks : Bool) → ℕ → M ℤ
  stat_path follow_symlinks q =
      on_null (if follow_symlinks then FsFunction.stat else FsFunction.lstat) q

  unfoldable pub stat_file : ℕ → ℕ → M ℤ
  stat_file = on_file FsFunction.fstat

  unfoldable pub stat_cb : ℕ → ℤ → M (Unit {0})
  stat_cb = either_cb uv uncaught fuel on_request

  unfoldable pub chmod_path : ℕ → M ℤ
  chmod_path = on_null FsFunction.chmod

  unfoldable pub chmod_file : ℕ → ℕ → M ℤ
  chmod_file = on_file FsFunction.fchmod

  unfoldable pub chmod_cb : ℕ → ℤ → M (Unit {0})
  chmod_cb = either_cb uv uncaught fuel on_request

  unfoldable pub chown_path : ℕ → M ℤ
  chown_path = on_null FsFunction.chown

  unfoldable pub chown_file : ℕ → ℕ → M ℤ
  chown_file = on_file FsFunction.fchown

  unfoldable pub chown_cb : ℕ → ℤ → M (Unit {0})
  chown_cb = either_cb uv uncaught fuel on_request

  unfoldable pub utime_path : ℕ → M ℤ
  utime_path = on_null FsFunction.utime

  unfoldable pub utime_file : ℕ → ℕ → M ℤ
  utime_file = on_file FsFunction.futime

  unfoldable pub utime_cb : ℕ → ℤ → M (Unit {0})
  utime_cb = either_cb uv uncaught fuel on_request

  unfoldable pub unlink : ℕ → M ℤ
  unlink = on_path FsFunction.unlink

  unfoldable pub unlink_cb : ℕ → ℤ → M (Unit {0})
  unlink_cb = path_cb uv uncaught fuel on_request

  unfoldable pub mkdir : ℕ → M ℤ
  mkdir = on_path FsFunction.mkdir

  unfoldable pub mkdir_cb : ℕ → ℤ → M (Unit {0})
  mkdir_cb = path_cb uv uncaught fuel on_request

  unfoldable pub mkdtemp : ℕ → M ℤ
  mkdtemp = on_path FsFunction.mkdtemp

  unfoldable pub mkdtemp_cb : ℕ → ℤ → M (Unit {0})
  mkdtemp_cb = path_cb uv uncaught fuel on_request

  unfoldable pub rmdir : ℕ → M ℤ
  rmdir = on_path FsFunction.rmdir

  unfoldable pub rmdir_cb : ℕ → ℤ → M (Unit {0})
  rmdir_cb = path_cb uv uncaught fuel on_request

  unfoldable pub scandir : ℕ → M ℤ
  scandir = on_path FsFunction.scandir

  unfoldable pub scandir_cb : ℕ → ℤ → M (Unit {0})
  scandir_cb = path_cb uv uncaught fuel on_request

  unfoldable pub rename : ℕ → M ℤ
  rename = on_path FsFunction.rename

  unfoldable pub rename_cb : ℕ → ℤ → M (Unit {0})
  rename_cb = path_cb uv uncaught fuel on_request

  unfoldable pub access : ℕ → M ℤ
  access = on_path FsFunction.access

  unfoldable pub access_cb : ℕ → ℤ → M (Unit {0})
  access_cb = path_cb uv uncaught fuel on_request

  unfoldable pub link : (symlink : Bool) → ℕ → M ℤ
  link symlink q = on_path (if symlink then FsFunction.symlink else FsFunction.link) q

  unfoldable pub link_cb : ℕ → ℤ → M (Unit {0})
  link_cb = path_cb uv uncaught fuel on_request

  unfoldable pub readlink : ℕ → M ℤ
  readlink = on_path FsFunction.readlink

  unfoldable pub readlink_cb : ℕ → ℤ → M (Unit {0})
  readlink_cb = path_cb uv uncaught fuel on_request

  unfoldable pub realpath : ℕ → M ℤ
  realpath = on_path FsFunction.realpath

  unfoldable pub realpath_cb : ℕ → ℤ → M (Unit {0})
  realpath_cb = path_cb uv uncaught fuel on_request

  unfoldable pub getaddrinfo : ℕ → M ℤ
  getaddrinfo q =
      run_on_path uv uncaught fuel on_request (some (uv_freeaddrinfo q)) none q (uv_getaddrinfo q)

  unfoldable pub getaddrinfo_cb : ℕ → ℤ → M (Unit {0})
  getaddrinfo_cb = path_cb uv uncaught fuel on_request

  unfoldable pub getnameinfo : ℕ → M ℤ
  getnameinfo q = run_on_path uv uncaught fuel on_request none none q (uv_getnameinfo q)

  unfoldable pub getnameinfo_cb : ℕ → ℤ → M (Unit {0})
  getnameinfo_cb = path_cb uv uncaught fuel on_request

  -- `work::run`, which never runs synchronously; the task and its future are left out.
  unfoldable pub work : ℕ → M ℤ
  work q = later uv uncaught fuel on_request none q (uv_queue_work q)

  unfoldable pub after_work_cb : ℕ → ℤ → M (Unit {0})
  after_work_cb = path_cb uv uncaught fuel on_request

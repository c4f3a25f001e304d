-- ===== src/Scheme/OnPaths.antt =====
-- A request on a path that is run, and called back if it runs in the background, gives up all that it
-- takes.
use uvcc.Prelude.{
  ℕ, ◌<◌, ◌≡◌, refl, subst, inl, inr, Bool, not, ◌&&◌, none, some, arith, if◌then◌else◌, Bool-cases,
}
use uvcc.Prelude.Int.{ℤ, is_negative}
use uvcc.Runtime.{World, M, Run, LibUv, Instance, RequestBody, pure, uv_queue_work, ◌>>=◌}
use uvcc.Runtime.Counts.{gain, lose}
use uvcc.Runtime.Ends.{Ends, Ends-then, Ends-weaken}
use uvcc.Loop.Lifetime.{ClosesAll}
use uvcc.Transfer.Counts.{Counts, Held}
use uvcc.Transfer.Balance.{lose-gain}
use uvcc.Transfer.Completion.{Harmless}
use uvcc.Scheme.Steps.{Keeps, later_lem, run_on_path_lem}
use uvcc.Scheme.Callbacks.{path_cb_lem, null_cb_lem}
use uvcc.Scheme.Classes.{
  stat_path, stat_cb, link, link_cb, getaddrinfo, getaddrinfo_cb, getnameinfo, getnameinfo_cb, work,
  after_work_cb, unlink, unlink_cb, mkdir, mkdir_cb, mkdtemp, mkdtemp_cb, rmdir, rmdir_cb, scandir,
  scandir_cb, rename, rename_cb, access, access_cb, readlink, readlink_cb, realpath, realpath_cb,
  chmod_path, chmod_cb, chown_path, chown_cb, utime_path, utime_cb,
}
use uvcc.Scheme.Requests.{
  PathRequest, in_background, target, run_path, path_callback, of_unlink, of_mkdir, of_mkdtemp,
  of_rmdir, of_scandir, of_rename, of_access, of_readlink, of_realpath, of_stat, of_chmod, of_chown,
  of_utime, of_link, of_getaddrinfo, of_getnameinfo, of_work,
}

module _ (others : ℕ → ℕ) (uv : LibUv) (uncaught : Bool) (fuel : ℕ) (on_request : ℕ → M (Unit {0}))
    (shut : ClosesAll uv) (user : Harmless others on_request) (h r b : ℕ → ℕ) (q : ℕ)
    (in_q : 0 < r q) (held_q : Held (gain r q) q) where
  abbrev held : Held r q
  held = (in_q, ground (arith, held_q))

  work_lem :
      (w : World) (i : Instance RequestBody)
      → Counts others h r b w
      → w.requests q ≡ some i
      → Ends (work uv uncaught fuel on_request q w) (λ ret w'.
        if not (is_negative ret)
        then Keeps others h (gain r q) b q none w'
        else Counts others h r b w')
  unfolding work
  work_lem w i counts e =
      Ends-weaken _ _ _
        (later_lem others uv uncaught fuel on_request h r b q held none w (uv_queue_work q) counts)
        λ ret w' h'. elim (Bool-cases (is_negative ret)) [
          | inl neg ↦ rw neg (rw neg at h')
          | inr good ↦ rw good (rw good at h')
        ]

  -- What `run` of each request on a path leaves.
  run_path_lem :
      (k : PathRequest) (w : World) (i : Instance RequestBody)
      → Counts others h r b w
      → w.requests q ≡ some i
      → Ends (run_path uv uncaught fuel on_request k q w) (λ ret w'.
        if in_background k i.body.has_request_cb && not (is_negative ret)
        then Keeps others h (gain r q) b q (target k) w'
        else Counts others h r b w')
  unfolding run_path unlink mkdir mkdtemp rmdir scandir rename access readlink realpath stat_path
      chmod_path chown_path utime_path link getaddrinfo getnameinfo
  run_path_lem of_unlink w i =
      run_on_path_lem others uv uncaught fuel on_request h r b q held _ none w i _
  run_path_lem of_mkdir w i =
      run_on_path_lem others uv uncaught fuel on_request h r b q held _ none w i _
  run_path_lem of_mkdtemp w i =
      run_on_path_lem others uv uncaught fuel on_request h r b q held _ none w i _
  run_path_lem of_rmdir w i =
      run_on_path_lem others uv uncaught fuel on_request h r b q held _ none w i _
  run_path_lem of_scandir w i =
      run_on_path_lem others uv uncaught fuel on_request h r b q held _ none w i _
  run_path_lem of_rename w i =
      run_on_path_lem others uv uncaught fuel on_request h r b q held _ none w i _
  run_path_lem of_access w i =
      run_on_path_lem others uv uncaught fuel on_request h r b q held _ none w i _
  run_path_lem of_readlink w i =
      run_on_path_lem others uv uncaught fuel on_request h r b q held _ none w i _
  run_path_lem of_realpath w i =
      run_on_path_lem others uv uncaught fuel on_request h r b q held _ none w i _
  run_path_lem (of_link symlink) w i =
      run_on_path_lem others uv uncaught fuel on_request h r b q held _ none w i _
  run_path_lem (of_stat follow_symlinks) w i =
      run_on_path_lem others uv uncaught fuel on_request h r b q held _ (some 0) w i _
  run_path_lem of_chmod w i =
      run_on_path_lem others uv uncaught fuel on_request h r b q held _ (some 0) w i _
  run_path_lem of_chown w i =
      run_on_path_lem others uv uncaught fuel on_request h r b q held _ (some 0) w i _
  run_path_lem of_utime w i =
      run_on_path_lem others uv uncaught fuel on_request h r b q held _ (some 0) w i _
  run_path_lem of_getaddrinfo w i =
      run_on_path_lem others uv uncaught fuel on_request h r b q held _ none w i _
  run_path_lem of_getnameinfo w i =
      run_on_path_lem others uv uncaught fuel on_request h r b q held _ none w i _
  run_path_lem of_work w i = work_lem w i

  -- The reference that `run` took, given back.
  back :
      (x : Run (Unit {0}))
      → Ends x (λ _ w'. Counts others h (lose (gain r q) q) b w')
      → Ends x (λ _ w'. Counts others h r b w')
  back x ends =
      Ends-weaken _ _ _ ends λ _ w' h'. subst (λ o. Counts others h o b w') (lose-gain r q) h'

  -- What the callback of each leaves.
  path_callback_lem :
      (k : PathRequest) (w : World) (result : ℤ)
      → Keeps others h (gain r q) b q (target k) w
      → Ends
          (path_callback uv uncaught fuel on_request k q result w)
          (λ _ w'. Counts others h r b w')
  unfolding path_callback unlink_cb mkdir_cb mkdtemp_cb rmdir_cb scandir_cb rename_cb access_cb
      readlink_cb realpath_cb chmod_cb chown_cb utime_cb stat_cb link_cb getaddrinfo_cb
      getnameinfo_cb after_work_cb
  path_callback_lem of_unlink w result keeps = back _ (
      path_cb_lem others uv uncaught fuel on_request shut user h (gain r q) b q held_q w result
        keeps.0)
  path_callback_lem of_mkdir w result keeps = back _ (
      path_cb_lem others uv uncaught fuel on_request shut user h (gain r q) b q held_q w result
        keeps.0)
  path_callback_lem of_mkdtemp w result keeps = back _ (
      path_cb_lem others uv uncaught fuel on_request shut user h (gain r q) b q held_q w result
        keeps.0)
  path_callback_lem of_rmdir w result keeps = back _ (
      path_cb_lem others uv uncaught fuel on_request shut user h (gain r q) b q held_q w result
        keeps.0)
  path_callback_lem of_scandir w result keeps = back _ (
      path_cb_lem others uv uncaught fuel on_request shut user h (gain r q) b q held_q w result
        keeps.0)
  path_callback_lem of_rename w result keeps = back _ (
      path_cb_lem others uv uncaught fuel on_request shut user h (gain r q) b q held_q w result
        keeps.0)
  path_callback_lem of_access w result keeps = back _ (
      path_cb_lem others uv uncaught fuel on_request shut user h (gain r q) b q held_q w result
        keeps.0)
  path_callback_lem of_readlink w result keeps = back _ (
      path_cb_lem others uv uncaught fuel on_request shut user h (gain r q) b q held_q w result
        keeps.0)
  path_callback_lem of_realpath w result keeps = back _ (
      path_cb_lem others uv uncaught fuel on_request shut user h (gain r q) b q held_q w result
        keeps.0)
  path_callback_lem of_getaddrinfo w result keeps = back _ (
      path_cb_lem others uv uncaught fuel on_request shut user h (gain r q) b q held_q w result
        keeps.0)
  path_callback_lem of_getnameinfo w result keeps = back _ (
      path_cb_lem others uv uncaught fuel on_request shut user h (gain r q) b q held_q w result
        keeps.0)
  path_callback_lem of_work w result keeps = back _ (
      path_cb_lem others uv uncaught fuel on_request shut user h (gain r q) b q held_q w result
        keeps.0)
  path_callback_lem (of_link symlink) w result keeps = back _ (
      path_cb_lem others uv uncaught fuel on_request shut user h (gain r q) b q held_q w result
        keeps.0)
  path_callback_lem (of_stat follow_symlinks) w result keeps = back _ (
      null_cb_lem others uv uncaught fuel on_request shut user h (gain r q) b q held_q w result
        keeps)
  path_callback_lem of_chmod w result keeps = back _ (
      null_cb_lem others uv uncaught fuel on_request shut user h (gain r q) b q held_q w result
        keeps)
  path_callback_lem of_chown w result keeps = back _ (
      null_cb_lem others uv uncaught fuel on_request shut user h (gain r q) b q held_q w result
        keeps)
  path_callback_lem of_utime w result keeps = back _ (
      null_cb_lem others uv uncaught fuel on_request shut user h (gain r q) b q held_q w result
        keeps)

  -- The callback, if the request runs in the background.
  abbrev pub complete_path : PathRequest → Bool → ℤ → ℤ → M (Unit {0})
  complete_path k set result ret =
      if in_background k set && not (is_negative ret)
      then path_callback uv uncaught fuel on_request k q result
      else pure tt

  -- Every request on a path, every name lookup and every work, run and then called back if it runs in
  -- the background, leaves exactly the references from before, whatever libuv answers and whether or
  -- not the user has set a callback. It is given that the caller has the request in a variable, that
  -- the user's callback leaves the counts, that no buffer has a sink callback, and that libuv closes
  -- every loop that is given up at the first attempt.
  pub path-completes :
      (k : PathRequest) (w : World) (i : Instance RequestBody) (result : ℤ)
      → Counts others h r b w
      → w.requests q ≡ some i
      → Ends
          ((run_path uv uncaught fuel on_request k q
              >>= complete_path k i.body.has_request_cb result)
            w)
          (λ _ w'. Counts others h r b w')
  path-completes k w i result counts e =
      Ends-then _ _ _ _ (run_path_lem k w i counts e) λ ret w1 h1.
        elim (Bool-cases (in_background k i.body.has_request_cb && not (is_negative ret))) [
          | inl on ↦ rw on (path_callback_lem k w1 result (rw on at h1))
          | inr off ↦ rw off (tt, w1, refl, (rw off at h1))
        ]

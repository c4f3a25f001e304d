-- ===== src/Scheme/OnFiles.antt =====
-- A request on a file that is run, and called back if it runs in the background, gives up all that it
-- takes.
use uvcc.Prelude.{
  ℕ, ◌<◌, ◌≡◌, refl, subst, inl, inr, Bool, false, not, ◌&&◌, some, arith, ◌==◌, if◌then◌else◌,
  Bool-cases,
}
use uvcc.Prelude.Int.{ℤ, is_negative}
use uvcc.Runtime.{World, M, Run, LibUv, Instance, RequestBody, pure, ◌>>=◌}
use uvcc.Runtime.Counts.{gain, lose}
use uvcc.Runtime.Ends.{Ends, Ends-then, Ends-weaken}
use uvcc.Loop.Lifetime.{ClosesAll}
use uvcc.Transfer.Counts.{Counts, Held}
use uvcc.Transfer.Balance.{lose-gain}
use uvcc.Transfer.Completion.{Harmless}
use uvcc.Scheme.Steps.{Keeps}
use uvcc.Scheme.Files.{run_on_file_lem}
use uvcc.Scheme.Callbacks.{file_cb_lem, either_cb_lem}
use uvcc.Scheme.Classes.{
  sync, sync_cb, stat_file, stat_cb, chmod_file, chmod_cb, chown_file, chown_cb, utime_file,
  utime_cb,
}
use uvcc.Scheme.Requests.{
  FileRequest, run_file, file_callback, of_sync, of_fstat, of_fchmod, of_fchown, of_futime,
  of_truncate,
}
use uvcc.Scheme.Truncate.{truncate_cb, truncate_lem}

module _ (others : ℕ → ℕ) (uv : LibUv) (uncaught : Bool) (fuel : ℕ) (on_request : ℕ → M (Unit {0}))
    (shut : ClosesAll uv) (user : Harmless others on_request) (h r b : ℕ → ℕ) (q : ℕ)
    (in_q : 0 < r q) (held_q : Held (gain r q) q) where
  abbrev held : Held r q
  held = (in_q, ground (arith, held_q))

  module _ (p : ℕ) (in_p : 0 < h p) (held_p : Held (gain h p) p) (nonnull : (p == 0) ≡ false) where
    abbrev held_file : Held h p
    held_file = (in_p, ground (arith, held_p))

    run_file_lem :
        (k : FileRequest) (w : World) (i : Instance RequestBody)
        → Counts others h r b w
        → w.requests q ≡ some i
        → Ends (run_file uv uncaught fuel on_request k q p w) (λ ret w'.
          if i.body.has_request_cb && not (is_negative ret)
          then Keeps others (gain h p) (gain r q) b q (some p) w'
          else Counts others h r b w')
    unfolding run_file sync stat_file chmod_file chown_file utime_file
    run_file_lem (of_sync flush_all_metadata) w i =
        run_on_file_lem others uv uncaught fuel on_request shut h r b q p held held_file w i _
    run_file_lem of_fstat w i =
        run_on_file_lem others uv uncaught fuel on_request shut h r b q p held held_file w i _
    run_file_lem of_fchmod w i =
        run_on_file_lem others uv uncaught fuel on_request shut h r b q p held held_file w i _
    run_file_lem of_fchown w i =
        run_on_file_lem others uv uncaught fuel on_request shut h r b q p held held_file w i _
    run_file_lem of_futime w i =
        run_on_file_lem others uv uncaught fuel on_request shut h r b q p held held_file w i _
    run_file_lem (of_truncate offset) w i =
        truncate_lem others uv uncaught fuel on_request shut h r b q p held held_file w i offset

    back_both :
        (x : Run (Unit {0}))
        → Ends x (λ _ w'. Counts others (lose (gain h p) p) (lose (gain r q) q) b w')
        → Ends x (λ _ w'. Counts others h r b w')
    back_both x ends = Ends-weaken _ _ _ ends λ _ w' h'.
        subst (λ o. Counts others o r b w') (lose-gain h p)
          (subst (λ o. Counts others (lose (gain h p) p) o b w') (lose-gain r q) h')

    file_callback_lem :
        (k : FileRequest) (w : World) (result : ℤ)
        → Keeps others (gain h p) (gain r q) b q (some p) w
        → Ends
            (file_callback uv uncaught fuel on_request k q result w)
            (λ _ w'. Counts others h r b w')
    unfolding file_callback sync_cb stat_cb chmod_cb chown_cb utime_cb truncate_cb
    file_callback_lem (of_sync flush_all_metadata) w result keeps = back_both _ (
        file_cb_lem others uv uncaught fuel on_request shut user (gain h p) (gain r q) b q held_q p
          held_p w result keeps)
    file_callback_lem (of_truncate offset) w result keeps = back_both _ (
        file_cb_lem others uv uncaught fuel on_request shut user (gain h p) (gain r q) b q held_q p
          held_p w result keeps)
    file_callback_lem of_fstat w result keeps = back_both _ (
        either_cb_lem others uv uncaught fuel on_request shut user (gain h p) (gain r q) b q held_q
          p held_p w result nonnull keeps)
    file_callback_lem of_fchmod w result keeps = back_both _ (
        either_cb_lem others uv uncaught fuel on_request shut user (gain h p) (gain r q) b q held_q
          p held_p w result nonnull keeps)
    file_callback_lem of_fchown w result keeps = back_both _ (
        either_cb_lem others uv uncaught fuel on_request shut user (gain h p) (gain r q) b q held_q
          p held_p w result nonnull keeps)
    file_callback_lem of_futime w result keeps = back_both _ (
        either_cb_lem others uv uncaught fuel on_request shut user (gain h p) (gain r q) b q held_q
          p held_p w result nonnull keeps)

    abbrev pub complete_file : FileRequest → Bool → ℤ → ℤ → M (Unit {0})
    complete_file k set result ret =
        if set && not (is_negative ret)
        then file_callback uv uncaught fuel on_request k q result
        else pure tt

    -- Every request on a file, run and called back if it runs in the background, leaves exactly the
    -- references to the request and to the file from before, whatever libuv answers and whether or not
    -- the user has set a callback. It is given that the caller has the request and the file in
    -- variables, that the user's callback leaves the counts, that no buffer has a sink callback, and
    -- that libuv closes every loop that is given up at the first attempt.
    pub file-completes :
        (k : FileRequest) (w : World) (i : Instance RequestBody) (result : ℤ)
        → Counts others h r b w
        → w.requests q ≡ some i
        → Ends
            ((run_file uv uncaught fuel on_request k q p
                >>= complete_file k i.body.has_request_cb result)
              w)
            (λ _ w'. Counts others h r b w')
    file-completes k w i result counts e =
        Ends-then _ _ _ _ (run_file_lem k w i counts e) λ ret w1 h1.
          elim (Bool-cases (i.body.has_request_cb && not (is_negative ret))) [
            | inl on ↦ rw on (file_callback_lem k w1 result (rw on at h1))
            | inr off ↦ rw off (tt, w1, refl, (rw off at h1))
          ]

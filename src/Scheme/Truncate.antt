-- ===== src/Scheme/Truncate.antt =====
-- src/include/uvcc/request-fs.hpp, `fs::truncate`: the scheme with an offset, which may stand for the
-- position of the file.
use uvcc.Prelude.{ℕ, ◌<◌, ◌≡◌, refl, Bool, some, arith, if◌then◌else◌}
use uvcc.Prelude.Int.{ℤ, pos, is_negative}
use uvcc.Runtime.{
  World, M, LibUv, Instance, RequestBody, FsFunction, uv_fs, uv_fs_req_cleanup, pure, ◌>>=◌, ◌>>◌,
  call,
}
use uvcc.Runtime.Counts.{Counted-live, gain}
use uvcc.Runtime.Ends.{Ends, Ends-then}
use uvcc.Loop.Lifetime.{ClosesAll}
use uvcc.Handle
use uvcc.Request
use uvcc.Transfer.Counts.{Counts, Held, handle_ref_lem, request_ref_lem, store_lem}
use uvcc.Transfer.Background.{choose-Ends}
use uvcc.FileWrite.{position, set_target}
use uvcc.FileWrite.Steps.{positioned}
use uvcc.Scheme.{now, undo_file, file_cb}
use uvcc.Scheme.Steps.{Keeps, status_lem, call-Keeps, now_lem}
use uvcc.Scheme.Files.{FileRun, undo_file_lem}

module _ (uv : LibUv) (uncaught : Bool) (fuel : ℕ) (on_request : ℕ → M (Unit {0})) where
  pub truncate_later : ℕ → ℕ → ℤ → M ℤ
  truncate_later q p offset = do
    Handle.ref p
    Request.ref q
    set_target q p offset
    Request.set_status q (pos 0)
    ret ← call uv (uv_fs FsFunction.ftruncate q p)
    undo_file uv uncaught fuel on_request q p ret
    pure ret

  pub truncate_now : ℕ → ℕ → ℤ → M ℤ
  truncate_now q p offset = do
    set_target q p offset
    now uv uncaught fuel on_request q (uv_fs FsFunction.ftruncate q p)

  pub truncate : ℕ → ℕ → ℤ → M ℤ
  truncate q p offset = do
    _ ← call uv (uv_fs_req_cleanup q)
    at ← position uv p offset
    i ← Request.load q
    if i.body.has_request_cb then truncate_later q p at else truncate_now q p at

  unfoldable pub truncate_cb : ℕ → ℤ → M (Unit {0})
  truncate_cb = file_cb uv uncaught fuel on_request

module _ (others : ℕ → ℕ) (h r b : ℕ → ℕ) (q p : ℕ) where
  target_lem :
      (w : World) (offset : ℤ)
      → Counts others h r b w
      → 0 < r q
      → Ends (set_target q p offset w) (λ _ w'. Keeps others h r b q (some p) w')
  unfolding set_target
  target_lem w offset counts held =
      let (i, e, n) = Counted-live w.requests r q counts.1 held in
      let i' = record i { body = record i.body { handle = p; offset = offset } } in
      (
        tt,
        _,
        ground (arith, e),
        (store_lem others h r b w q i i' counts e refl, (i', ground arith, refl)),
      )

module _ (others : ℕ → ℕ) (uv : LibUv) (uncaught : Bool) (fuel : ℕ) (on_request : ℕ → M (Unit {0}))
    (shut : ClosesAll uv) (h r b : ℕ → ℕ) (q p : ℕ) (held_q : Held r q) (held_p : Held h p) where
  truncate_later_lem :
      (w : World) (offset : ℤ)
      → Counts others h r b w
      → Ends (truncate_later uv uncaught fuel on_request q p offset w) (λ ret w'.
        if is_negative ret
        then Counts others h r b w'
        else Keeps others (gain h p) (gain r q) b q (some p) w')
  unfolding truncate_later
  truncate_later_lem w offset counts =
      Ends-then _ _ _ _ (handle_ref_lem others h r b w p counts held_p.0 (omega (arith, held_p)))
        λ _ w0 h0.
          Ends-then _ _ _ _
            (request_ref_lem others (gain h p) r b w0 q h0 held_q.0 (omega (arith, held_q)))
            λ _ w1 h1.
              Ends-then _ _ _ _
                (target_lem others (gain h p) (gain r q) b q p w1 offset h1 (ground arith))
                λ _ w2 h2.
                  Ends-then _ _ _ _
                    (status_lem others (gain h p) (gain r q) b q (ground arith) (some p) w2 (pos 0)
                      h2)
                    λ _ w3 h3.
                      Ends-then _ _ _ _
                        (call-Keeps others (gain h p) (gain r q) b q (ground arith) uv (some p) w3
                          (uv_fs FsFunction.ftruncate q p) h3)
                        λ ret w4 h4.
                          Ends-then _ _ _ _
                            (undo_file_lem others uv uncaught fuel on_request shut h r b q p held_q
                              held_p w4 ret h4)
                            λ _ w5 h5. (ret, w5, refl, h5)

  truncate_now_lem :
      (w : World) (offset : ℤ)
      → Counts others h r b w
      → Ends
          (truncate_now uv uncaught fuel on_request q p offset w)
          (λ _ w'. Counts others h r b w')
  unfolding truncate_now
  truncate_now_lem w offset counts =
      Ends-then _ _ _ _ (target_lem others h r b q p w offset counts held_q.0) λ _ w1 h1.
        now_lem others uv uncaught fuel on_request h r b q held_q (some p) w1
          (uv_fs FsFunction.ftruncate q p) h1

  pub truncate_lem :
      (w : World) (i : Instance RequestBody) (offset : ℤ)
      → Counts others h r b w
      → w.requests q ≡ some i
      → Ends
          (truncate uv uncaught fuel on_request q p offset w)
          (FileRun others uv uncaught fuel on_request shut h r b q p held_q held_p i)
  unfolding truncate
  truncate_lem w i offset counts e =
      positioned others h r b uv q _
        (FileRun others uv uncaught fuel on_request shut h r b q p held_q held_p i) i w p offset
        (counts, e)
        λ x w2 (h2, e2).
          choose-Ends (Keeps others (gain h p) (gain r q) b q (some p))
            (λ w'. Counts others h r b w') q w2 i _ _ e2 (truncate_later_lem w2 x h2)
            (truncate_now_lem w2 x h2)

-- ===== src/Scheme/Files.antt =====
-- What `run` of a request on a file does to the counts.
use uvcc.Prelude.{ℕ, ◌≡◌, refl, subst, inl, inr, Bool, some, arith, ◌∷◌, if◌then◌else◌, Bool-cases}
use uvcc.Prelude.Int.{ℤ, pos, is_negative}
use uvcc.Runtime.{
  World, M, LibUv, Call, Instance, RequestBody, called, ◌>>=◌, ◌>>◌, uv_fs_req_cleanup,
}
use uvcc.Runtime.Counts.{gain, lose}
use uvcc.Runtime.Ends.{Ends, Ends-then, Ends-weaken}
use uvcc.Loop.Lifetime.{ClosesAll}
use uvcc.Handle.Counted.{trace-Inv}
use uvcc.Request
use uvcc.Transfer.Counts.{
  Counts, Held, handle_ref_lem, request_ref_lem, request_unref_lem, handle_unref_lem,
  set_status_lem,
}
use uvcc.Transfer.Balance.{lose-gain}
use uvcc.Transfer.Background.{Outcome, choose-Ends}
use uvcc.Scheme.{save, clean, now, undo_file, later_file, run_on_file}
use uvcc.Scheme.Steps.{Keeps, save_lem, status_lem, call-Keeps, save-now}

module _ (others : ℕ → ℕ) (uv : LibUv) (uncaught : Bool) (fuel : ℕ) (on_request : ℕ → M (Unit {0}))
    (shut : ClosesAll uv) (h r b : ℕ → ℕ) (q p : ℕ) (held_q : Held r q) (held_p : Held h p) where
  pub undo_file_lem :
      (w : World) (ret : ℤ)
      → Keeps others (gain h p) (gain r q) b q (some p) w
      → Ends (undo_file uv uncaught fuel on_request q p ret w) (λ _ w'.
        if is_negative ret
        then Counts others h r b w'
        else Keeps others (gain h p) (gain r q) b q (some p) w')
  unfolding undo_file
  undo_file_lem w ret keeps = elim (Bool-cases (is_negative ret)) [
    | inl neg ↦ rw neg (
        Ends-then _ _ _ _
          (set_status_lem others (gain h p) (gain r q) b w q ret keeps.0 (ground arith))
          λ _ w1 h1.
            Ends-then _ _ _ _
              (handle_unref_lem others uv uncaught fuel (gain h p) (gain r q) b w1 p shut h1
                (ground arith) (ground (arith, held_p)))
              λ _ w2 h2.
                Ends-weaken _ _ _
                  (request_unref_lem others (lose (gain h p) p) (gain r q) b w2 q h2 (ground arith)
                    (ground (arith, held_q)))
                  λ _ w3 h3.
                    subst (λ o. Counts others o r b w3) (lose-gain h p)
                      (subst (λ o. Counts others (lose (gain h p) p) o b w3) (lose-gain r q) h3))
    | inr good ↦ rw good (tt, w, refl, keeps)
  ]

  later_file_lem :
      (w : World) (c : Call)
      → Counts others h r b w
      → Ends (later_file uv uncaught fuel on_request q p c w) (λ ret w'.
        if is_negative ret
        then Counts others h r b w'
        else Keeps others (gain h p) (gain r q) b q (some p) w')
  unfolding later_file
  later_file_lem w c counts =
      Ends-then _ _ _ _ (handle_ref_lem others h r b w p counts held_p.0 (omega (arith, held_p)))
        λ _ w0 h0.
          Ends-then _ _ _ _
            (request_ref_lem others (gain h p) r b w0 q h0 held_q.0 (omega (arith, held_q)))
            λ _ w1 h1.
              Ends-then _ _ _ _
                (save_lem others (gain h p) (gain r q) b q (ground arith) (some p) w1 h1)
                λ _ w2 h2.
                  Ends-then _ _ _ _
                    (status_lem others (gain h p) (gain r q) b q (ground arith) (some p) w2 (pos 0)
                      h2)
                    λ _ w3 h3.
                      Ends-then _ _ _ _
                        (call-Keeps others (gain h p) (gain r q) b q (ground arith) uv (some p) w3 c
                          h3)
                        λ ret w4 h4.
                          Ends-then _ _ _ _ (undo_file_lem w4 ret h4) λ _ w5 h5. (ret, w5, refl, h5)

  -- What `run` leaves, by its result.
  abbrev pub FileRun : Instance RequestBody → ℤ → World → Type 0
  FileRun = Outcome (Keeps others (gain h p) (gain r q) b q (some p)) (λ w'. Counts others h r b w')

  choose_file :
      (w : World) (i : Instance RequestBody) (c : Call)
      → Counts others h r b w
      → w.requests q ≡ some i
      → Ends
          ((do
            j ← Request.load q
            if j.body.has_request_cb
                then later_file uv uncaught fuel on_request q p c
                else (do save (some p) q; now uv uncaught fuel on_request q c))
            w)
          (FileRun i)
  choose_file w i c counts e =
      choose-Ends (Keeps others (gain h p) (gain r q) b q (some p)) (λ w'. Counts others h r b w') q
        w i _ _ e (later_file_lem w c counts)
        (save-now others uv uncaught fuel on_request h r b q held_q (some p) w c counts)

  pub run_on_file_lem :
      (w : World) (i : Instance RequestBody) (c : Call)
      → Counts others h r b w
      → w.requests q ≡ some i
      → Ends (run_on_file uv uncaught fuel on_request q p c w) (FileRun i)
  unfolding run_on_file clean
  run_on_file_lem w i c (inv, cr, cb, plain) e =
      choose_file _ i c
        (
          trace-Inv others w h
              (called (uv_fs_req_cleanup q) (uv w.trace (uv_fs_req_cleanup q)) ∷ w.trace) inv,
          cr,
          cb,
          plain,
        )
        e

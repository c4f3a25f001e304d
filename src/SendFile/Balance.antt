-- ===== src/SendFile/Balance.antt =====
-- The references that a copy takes come back when it fails or runs synchronously.
use uvcc.Prelude.{
  Bool, ℕ, ◌≡◌, refl, subst, fun_ext, inl, inr, none, some, arith, if◌then◌else◌, Bool-cases,
}
use uvcc.Prelude.Int.{ℤ, pos, is_negative}
use uvcc.Runtime.{
  World, M, ◌>>◌, pure, Instance, RequestBody, LibUv, uv_fs_req_cleanup, uv_fs_sendfile,
}
use uvcc.Runtime.Counts.{gain, lose}
use uvcc.Runtime.Ends.{Ends, Ends-then, Ends-weaken}
use uvcc.Loop.Lifetime.{ClosesAll}
use uvcc.Handle
use uvcc.Request
use uvcc.Transfer.Counts.{
  Counts, Held, handle_ref_lem, request_ref_lem, request_unref_lem, handle_unref_lem,
  set_status_lem,
}
use uvcc.Transfer.Balance.{lose-gain}
use uvcc.Transfer.Background.{Outcome, choose-Ends}
use uvcc.FileWrite.Steps.{Has, Kept, call-Kept, position-Kept, has_status_lem, has_call_lem}
use uvcc.Output.{uv_ebadf}
use uvcc.Scheme.Steps.{now_lem}
use uvcc.SendFile.{is_minus_one, copy_now, undo_copy, copy_later, copy_at, sendfile}
use uvcc.SendFile.Steps.{
  Copying, set_files_lem, set_copy_lem, queue_file_lem, unqueue_file_lem, descriptor_lem,
}

module _ (h : ℕ → ℕ) (out p : ℕ) where
  -- One more reference to each of the two handles, which may be the same.
  abbrev pub both : ℕ → ℕ
  both = gain (gain h out) p

  pub lose_out_in : lose (lose both out) p ≡ h
  lose_out_in = fun_ext λ x. ground arith

  pub lose_in_out : lose (lose both p) out ≡ h
  lose_in_out = fun_ext λ x. ground arith

module _ (others : ℕ → ℕ) (uv : LibUv) (uncaught : Bool) (fuel : ℕ) (on_request : ℕ → M (Unit {0}))
    (shut : ClosesAll uv) (h r b : ℕ → ℕ) (q out p : ℕ) (held_q : Held r q) (held_out : Held h out)
    (held_p : Held h p) where
  -- The references that a copy takes while libuv works on it, and what it keeps.
  abbrev pub Queued : World → Type 0
  Queued w = Counts others (both h out p) (gain r q) b w × Has (Copying out p) q w

  release_rest :
      (w : World)
      → Counts others (lose (both h out p) out) (gain r q) b w
      → Ends
          ((do Handle.unref uv uncaught fuel p; Request.unref q) w)
          (λ _ w'. Counts others h r b w')
  release_rest w counts =
      Ends-then _ _ _ _
        (handle_unref_lem others uv uncaught fuel (lose (both h out p) out) (gain r q) b w p shut
          counts (ground arith) (ground (arith, held_out, held_p)))
        λ _ w1 h1.
          Ends-weaken _ _ _
            (request_unref_lem others (lose (lose (both h out p) out) p) (gain r q) b w1 q h1
              (ground arith) (ground (arith, held_q)))
            λ _ w2 h2.
              subst (λ o. Counts others o r b w2) (lose_out_in h out p)
                (subst (λ o. Counts others (lose (lose (both h out p) out) p) o b w2)
                  (lose-gain r q) h2)

  undo_copy_lem :
      (w : World) (length : ℕ) (ret : ℤ)
      → Queued w
      → Ends
          (undo_copy uv uncaught fuel on_request q out p length ret w)
          (λ _ w'. if is_negative ret then Counts others h r b w' else Queued w')
  unfolding undo_copy
  undo_copy_lem w length ret queued = elim (Bool-cases (is_negative ret)) [
    | inl neg ↦ rw neg (
        Ends-then _ _ _ _
          (set_status_lem others (both h out p) (gain r q) b w q ret queued.0 (ground arith))
          λ _ w1 h1.
            Ends-then _ _ _ _
              (unqueue_file_lem others (both h out p) (gain r q) b w1 out length h1 (ground arith))
              λ _ w2 h2.
                Ends-then _ _ _ _
                  (handle_unref_lem others uv uncaught fuel (both h out p) (gain r q) b w2 out shut
                    h2 (ground arith) (ground (arith, held_out, held_p)))
                  λ _ w3 h3. release_rest w3 h3)
    | inr good ↦ rw good (tt, w, refl, queued)
  ]

  copy_later_lem :
      (w : World) (length : ℕ) (offset : ℤ)
      → Counts others h r b w
      → Ends
          (copy_later uv uncaught fuel on_request q out p length offset w)
          (λ ret w'. if is_negative ret then Counts others h r b w' else Queued w')
  unfolding copy_later
  copy_later_lem w length offset counts =
      Ends-then _ _ _ _
        (handle_ref_lem others h r b w out counts held_out.0 (omega (arith, held_out)))
        λ _ w1 h1.
          Ends-then _ _ _ _
            (handle_ref_lem others (gain h out) r b w1 p h1 (ground (arith, held_p))
              (ground (arith, held_p)))
            λ _ w2 h2.
              Ends-then _ _ _ _
                (request_ref_lem others (both h out p) r b w2 q h2 held_q.0 (omega (arith, held_q)))
                λ _ w3 h3.
                  Ends-then _ _ _ _
                    (set_copy_lem others (both h out p) (gain r q) b w3 q out p offset length h3
                      (ground arith))
                    λ _ w4 (h4, k4).
                      Ends-then _ _ _ _
                        (queue_file_lem others (both h out p) (gain r q) b w4 q out p length h4 k4
                          (ground arith))
                        λ _ w5 (h5, k5).
                          Ends-then _ _ _ _
                            (has_status_lem others (both h out p) (gain r q) b (Copying out p) w5 q
                              (pos 0) h5 k5)
                            λ _ w6 (h6, k6).
                              Ends-then _ _ _ _
                                (has_call_lem others (both h out p) (gain r q) b (Copying out p) uv
                                  w6 q (uv_fs_sendfile q out p offset length) h6 k6)
                                λ ret w7 h7.
                                  Ends-then _ _ _ _ (undo_copy_lem w7 length ret h7)
                                    λ _ w8 h8. (ret, w8, refl, h8)

  copy_now_lem :
      (w : World) (length : ℕ) (offset : ℤ)
      → Counts others h r b w
      → Ends
          (copy_now uv uncaught fuel on_request q out p length offset w)
          (λ _ w'. Counts others h r b w')
  unfolding copy_now
  copy_now_lem w length offset counts =
      Ends-then _ _ _ _ (set_files_lem others h r b w q out p offset counts held_q.0) λ _ w1 h1.
        now_lem others uv uncaught fuel on_request h r b q held_q none w1
          (uv_fs_sendfile q out p offset length) (h1, tt)

  -- What a copy leaves, by its result.
  abbrev pub Copied : Instance RequestBody → ℤ → World → Type 0
  Copied i = Outcome Queued (λ w'. Counts others h r b w') i

  copy_at_lem :
      (i : Instance RequestBody) (w : World) (length : ℕ) (offset : ℤ)
      → Kept others h r b uv q i w
      → Ends (copy_at uv uncaught fuel on_request q out p length offset w) (Copied i)
  unfolding copy_at
  copy_at_lem i w length offset kept =
      Ends-then _ _ _ (Copied i) (position-Kept others h r b uv q i w p offset kept)
        λ x w1 (h1, e1).
          choose-Ends Queued (λ w'. Counts others h r b w') q w1 i _ _ e1
            (copy_later_lem w1 length x h1) (copy_now_lem w1 length x h1)

  bad_descriptor :
      (i : Instance RequestBody) (w : World) → Counts others h r b w → Copied i uv_ebadf w
  bad_descriptor i w counts = elim (Bool-cases i.body.has_request_cb) [
    | inl set ↦ rw set counts
    | inr unset ↦ rw unset counts
  ]

  checked_lem :
      (i : Instance RequestBody) (w : World) (length : ℕ) (offset fd : ℤ)
      → Kept others h r b uv q i w
      → Ends
          ((if is_minus_one fd
              then pure uv_ebadf
              else copy_at uv uncaught fuel on_request q out p length offset)
            w)
          (Copied i)
  checked_lem i w length offset fd kept = elim (Bool-cases (is_minus_one fd)) [
    | inl bad ↦ rw bad (uv_ebadf, w, refl, bad_descriptor i w kept.0)
    | inr good ↦ rw good (copy_at_lem i w length offset kept)
  ]

  pub sendfile-balance :
      (w : World) (i : Instance RequestBody) (length : ℕ) (offset : ℤ)
      → Counts others h r b w
      → w.requests q ≡ some i
      → Ends (sendfile uv uncaught fuel on_request q out p length offset w) (Copied i)
  unfolding sendfile
  sendfile-balance w i length offset counts e =
      Ends-then _ _ _ (Copied i) (call-Kept others h r b uv q i w (uv_fs_req_cleanup q) (counts, e))
        λ _ w1 h1.
          Ends-then _ _ _ (Copied i) (descriptor_lem others h r b uv w1 q out i h1 held_out.0)
            λ fd w2 h2. checked_lem i w2 length offset fd h2

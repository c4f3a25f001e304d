-- ===== src/SendFile/Completion.antt =====
-- A copy that libuv has taken is completed by its callback.
use uvcc.Prelude.{
  ℕ, ◌<◌, ◌≡◌, refl, subst, inl, inr, Bool, not, ◌&&◌, some, arith, if◌then◌else◌, Bool-cases,
}
use uvcc.Prelude.Int.{ℤ, is_negative}
use uvcc.Runtime.{World, M, Instance, RequestBody, LibUv, ◌>>=◌, ◌>>◌, pure}
use uvcc.Runtime.Counts.{gain, lose}
use uvcc.Runtime.Ends.{Ends, Ends-then, Ends-weaken}
use uvcc.Loop.Lifetime.{ClosesAll}
use uvcc.Handle
use uvcc.Request
use uvcc.Transfer.Counts.{Counts, Held, handle_unref_lem, request_unref_lem}
use uvcc.Transfer.Balance.{lose-gain}
use uvcc.Transfer.Completion.{Harmless}
use uvcc.FileWrite.Steps.{Has, has_status_lem}
use uvcc.Scheme.{notify_if}
use uvcc.Scheme.Callbacks.{notify_lem}
use uvcc.SendFile.{unqueue_file, sendfile, sendfile_cb}
use uvcc.SendFile.Steps.{Copying, unqueue_file_lem}
use uvcc.SendFile.Balance.{both, lose_in_out, sendfile-balance}

module _ (others : ℕ → ℕ) (uv : LibUv) (uncaught : Bool) (fuel : ℕ) (on_request : ℕ → M (Unit {0}))
    (shut : ClosesAll uv) (user : Harmless others on_request) (h r b : ℕ → ℕ) (q out p : ℕ)
    (held_q : Held (gain r q) q) (held_out : Held (gain h out) out) (held_p : Held (gain h p) p)
    (in_q : 0 < r q) (in_out : 0 < h out) (in_p : 0 < h p) where
  unref-both :
      (w : World)
      → Counts others (both h out p) r b w
      → Ends
          ((do Handle.unref uv uncaught fuel p; Handle.unref uv uncaught fuel out) w)
          (λ _ w'. Counts others h r b w')
  unref-both w counts =
      Ends-then _ _ _ _
        (handle_unref_lem others uv uncaught fuel (both h out p) r b w p shut counts (ground arith)
          (ground (arith, held_out, held_p)))
        λ _ w1 h1.
          Ends-weaken _ _ _
            (handle_unref_lem others uv uncaught fuel (lose (both h out p) p) r b w1 out shut h1
              (ground arith) (ground (arith, held_out, held_p)))
            λ _ w2 h2. subst (λ o. Counts others o r b w2) (lose_in_out h out p) h2

  release_lem :
      (w : World) (length : ℕ) (set : Bool)
      → Counts others (both h out p) (gain r q) b w
      → Ends
          ((do
            unqueue_file out length
            notify_if uv uncaught fuel on_request set q
            Request.unref q
            Handle.unref uv uncaught fuel p
            Handle.unref uv uncaught fuel out)
            w)
          (λ _ w'. Counts others h r b w')
  release_lem w length set counts =
      Ends-then _ _ _ _
        (unqueue_file_lem others (both h out p) (gain r q) b w out length counts (ground arith))
        λ _ w1 h1.
          Ends-then _ _ _ _
            (notify_lem others uv uncaught fuel on_request shut user (both h out p) (gain r q) b q
              held_q set w1 h1)
            λ _ w2 h2.
              Ends-then _ _ _ _
                (request_unref_lem others (both h out p) (gain r q) b w2 q h2 (ground arith)
                  (omega (arith, held_q)))
                λ _ w3 h3.
                  unref-both w3
                    (subst (λ o. Counts others (both h out p) o b w3) (lose-gain r q) h3)

  callback_lem :
      (w : World) (result : ℤ)
      → Counts others (both h out p) (gain r q) b w
      → Has (Copying out p) q w
      → Ends (sendfile_cb uv uncaught fuel on_request q result w) (λ _ w'. Counts others h r b w')
  unfolding sendfile_cb
  callback_lem w result counts has =
      Ends-then _ _ _ _
        (has_status_lem others (both h out p) (gain r q) b (Copying out p) w q result counts has)
        λ _ w1 (h1, (i, e, (is_out, is_p))).
          rw (e, is_out, is_p) (release_lem w1 i.body.pending_size i.body.has_request_cb h1)

  -- What follows the outcome of a copy: the callback, if it runs in the background.
  abbrev pub complete_copy : Bool → ℤ → ℤ → M (Unit {0})
  complete_copy set result ret =
      if set && not (is_negative ret)
      then sendfile_cb uv uncaught fuel on_request q result
      else pure tt

  -- A copy from a file to an endpoint, which may be the same file, leaves exactly the references from
  -- before when it is run, and called back if it runs in the background, whatever libuv answers: also
  -- where the endpoint has no descriptor and the copy is not begun. It is given that the caller keeps
  -- the two handles and the request in variables, that the user's callback leaves the counts, that no
  -- buffer has a sink callback, and that libuv closes every loop that is given up at the first attempt.
  pub sendfile-completes :
      (w : World) (i : Instance RequestBody) (length : ℕ) (offset result : ℤ)
      → Counts others h r b w
      → w.requests q ≡ some i
      → Ends
          ((sendfile uv uncaught fuel on_request q out p length offset
              >>= complete_copy i.body.has_request_cb result)
            w)
          (λ _ w'. Counts others h r b w')
  sendfile-completes w i length offset result counts e =
      Ends-then _ _ _ _
        (sendfile-balance others uv uncaught fuel on_request shut h r b q out p
          (in_q, ground (arith, held_q)) (in_out, ground (arith, held_out))
          (in_p, ground (arith, held_p)) w i length offset counts e)
        λ ret w1 h1. elim (Bool-cases (i.body.has_request_cb && not (is_negative ret))) [
          | inl on ↦ let (h2, k2) = rw on at h1 in rw on (callback_lem w1 result h2 k2)
          | inr off ↦ rw off (tt, w1, refl, (rw off at h1))
        ]

-- ===== src/FileRead/Completion.antt =====
-- A file read that libuv has taken is completed by its callback.
use uvcc.Prelude.{
  ℕ, ◌<◌, ◌≡◌, refl, inl, inr, Bool, not, ◌&&◌, some, arith, if◌then◌else◌, Bool-cases,
}
use uvcc.Prelude.Int.{ℤ, is_negative}
use uvcc.Runtime.{World, M, Instance, RequestBody, LibUv, ◌>>=◌, pure}
use uvcc.Runtime.Counts.{gain, lose}
use uvcc.Runtime.Ends.{Ends, Ends-then, Ends-weaken}
use uvcc.Loop.Lifetime.{ClosesAll}
use uvcc.Buffer.Sharing.{Sink}
use uvcc.Transfer.Counts.{Counts, Held}
use uvcc.Transfer.Taken.{restored}
use uvcc.Transfer.Completion.{Harmless}
use uvcc.FileWrite.Steps.{Pending, pending_status_lem}
use uvcc.FileWrite.Completion.{hand_back_lem}
use uvcc.FileRead.{read, read_cb}
use uvcc.FileRead.Balance.{read-balance}

module _ (others : ℕ → ℕ) (uv : LibUv) (uncaught : Bool) (fuel : ℕ) (sink : ℕ → Sink)
    (on_request : ℕ → M (Unit {0})) (shut : ClosesAll uv) (user : Harmless others on_request) where
  read_cb_lem :
      (h r b : ℕ → ℕ) (q p c : ℕ) (w : World) (result : ℤ)
      → Held h p
      → Held r q
      → Held b c
      → Counts others h r b w
      → Pending q p c w
      → Ends
          (read_cb uv uncaught fuel sink on_request q result w)
          (λ _ w'. Counts others (lose h p) (lose r q) (lose b c) w')
  unfolding read_cb
  read_cb_lem h r b q p c w result held_p held_q held_c counts kept =
      Ends-then _ _ _ _ (pending_status_lem others h r b w q p c result counts kept)
        λ _ w1 (h1, (i, e, (is_p, is_c))).
          rw (e, is_p, is_c)
            (hand_back_lem others uv uncaught fuel sink on_request shut user h r b q p c held_p
              held_q held_c w1 i.body.has_request_cb h1)

  module _ (h r b : ℕ → ℕ) (q p c : ℕ) (held_p : Held (gain h p) p) (held_q : Held (gain r q) q)
      (held_c : Held (gain b c) c) (in_p : 0 < h p) (in_q : 0 < r q) (in_c : 0 < b c) where
    -- What follows the outcome of a file read: the callback, if it runs in the background.
    abbrev pub complete_read : Bool → ℤ → ℤ → M (Unit {0})
    complete_read set result ret =
        if set && not (is_negative ret)
        then read_cb uv uncaught fuel sink on_request q result
        else pure tt

    callback_lem :
        (w : World) (result : ℤ)
        → Counts others (gain h p) (gain r q) (gain b c) w
        → Pending q p c w
        → Ends
            (read_cb uv uncaught fuel sink on_request q result w)
            (λ _ w'. Counts others h r b w')
    callback_lem w result counts kept =
        Ends-weaken _ _ _
          (read_cb_lem (gain h p) (gain r q) (gain b c) q p c w result held_p held_q held_c counts
            kept)
          λ _ w' h'. restored others h r b q p c w' h'

    -- A read from a file that is run, and called back if it runs in the background, leaves exactly the
    -- references from before, whatever libuv answers, at a given offset or at the position of the
    -- file, with a callback of the user or without. It is given that the caller keeps the file, the
    -- buffer and the request in variables, that the user's callback leaves the counts, that no buffer
    -- has a sink callback and that libuv closes every loop that is given up.
    pub read-completes :
        (w : World) (i : Instance RequestBody) (offset result : ℤ)
        → Counts others h r b w
        → w.requests q ≡ some i
        → Ends
            ((read uv uncaught fuel sink on_request q p c offset
                >>= complete_read i.body.has_request_cb result)
              w)
            (λ _ w'. Counts others h r b w')
    read-completes w i offset result counts e =
        Ends-then _ _ _ _
          (read-balance others uv uncaught fuel sink on_request shut h r b q p c
            (in_p, ground (arith, held_p)) (in_q, ground (arith, held_q))
            (in_c, ground (arith, held_c)) w i offset counts e)
          λ ret w1 h1. elim (Bool-cases (i.body.has_request_cb && not (is_negative ret))) [
            | inl on ↦ let (h2, k2) = rw on at h1 in rw on (callback_lem w1 result h2 k2)
            | inr off ↦ rw off (tt, w1, refl, (rw off at h1))
          ]

-- ===== src/FileWrite/Completion.antt =====
-- A file write that libuv has taken is completed by its callback.
use uvcc.Prelude.{
  ℕ, ◌<◌, ◌≡◌, refl, inl, inr, Bool, not, ◌&&◌, some, arith, if◌then◌else◌, Bool-cases,
}
use uvcc.Prelude.Int.{ℤ, is_negative}
use uvcc.Runtime.{World, M, Instance, RequestBody, LibUv, ◌>>=◌, ◌>>◌, pure}
use uvcc.Runtime.Counts.{gain, lose}
use uvcc.Runtime.Ends.{Ends, Ends-then, Ends-weaken}
use uvcc.Loop.Lifetime.{ClosesAll}
use uvcc.Handle
use uvcc.Request
use uvcc.Buffer.Sharing.{Sink}
use uvcc.Transfer.{hand_over}
use uvcc.Transfer.Counts.{Counts, Held, request_unref_lem, handle_unref_lem}
use uvcc.Transfer.Taken.{restored}
use uvcc.Transfer.Completion.{Harmless, hand_over_lem}
use uvcc.FileWrite.{sub_queued, write, write_cb}
use uvcc.FileWrite.Steps.{Pending, pending_status_lem, sub_queued_lem}
use uvcc.FileWrite.Balance.{fs_write-balance}

module _ (others : ℕ → ℕ) (uv : LibUv) (uncaught : Bool) (fuel : ℕ) (sink : ℕ → Sink)
    (on_request : ℕ → M (Unit {0})) (shut : ClosesAll uv) (user : Harmless others on_request) where
  module _ (h r b : ℕ → ℕ) (q p c : ℕ) (held_p : Held h p) (held_q : Held r q)
      (held_c : Held b c) where
    pub hand_back_lem :
        (w : World) (set : Bool)
        → Counts others h r b w
        → Ends
            ((do
              hand_over uv uncaught fuel sink on_request q c set
              Request.unref q
              Handle.unref uv uncaught fuel p)
              w)
            (λ _ w'. Counts others (lose h p) (lose r q) (lose b c) w')
    hand_back_lem w set counts =
        Ends-then _ _ _ _
          (hand_over_lem others uv uncaught fuel sink on_request shut user h r b q p c held_p held_q
            held_c w set counts)
          λ _ w2 h2.
            Ends-then _ _ _ _
              (request_unref_lem others h r (lose b c) w2 q h2 held_q.0 (omega (arith, held_q)))
              λ _ w3 h3.
                handle_unref_lem others uv uncaught fuel h (lose r q) (lose b c) w3 p shut h3
                  held_p.0 (omega (arith, held_p))

    release_lem :
        (w : World) (size : ℕ) (set : Bool)
        → Counts others h r b w
        → Ends
            ((do
              sub_queued p size
              hand_over uv uncaught fuel sink on_request q c set
              Request.unref q
              Handle.unref uv uncaught fuel p)
              w)
            (λ _ w'. Counts others (lose h p) (lose r q) (lose b c) w')
    release_lem w size set counts =
        Ends-then _ _ _ _ (sub_queued_lem others h r b w p size counts held_p.0)
          λ _ w1 h1. hand_back_lem w1 set h1

    write_cb_lem :
        (w : World) (size : ℕ) (result : ℤ)
        → Counts others h r b w
        → Pending q p c w
        → Ends
            (write_cb uv uncaught fuel sink on_request q result w)
            (λ _ w'. Counts others (lose h p) (lose r q) (lose b c) w')
    unfolding write_cb
    write_cb_lem w size result counts kept =
        Ends-then _ _ _ _ (pending_status_lem others h r b w q p c result counts kept)
          λ _ w1 (h1, (i, e, (is_p, is_c))).
            rw (e, is_p, is_c) (release_lem w1 i.body.pending_size i.body.has_request_cb h1)

  module _ (h r b : ℕ → ℕ) (q p c : ℕ) (held_p : Held (gain h p) p) (held_q : Held (gain r q) q)
      (held_c : Held (gain b c) c) (in_p : 0 < h p) (in_q : 0 < r q) (in_c : 0 < b c) where
    -- What follows the outcome of a file write: the callback, if it runs in the background.
    abbrev pub complete_write : Bool → ℤ → ℤ → M (Unit {0})
    complete_write set result ret =
        if set && not (is_negative ret)
        then write_cb uv uncaught fuel sink on_request q result
        else pure tt

    callback_lem :
        (w : World) (size : ℕ) (result : ℤ)
        → Counts others (gain h p) (gain r q) (gain b c) w
        → Pending q p c w
        → Ends
            (write_cb uv uncaught fuel sink on_request q result w)
            (λ _ w'. Counts others h r b w')
    callback_lem w size result counts kept =
        Ends-weaken _ _ _
          (write_cb_lem (gain h p) (gain r q) (gain b c) q p c held_p held_q held_c w size result
            counts kept)
          λ _ w' h'. restored others h r b q p c w' h'

    -- A write to a file that is run, and called back if it runs in the background, leaves exactly the
    -- references from before, whatever libuv answers, at a given offset or at the position of the
    -- file, with a callback of the user or without. It is given that the caller keeps the file, the
    -- buffer and the request in variables, that the user's callback leaves the counts, that no buffer
    -- has a sink callback and that libuv closes every loop that is given up.
    pub fs_write-completes :
        (w : World) (i : Instance RequestBody) (size : ℕ) (offset result : ℤ)
        → Counts others h r b w
        → w.requests q ≡ some i
        → Ends
            ((write uv uncaught fuel sink on_request q p c size offset
                >>= complete_write i.body.has_request_cb result)
              w)
            (λ _ w'. Counts others h r b w')
    fs_write-completes w i size offset result counts e =
        Ends-then _ _ _ _
          (fs_write-balance others uv uncaught fuel sink on_request shut h r b q p c
            (in_p, ground (arith, held_p)) (in_q, ground (arith, held_q))
            (in_c, ground (arith, held_c)) w i size offset counts e)
          λ ret w1 h1. elim (Bool-cases (i.body.has_request_cb && not (is_negative ret))) [
            | inl on ↦ let (h2, k2) = rw on at h1 in rw on (callback_lem w1 size result h2 k2)
            | inr off ↦ rw off (tt, w1, refl, (rw off at h1))
          ]

-- ===== src/FileRead/Balance.antt =====
-- The references that a file read takes come back when it fails or runs synchronously.
use uvcc.Prelude.{ℕ, ◌≡◌, refl, inl, inr, Bool, some, arith, if◌then◌else◌, Bool-cases}
use uvcc.Prelude.Int.{ℤ, pos, is_negative}
use uvcc.Runtime.{World, M, Instance, RequestBody, LibUv, and_then, uv_fs_read_into}
use uvcc.Runtime.Counts.{gain}
use uvcc.Runtime.Ends.{Ends, Ends-then}
use uvcc.Loop.Lifetime.{ClosesAll}
use uvcc.Request
use uvcc.Buffer.Sharing.{Sink}
use uvcc.Transfer.Counts.{
  Counts, Held, handle_ref_lem, request_ref_lem, buffer_ref_lem, call_lem, set_status_lem,
}
use uvcc.Transfer.Taken.{give_back_lem}
use uvcc.Transfer.Background.{Outcome, choose-Ends}
use uvcc.FileWrite.Steps.{
  Pending, Kept, positioned, set_target_lem, set_read_lem, pending_status_lem, pending_call_lem,
}
use uvcc.FileRead.{read_now, undo, read_later, read}

module _ (others : ℕ → ℕ) (uv : LibUv) (uncaught : Bool) (fuel : ℕ) (sink : ℕ → Sink)
    (on_request : ℕ → M (Unit {0})) (shut : ClosesAll uv) where
  module _ (h r b : ℕ → ℕ) (q p c : ℕ) (held_p : Held h p) (held_q : Held r q)
      (held_c : Held b c) where
    -- The references that a read takes while libuv works on it, and what it keeps.
    abbrev pub Queued : World → Type 0
    Queued w = Counts others (gain h p) (gain r q) (gain b c) w × Pending q p c w

    undo_lem :
        (w : World) (ret : ℤ)
        → Queued w
        → Ends
            (undo uv uncaught fuel sink on_request q p c ret w)
            (λ _ w'. if is_negative ret then Counts others h r b w' else Queued w')
    unfolding undo
    undo_lem w ret queued = elim (Bool-cases (is_negative ret)) [
      | inl neg ↦ rw neg (
          Ends-then _ _ _ _
            (set_status_lem others (gain h p) (gain r q) (gain b c) w q ret queued.0 (ground arith))
            λ _ w1 h1.
              give_back_lem others h r b q p c held_p held_q held_c uv uncaught fuel sink shut w1
                h1)
      | inr good ↦ rw good (tt, w, refl, queued)
    ]

    read_later_lem :
        (w : World) (offset : ℤ)
        → Counts others h r b w
        → Ends
            (read_later uv uncaught fuel sink on_request q p c offset w)
            (λ ret w'. if is_negative ret then Counts others h r b w' else Queued w')
    unfolding read_later
    read_later_lem w offset counts =
        Ends-then _ _ _ _ (handle_ref_lem others h r b w p counts held_p.0 (omega (arith, held_p)))
          λ _ w1 h1.
            Ends-then _ _ _ _
              (buffer_ref_lem others (gain h p) r b w1 c h1 held_c.0 (omega (arith, held_c)))
              λ _ w2 h2.
                Ends-then _ _ _ _
                  (request_ref_lem others (gain h p) r (gain b c) w2 q h2 held_q.0
                    (omega (arith, held_q)))
                  λ _ w3 h3.
                    Ends-then _ _ _ _
                      (set_read_lem others (gain h p) (gain r q) (gain b c) w3 q p c offset h3
                        (ground arith))
                      λ _ w4 (h4, k4).
                        Ends-then _ _ _ _
                          (pending_status_lem others (gain h p) (gain r q) (gain b c) w4 q p c
                            (pos 0) h4 k4)
                          λ _ w5 (h5, k5).
                            Ends-then _ _ _ _
                              (pending_call_lem others (gain h p) (gain r q) (gain b c) uv w5 q p c
                                (uv_fs_read_into q p c offset) h5 k5)
                              λ ret w6 h6.
                                Ends-then _ _ _ _ (undo_lem w6 ret h6)
                                  λ _ w7 h7. (ret, w7, refl, h7)

    read_now_lem :
        (w : World) (offset : ℤ)
        → Counts others h r b w
        → Ends
            (read_now uv uncaught fuel sink on_request q p c offset w)
            (λ _ w'. Counts others h r b w')
    unfolding read_now
    read_now_lem w offset counts =
        Ends-then _ _ _ _ (set_target_lem others h r b w q p offset counts held_q.0) λ _ w1 h1.
          Ends-then _ _ _ _ (call_lem others uv h r b w1 (uv_fs_read_into q p c offset) h1)
            λ ret w2 h2.
              Ends-then _ _ _ _ (set_status_lem others h r b w2 q ret h2 held_q.0)
                λ _ w3 h3. (ret, w3, refl, h3)

    choose_lem :
        (i : Instance RequestBody) (w : World) (x : ℤ)
        → Kept others h r b uv q i w
        → Ends
            (and_then (Request.load q w) λ j.
              if j.body.has_request_cb
              then read_later uv uncaught fuel sink on_request q p c x
              else read_now uv uncaught fuel sink on_request q p c x)
            (Outcome Queued (λ w'. Counts others h r b w') i)
    choose_lem i w x (counts, e) =
        choose-Ends Queued (λ w'. Counts others h r b w') q w i _ _ e (read_later_lem w x counts)
          (read_now_lem w x counts)

    pub read-balance :
        (w : World) (i : Instance RequestBody) (offset : ℤ)
        → Counts others h r b w
        → w.requests q ≡ some i
        → Ends
            (read uv uncaught fuel sink on_request q p c offset w)
            (Outcome Queued (λ w'. Counts others h r b w') i)
    unfolding read
    read-balance w i offset counts e =
        positioned others h r b uv q _ (Outcome Queued (λ w'. Counts others h r b w') i) i w p
          offset (counts, e) λ x w2 kept. choose_lem i w2 x kept

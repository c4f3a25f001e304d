-- ===== src/FileWrite/Balance.antt =====
-- The references that a file write takes come back when it fails, completes or runs synchronously.
use uvcc.Prelude.{ℕ, ◌≡◌, refl, inl, inr, Bool, some, arith, if◌then◌else◌, Bool-cases}
use uvcc.Prelude.Int.{ℤ, pos, is_negative}
use uvcc.Runtime.{World, M, Instance, RequestBody, LibUv, and_then, uv_fs_write}
use uvcc.Runtime.Counts.{gain}
use uvcc.Runtime.Ends.{Ends, Ends-then}
use uvcc.Loop.Lifetime.{ClosesAll}
use uvcc.Request
use uvcc.Buffer.Sharing.{Sink}
use uvcc.Transfer.Counts.{
  Counts, Held, handle_ref_lem, request_ref_lem, buffer_ref_lem, call_lem, set_status_lem,
}
use uvcc.Transfer.Taken.{give_back_lem}
use uvcc.Transfer.Background.{Outcome, choose-Ends}
use uvcc.FileWrite.{write_now, undo, write_later, write}
use uvcc.FileWrite.Steps.{
  Pending, Working, set_target_lem, set_write_lem, add_queued_lem, sub_queued_lem,
  pending_status_lem, pending_call_lem, Kept, positioned,
}

module _ (others : ℕ → ℕ) (uv : LibUv) (uncaught : Bool) (fuel : ℕ) (sink : ℕ → Sink)
    (on_request : ℕ → M (Unit {0})) (shut : ClosesAll uv) where
  module _ (h r b : ℕ → ℕ) (q p c : ℕ) (held_p : Held h p) (held_q : Held r q)
      (held_c : Held b c) where
    -- The references that a write takes while libuv works on it, and what it keeps.
    abbrev pub Queued : World → Type 0
    Queued w = Counts others (gain h p) (gain r q) (gain b c) w × Pending q p c w

    undo_lem :
        (w : World) (size : ℕ) (ret : ℤ)
        → Queued w
        → Ends
            (undo uv uncaught fuel sink on_request q p c size ret w)
            (λ _ w'. if is_negative ret then Counts others h r b w' else Queued w')
    unfolding undo
    undo_lem w size ret counts = elim (Bool-cases (is_negative ret)) [
      | inl neg ↦ rw neg (
          Ends-then _ _ _ _
            (set_status_lem others (gain h p) (gain r q) (gain b c) w q ret counts.0 (ground arith))
            λ _ w1 h1.
              Ends-then _ _ _ _
                (sub_queued_lem others (gain h p) (gain r q) (gain b c) w1 p size h1 (ground arith))
                λ _ w2 h2.
                  give_back_lem others h r b q p c held_p held_q held_c uv uncaught fuel sink shut
                    w2 h2)
      | inr good ↦ rw good (tt, w, refl, counts)
    ]

    write_later_lem :
        (w : World) (size : ℕ) (offset : ℤ)
        → Counts others h r b w
        → Ends
            (write_later uv uncaught fuel sink on_request q p c size offset w)
            (λ ret w'. if is_negative ret then Counts others h r b w' else Queued w')
    unfolding write_later
    write_later_lem w size offset counts =
        Ends-then _ _ _ _ (handle_ref_lem others h r b w p counts held_p.0 (omega (arith, held_p)))
          λ _ w1 h1.
            Ends-then _ _ _ _
              (buffer_ref_lem others (gain h p) r b w1 c h1 held_c.0 (omega (arith, held_c)))
              λ _ w2 h2.
                Ends-then _ _ _ _
                  (request_ref_lem others (gain h p) r (gain b c) w2 q h2 held_q.0
                    (omega (arith, held_q)))
                  λ _ w3 h3.
                    Ends-then _ _ _ _
                      (set_write_lem others (gain h p) (gain r q) (gain b c) w3 q p c offset size h3
                        (ground arith))
                      λ _ w4 (h4, k4).
                        Ends-then _ _ _ _
                          (add_queued_lem others (gain h p) (gain r q) (gain b c) (Working p c) w4 q
                            p size h4 k4 (ground arith))
                          λ _ w5 (h5, k5).
                            Ends-then _ _ _ _
                              (pending_status_lem others (gain h p) (gain r q) (gain b c) w5 q p c
                                (pos 0) h5 k5)
                              λ _ w6 (h6, k6).
                                Ends-then _ _ _ _
                                  (pending_call_lem others (gain h p) (gain r q) (gain b c) uv w6 q
                                    p c (uv_fs_write q p c offset) h6 k6)
                                  λ ret w7 h7.
                                    Ends-then _ _ _ _ (undo_lem w7 size ret h7)
                                      λ _ w8 h8. (ret, w8, refl, h8)

    write_now_lem :
        (w : World) (offset : ℤ)
        → Counts others h r b w
        → Ends
            (write_now uv uncaught fuel sink on_request q p c offset w)
            (λ _ w'. Counts others h r b w')
    unfolding write_now
    write_now_lem w offset counts =
        Ends-then _ _ _ _ (set_target_lem others h r b w q p offset counts held_q.0) λ _ w1 h1.
          Ends-then _ _ _ _ (call_lem others uv h r b w1 (uv_fs_write q p c offset) h1) λ ret w2 h2.
            Ends-then _ _ _ _ (set_status_lem others h r b w2 q ret h2 held_q.0)
              λ _ w3 h3. (ret, w3, refl, h3)

    -- What a write leaves, by its result.
    abbrev pub Written : Instance RequestBody → ℤ → World → Type 0
    Written i = Outcome (Queued) (λ w'. Counts others h r b w') i

    choose_lem :
        (i : Instance RequestBody) (w : World) (size : ℕ) (x : ℤ)
        → Kept others h r b uv q i w
        → Ends
            (and_then (Request.load q w) λ j.
              if j.body.has_request_cb
              then write_later uv uncaught fuel sink on_request q p c size x
              else write_now uv uncaught fuel sink on_request q p c x)
            (Written i)
    choose_lem i w size x (counts, e) =
        choose-Ends (Queued) (λ w'. Counts others h r b w') q w i _ _ e
          (write_later_lem w size x counts) (write_now_lem w x counts)

    -- A write to a file that is run holds one reference each to the file, the buffer and the request
    -- if the user has set a callback and libuv takes the write. Without a callback, where the write is
    -- synchronous, and where libuv refuses it, the counts are those from before. It is given that the
    -- caller has the three in variables, that no buffer has a sink callback and that libuv closes
    -- every loop that is given up.
    pub fs_write-balance :
        (w : World) (i : Instance RequestBody) (size : ℕ) (offset : ℤ)
        → Counts others h r b w
        → w.requests q ≡ some i
        → Ends (write uv uncaught fuel sink on_request q p c size offset w) (Written i)
    unfolding write
    fs_write-balance w i size offset counts e =
        positioned others h r b uv q _ (Written i) i w p offset (counts, e)
          λ x w2 kept. choose_lem i w2 size x kept

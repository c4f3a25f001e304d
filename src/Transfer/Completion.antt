-- ===== src/Transfer/Completion.antt =====
-- The callbacks of the requests release what the requests have taken.
use uvcc.Prelude.{
  ℕ, ◌<◌, ◌≡◌, refl, sym, subst, inl, inr, Bool, true, false, arith, if◌then◌else◌, Bool-cases,
}
use uvcc.Prelude.Int.{ℤ, is_negative}
use uvcc.Runtime.{World, M, LibUv, Call, ◌>>=◌, pure}
use uvcc.Runtime.Counts.{gain, lose}
use uvcc.Runtime.Ends.{Ends, Ends-then, Ends-weaken}
use uvcc.Loop.Lifetime.{ClosesAll}
use uvcc.Request
use uvcc.Buffer.Sharing.{Sink}
use uvcc.Transfer.Counts.{
  Counts, Held, request_ref_lem, request_unref_lem, buffer_unref_lem, handle_unref_lem,
}
use uvcc.Transfer.Balance.{Loaded, loaded_status_lem, lose-gain, transfer-balance}
use uvcc.Transfer.{transfer, hand_over, write_cb}

-- The user's callback ends, with as many references as before.
abbrev pub Harmless : (others : ℕ → ℕ) → (ℕ → M (Unit {0})) → Type 0
Harmless others on_request =
    (h r b : ℕ → ℕ) (w : World) (q : ℕ)
    → Counts others h r b w
    → Ends (on_request q w) (λ _ w'. Counts others h r b w')

module _ (others : ℕ → ℕ) (uv : LibUv) (uncaught : Bool) (fuel : ℕ) (sink : ℕ → Sink)
    (on_request : ℕ → M (Unit {0})) (shut : ClosesAll uv) (user : Harmless others on_request) where
  module _ (h r b : ℕ → ℕ) (q p c : ℕ) (held_p : Held h p) (held_q : Held r q)
      (held_c : Held b c) where
    pub hand_over_lem :
        (w : World) (set : Bool)
        → Counts others h r b w
        → Ends
            (hand_over uv uncaught fuel sink on_request q c set w)
            (λ _ w'. Counts others h r (lose b c) w')
    unfolding hand_over
    hand_over_lem w true counts =
        Ends-then _ _ _ _ (request_ref_lem others h r b w q counts held_q.0 (omega (arith, held_q)))
          λ _ w1 h1. Ends-then _ _ _ _ (user h (gain r q) b w1 q h1) λ _ w2 h2.
            Ends-then _ _ _ _
              (buffer_unref_lem others sink h (gain r q) b w2 c h2 held_c.0 (omega (arith, held_c)))
              λ _ w3 h3.
                Ends-weaken _ _ _
                  (request_unref_lem others h (gain r q) (lose b c) w3 q h3 (ground arith)
                    (ground (arith, held_q)))
                  λ _ w4 h4. subst (λ o. Counts others h o (lose b c) w4) (lose-gain r q) h4
    hand_over_lem w false counts =
        buffer_unref_lem others sink h r b w c counts held_c.0 (omega (arith, held_c))

    load_lem :
        (w : World)
        → Counts others h r b w
        → Loaded q c w
        → Ends (Request.load q w) (λ i w'. (i.body.uv_buf ≡ c) × Counts others h r b w')
    load_lem w counts (i, e, l) = (i, w, ground (arith, e), (l, counts))

    -- The callback of a completed write or send releases one reference each to the handle, the
    -- buffer that `run` has kept in the request, and the request, whether or not the user has set a
    -- callback; any of them may be the last. It is given that the user's callback leaves the counts,
    -- that no buffer has a sink callback and that libuv closes every loop that is given up.
    pub write_cb-releases :
        (w : World) (status : ℤ)
        → Counts others h r b w
        → Loaded q c w
        → Ends
            (write_cb uv uncaught fuel sink on_request q p status w)
            (λ _ w'. Counts others (lose h p) (lose r q) (lose b c) w')
    unfolding write_cb
    write_cb-releases w status counts loaded =
        Ends-then _ _ _ _ (loaded_status_lem others h r b w q c status counts loaded)
          λ _ w1 (h1, l1). Ends-then _ _ _ _ (load_lem w1 h1 l1) λ i w2 (l2, h2).
            Ends-then _ _ _ _
              (subst
                (λ x.
                  Ends (hand_over uv uncaught fuel sink on_request q x i.body.has_request_cb w2)
                    (λ _ w'. Counts others h r (lose b c) w'))
                (sym l2) (hand_over_lem w2 i.body.has_request_cb h2))
              λ _ w3 h3.
                Ends-then _ _ _ _
                  (request_unref_lem others h r (lose b c) w3 q h3 held_q.0 (omega (arith, held_q)))
                  λ _ w4 h4.
                    handle_unref_lem others uv uncaught fuel h (lose r q) (lose b c) w4 p shut h4
                      held_p.0 (omega (arith, held_p))

  module _ (h r b : ℕ → ℕ) (q p c : ℕ) (held_p : Held (gain h p) p) (held_q : Held (gain r q) q)
      (held_c : Held (gain b c) c) (in_p : 0 < h p) (in_q : 0 < r q) (in_c : 0 < b c) where
    -- The outcome of a transfer with all that follows from it: the callback, if libuv has taken it.
    abbrev pub complete : ℤ → ℤ → M (Unit {0})
    complete status ret =
        if is_negative ret then pure tt else write_cb uv uncaught fuel sink on_request q p status

    -- A write or send that is run, and called back if libuv has taken it, leaves exactly the
    -- references from before, whatever libuv answers and whether or not the user has set a callback.
    -- It is given that the caller keeps the handle, the buffer and the request in variables, that the
    -- user's callback leaves the counts, that no buffer has a sink callback and that libuv closes
    -- every loop that is given up.
    pub transfer-completes :
        (w : World) (k : Call) (status : ℤ)
        → Counts others h r b w
        → Ends
            ((transfer uv uncaught fuel sink on_request q p c k >>= complete status) w)
            (λ _ w'. Counts others h r b w')
    transfer-completes w k status counts =
        Ends-then _ _ _ _
          (transfer-balance others uv uncaught fuel sink on_request shut h r b q p c
            (in_p, ground (arith, held_p)) (in_q, ground (arith, held_q))
            (in_c, ground (arith, held_c)) w k counts)
          λ ret w1 h1. elim (Bool-cases (is_negative ret)) [
            | inl neg ↦ rw neg (tt, w1, refl, (rw neg at h1))
            | inr good ↦
                let (h2, l2) = rw good at h1 in
                rw good (
                  Ends-weaken _ _ _
                    (write_cb-releases (gain h p) (gain r q) (gain b c) q p c held_p held_q held_c
                      w1 status h2 l2)
                    λ _ w2 h3.
                      subst (λ o. Counts others o r b w2) (lose-gain h p)
                        (subst (λ o. Counts others (lose (gain h p) p) o b w2) (lose-gain r q)
                          (subst (λ o. Counts others (lose (gain h p) p) (lose (gain r q) q) o w2)
                            (lose-gain b c) h3)))
          ]

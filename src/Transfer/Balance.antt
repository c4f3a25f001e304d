-- ===== src/Transfer/Balance.antt =====
-- The references that a request takes when it is run come back when it fails or completes.
use uvcc.Prelude.{
  ℕ, List, ◌∷◌, ◌<◌, ◌≡◌, refl, subst, fun_ext, inl, inr, Bool, some, arith, if◌then◌else◌,
  Bool-cases,
}
use uvcc.Prelude.Int.{ℤ, pos, is_negative}
use uvcc.Runtime.{World, M, Instance, RequestBody, Event, LibUv, Call, call, called}
use uvcc.Runtime.Counts.{Counted-live, gain, lose}
use uvcc.Runtime.Ends.{Ends, Ends-then, Ends-weaken}
use uvcc.Loop.Lifetime.{ClosesAll}
use uvcc.Handle.Counted.{trace-Inv}
use uvcc.Request
use uvcc.Buffer.Sharing.{Sink}
use uvcc.Transfer.Counts.{
  Counts, Held, handle_ref_lem, request_ref_lem, request_unref_lem, buffer_ref_lem,
  buffer_unref_lem, handle_unref_lem, store_lem, set_status_lem,
}
use uvcc.Transfer.{set_buf, undo_write, transfer}

-- The request `q` has the buffer `c` in its properties.
abbrev pub Loaded : ℕ → ℕ → World → Type 0
Loaded q c w = (i : Instance RequestBody) × (w.requests q ≡ some i) × (i.body.uv_buf ≡ c)

-- The result is what libuv has answered to the call.
abbrev pub Answered : LibUv → Call → ℤ → Type 0
Answered uv k ret = (t : List Event) × (ret ≡ uv t k)

pub lose-gain : (own : ℕ → ℕ) (p : ℕ) → lose (gain own p) p ≡ own
lose-gain own p = fun_ext λ q. ground arith

module _ (others : ℕ → ℕ) where
  set_buf_lem :
      (h r b : ℕ → ℕ) (w : World) (q c : ℕ)
      → Counts others h r b w
      → 0 < r q
      → Ends (set_buf q c w) (λ _ w'. Counts others h r b w' × Loaded q c w')
  unfolding set_buf
  set_buf_lem h r b w q c counts held =
      let (i, e, n) = Counted-live w.requests r q counts.1 held in
      let i' = record i { body = record i.body { uv_buf = c } } in
      (
        tt,
        _,
        ground (arith, e),
        (store_lem others h r b w q i i' counts e refl, (i', ground arith, refl)),
      )

  pub loaded_status_lem :
      (h r b : ℕ → ℕ) (w : World) (q c : ℕ) (status : ℤ)
      → Counts others h r b w
      → Loaded q c w
      → Ends (Request.set_status q status w) (λ _ w'. Counts others h r b w' × Loaded q c w')
  unfolding Request.set_status
  loaded_status_lem h r b w q c status counts (i, e, l) =
      let i' = record i { uv_error = status } in
      (
        tt,
        _,
        ground (arith, e),
        (store_lem others h r b w q i i' counts e refl, (i', ground arith, l)),
      )

  loaded_call_lem :
      (uv : LibUv) (h r b : ℕ → ℕ) (w : World) (q c : ℕ) (k : Call)
      → Counts others h r b w
      → Loaded q c w
      → Ends (call uv k w) (λ ret w'. Answered uv k ret × Counts others h r b w' × Loaded q c w')
  loaded_call_lem uv h r b w q c k counts l = (
    _,
    _,
    refl,
    (
      (w.trace, refl),
      (
        trace-Inv others w h (called k (uv w.trace k) ∷ w.trace) counts.0,
        counts.1,
        counts.2,
        counts.3,
      ),
      l,
    ),
  )

module _ (others : ℕ → ℕ) (uv : LibUv) (uncaught : Bool) (fuel : ℕ) (sink : ℕ → Sink)
    (on_request : ℕ → M (Unit {0})) (shut : ClosesAll uv) where
  module _ (h r b : ℕ → ℕ) (q p c : ℕ) (held_p : Held h p) (held_q : Held r q)
      (held_c : Held b c) where
    -- The references that a transfer takes while libuv works on it.
    abbrev pub Pending : World → Type 0
    Pending w = Counts others (gain h p) (gain r q) (gain b c) w

    undo_write_lem :
        (w : World) (ret : ℤ)
        → Pending w
        → Loaded q c w
        → Ends
            (undo_write uv uncaught fuel sink on_request q p c ret w)
            (λ _ w'. if is_negative ret then Counts others h r b w' else Pending w' × Loaded q c w')
    unfolding undo_write
    undo_write_lem w ret counts loaded = elim (Bool-cases (is_negative ret)) [
      | inl neg ↦ rw neg (
          Ends-then _ _ _ _
            (set_status_lem others (gain h p) (gain r q) (gain b c) w q ret counts (ground arith))
            λ _ w1 h1.
              Ends-then _ _ _ _
                (handle_unref_lem others uv uncaught fuel (gain h p) (gain r q) (gain b c) w1 p shut
                  h1 (ground arith) (ground (arith, held_p)))
                λ _ w2 h2.
                  Ends-then _ _ _ _
                    (buffer_unref_lem others sink (lose (gain h p) p) (gain r q) (gain b c) w2 c h2
                      (ground arith) (ground (arith, held_c)))
                    λ _ w3 h3.
                      Ends-weaken _ _ _
                        (request_unref_lem others (lose (gain h p) p) (gain r q) (lose (gain b c) c)
                          w3 q h3 (ground arith) (ground (arith, held_q)))
                        λ _ w4 h4.
                          subst (λ o. Counts others o r b w4) (lose-gain h p)
                            (subst (λ o. Counts others (lose (gain h p) p) o b w4) (lose-gain r q)
                              (subst
                                (λ o. Counts others (lose (gain h p) p) (lose (gain r q) q) o w4)
                                (lose-gain b c) h4)))
      | inr good ↦ rw good (tt, w, refl, (counts, loaded))
    ]

    -- The result is libuv's answer, and the counts go by it.
    pub transfer_lem :
        (w : World) (k : Call)
        → Counts others h r b w
        → Ends (transfer uv uncaught fuel sink on_request q p c k w) (λ ret w'.
          Answered uv k ret
          × (if is_negative ret then Counts others h r b w' else Pending w' × Loaded q c w'))
    unfolding transfer
    transfer_lem w k counts =
        Ends-then _ _ _ _ (handle_ref_lem others h r b w p counts held_p.0 (omega (arith, held_p)))
          λ _ w1 h1.
            Ends-then _ _ _ _
              (buffer_ref_lem others (gain h p) r b w1 c h1 held_c.0 (omega (arith, held_c)))
              λ _ w2 h2.
                Ends-then _ _ _ _
                  (request_ref_lem others (gain h p) r (gain b c) w2 q h2 held_q.0
                    (omega (arith, held_q)))
                  λ _ w3 h3.
                    Ends-then _ _ _ _
                      (set_buf_lem others (gain h p) (gain r q) (gain b c) w3 q c h3 (ground arith))
                      λ _ w4 (h4, l4).
                        Ends-then _ _ _ _
                          (loaded_status_lem others (gain h p) (gain r q) (gain b c) w4 q c (pos 0)
                            h4 l4)
                          λ _ w5 (h5, l5).
                            Ends-then _ _ _ _
                              (loaded_call_lem others uv (gain h p) (gain r q) (gain b c) w5 q c k
                                h5 l5)
                              λ ret w6 (a, h6, l6).
                                Ends-then _ _ _ _ (undo_write_lem w6 ret h6 l6)
                                  λ _ w7 h7. (ret, w7, refl, (a, h7))

    -- A write to a stream or a datagram that is run holds one reference each to the handle, the
    -- buffer and the request if libuv takes it, and keeps the buffer's pointer in the request; if
    -- libuv refuses it, the counts are those from before. It is given that the caller has the three
    -- in variables, that no buffer has a sink callback and that libuv closes every loop that is given
    -- up.
    pub transfer-balance :
        (w : World) (k : Call)
        → Counts others h r b w
        → Ends (transfer uv uncaught fuel sink on_request q p c k w) (λ ret w'.
          if is_negative ret then Counts others h r b w' else Pending w' × Loaded q c w')
    transfer-balance w k counts = Ends-weaken _ _ _ (transfer_lem w k counts) λ ret w' (_, y). y

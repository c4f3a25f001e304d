-- ===== src/Transfer/Connection.antt =====
-- The requests without a buffer: connect and shutdown.
use uvcc.Prelude.{
  ℕ, ◌<◌, refl, subst, inl, inr, Bool, true, false, arith, if◌then◌else◌, Bool-cases,
}
use uvcc.Prelude.Int.{ℤ, pos, is_negative}
use uvcc.Runtime.{World, M, LibUv, Call, when, pure, ◌>>=◌}
use uvcc.Runtime.Counts.{gain, lose, Counted-live}
use uvcc.Runtime.Ends.{Ends, Ends-then, Ends-weaken}
use uvcc.Loop.Lifetime.{ClosesAll}
use uvcc.Request
use uvcc.Buffer.Sharing.{Sink}
use uvcc.Transfer.Counts.{
  Counts, Held, handle_ref_lem, request_ref_lem, request_unref_lem, handle_unref_lem, call_lem,
  set_status_lem,
}
use uvcc.Transfer.Balance.{lose-gain}
use uvcc.Transfer.Completion.{Harmless}
use uvcc.Transfer.{undo, submit, notify, finished_cb}

module _ (others : ℕ → ℕ) (uv : LibUv) (uncaught : Bool) (fuel : ℕ) (sink : ℕ → Sink)
    (on_request : ℕ → M (Unit {0})) (shut : ClosesAll uv) where
  module _ (h r b : ℕ → ℕ) (q p : ℕ) (held_p : Held h p) (held_q : Held r q) where
    undo_lem :
        (w : World) (ret : ℤ)
        → Counts others (gain h p) (gain r q) b w
        → Ends (undo uv uncaught fuel sink on_request q p ret w) (λ _ w'.
          if is_negative ret
          then Counts others h r b w'
          else Counts others (gain h p) (gain r q) b w')
    unfolding undo
    undo_lem w ret counts = elim (Bool-cases (is_negative ret)) [
      | inl neg ↦ rw neg (
          Ends-then _ _ _ _
            (set_status_lem others (gain h p) (gain r q) b w q ret counts (ground arith))
            λ _ w1 h1.
              Ends-then _ _ _ _
                (handle_unref_lem others uv uncaught fuel (gain h p) (gain r q) b w1 p shut h1
                  (ground arith) (ground (arith, held_p)))
                λ _ w2 h2.
                  Ends-weaken _ _ _
                    (request_unref_lem others (lose (gain h p) p) (gain r q) b w2 q h2
                      (ground arith) (ground (arith, held_q)))
                    λ _ w3 h3.
                      subst (λ o. Counts others o r b w3) (lose-gain h p)
                        (subst (λ o. Counts others (lose (gain h p) p) o b w3) (lose-gain r q) h3))
      | inr good ↦ rw good (tt, w, refl, counts)
    ]

    -- Running a connect or shutdown request takes one reference each to the stream and the request if
    -- libuv takes it, and none if libuv refuses it. It is given that the caller has both in variables,
    -- that no buffer has a sink callback and that libuv closes every loop that is given up.
    pub submit-balance :
        (w : World) (k : Call)
        → Counts others h r b w
        → Ends (submit uv uncaught fuel sink on_request q p k w) (λ ret w'.
          if is_negative ret
          then Counts others h r b w'
          else Counts others (gain h p) (gain r q) b w')
    unfolding submit
    submit-balance w k counts =
        Ends-then _ _ _ _ (handle_ref_lem others h r b w p counts held_p.0 (omega (arith, held_p)))
          λ _ w1 h1.
            Ends-then _ _ _ _
              (request_ref_lem others (gain h p) r b w1 q h1 held_q.0 (omega (arith, held_q)))
              λ _ w2 h2.
                Ends-then _ _ _ _
                  (set_status_lem others (gain h p) (gain r q) b w2 q (pos 0) h2 (ground arith))
                  λ _ w3 h3.
                    Ends-then _ _ _ _ (call_lem others uv (gain h p) (gain r q) b w3 k h3)
                      λ ret w4 h4.
                        Ends-then _ _ _ _ (undo_lem w4 ret h4) λ _ w5 h5. (ret, w5, refl, h5)

  module _ (user : Harmless others on_request) (h r b : ℕ → ℕ) (q p : ℕ) (held_p : Held h p)
      (held_q : Held r q) where
    notify_lem :
        (w : World)
        → Counts others h r b w
        → Ends (notify uv uncaught fuel sink on_request q w) (λ _ w'. Counts others h r b w')
    unfolding notify
    notify_lem w counts =
        Ends-then _ _ _ _ (request_ref_lem others h r b w q counts held_q.0 (omega (arith, held_q)))
          λ _ w1 h1. Ends-then _ _ _ _ (user h (gain r q) b w1 q h1) λ _ w2 h2.
            Ends-weaken _ _ _
              (request_unref_lem others h (gain r q) b w2 q h2 (ground arith)
                (ground (arith, held_q)))
              λ _ w3 h3. subst (λ o. Counts others h o b w3) (lose-gain r q) h3

    when_lem :
        (w : World) (set : Bool)
        → Counts others h r b w
        → Ends
            (when set (notify uv uncaught fuel sink on_request q) w)
            (λ _ w'. Counts others h r b w')
    when_lem w true counts = notify_lem w counts
    when_lem w false counts = (tt, w, refl, counts)

    load_lem :
        (w : World)
        → Counts others h r b w
        → Ends (Request.load q w) (λ _ w'. Counts others h r b w')
    load_lem w counts =
        let (i, e, n) = Counted-live w.requests r q counts.1 held_q.0 in
        (i, w, ground (arith, e), counts)

    -- The callback of a finished connect or shutdown request releases one reference each to the
    -- request and the stream, either of which may be the last, whether or not the user has set a
    -- callback. It is given that the user's callback leaves the counts and that libuv closes every
    -- loop that is given up.
    pub finished_cb-releases :
        (w : World) (status : ℤ)
        → Counts others h r b w
        → Ends
            (finished_cb uv uncaught fuel sink on_request q p status w)
            (λ _ w'. Counts others (lose h p) (lose r q) b w')
    unfolding finished_cb
    finished_cb-releases w status counts =
        Ends-then _ _ _ _ (set_status_lem others h r b w q status counts held_q.0) λ _ w1 h1.
          Ends-then _ _ _ _ (load_lem w1 h1) λ i w2 h2.
            Ends-then _ _ _ _ (when_lem w2 i.body.has_request_cb h2) λ _ w3 h3.
              Ends-then _ _ _ _
                (request_unref_lem others h r b w3 q h3 held_q.0 (omega (arith, held_q)))
                λ _ w4 h4.
                  handle_unref_lem others uv uncaught fuel h (lose r q) b w4 p shut h4 held_p.0
                    (omega (arith, held_p))

  module _ (user : Harmless others on_request) (h r b : ℕ → ℕ) (q p : ℕ) (in_p : 0 < h p)
      (in_q : 0 < r q) (held_p : Held (gain h p) p) (held_q : Held (gain r q) q) where
    -- The callback, if libuv has taken the request.
    abbrev pub finish : ℤ → ℤ → M (Unit {0})
    finish status ret =
        if is_negative ret then pure tt else finished_cb uv uncaught fuel sink on_request q p status

    -- A request that submits a call of libuv on a stream, as a connect of a TCP socket and a shutdown
    -- do, that is run, and called back if libuv has taken it, leaves exactly the references from
    -- before, whatever libuv answers and whether or not the user has set a callback. It is given that
    -- the caller has the stream and the request in variables, that the user's callback leaves the
    -- counts, that no buffer has a sink callback and that libuv closes every loop that is given up.
    pub submit-completes :
        (w : World) (k : Call) (status : ℤ)
        → Counts others h r b w
        → Ends
            ((submit uv uncaught fuel sink on_request q p k >>= finish status) w)
            (λ _ w'. Counts others h r b w')
    submit-completes w k status counts =
        Ends-then _ _ _ _
          (submit-balance h r b q p (in_p, ground (arith, held_p)) (in_q, ground (arith, held_q)) w
            k counts)
          λ ret w1 h1. elim (Bool-cases (is_negative ret)) [
            | inl neg ↦ rw neg (tt, w1, refl, (rw neg at h1))
            | inr good ↦ rw good (
                Ends-weaken _ _ _
                  (finished_cb-releases user (gain h p) (gain r q) b q p held_p held_q w1 status
                    (rw good at h1))
                  λ _ w2 h2.
                    subst (λ o. Counts others o r b w2) (lose-gain h p)
                      (subst (λ o. Counts others (lose (gain h p) p) o b w2) (lose-gain r q) h2))
          ]

-- ===== src/Scheme/Callbacks.antt =====
-- What the callbacks of the scheme do to the counts.
use uvcc.Prelude.{ℕ, ◌≡◌, refl, subst, Bool, true, false, some, arith, ◌==◌}
use uvcc.Prelude.Int.{ℤ}
use uvcc.Runtime.{World, M, LibUv, ◌>>◌}
use uvcc.Runtime.Counts.{Counted-live, gain, lose}
use uvcc.Runtime.Ends.{Ends, Ends-then, Ends-weaken}
use uvcc.Loop.Lifetime.{ClosesAll}
use uvcc.Handle
use uvcc.Request
use uvcc.Transfer.Counts.{
  Counts, Held, request_ref_lem, request_unref_lem, handle_unref_lem, set_status_lem,
}
use uvcc.Transfer.Balance.{lose-gain}
use uvcc.Transfer.Completion.{Harmless}
use uvcc.Scheme.{notify_if, path_cb, file_cb, either_cb}
use uvcc.Scheme.Steps.{Keeps, status_lem}

module _ (others : ℕ → ℕ) (uv : LibUv) (uncaught : Bool) (fuel : ℕ) (on_request : ℕ → M (Unit {0}))
    (shut : ClosesAll uv) (user : Harmless others on_request) (h r b : ℕ → ℕ) (q : ℕ)
    (held_q : Held r q) where
  pub notify_lem :
      (set : Bool) (w : World)
      → Counts others h r b w
      → Ends (notify_if uv uncaught fuel on_request set q w) (λ _ w'. Counts others h r b w')
  unfolding notify_if
  notify_lem false w counts = (tt, w, refl, counts)
  notify_lem true w counts =
      Ends-then _ _ _ _ (request_ref_lem others h r b w q counts held_q.0 (omega (arith, held_q)))
        λ _ w1 h1. Ends-then _ _ _ _ (user h (gain r q) b w1 q h1) λ _ w2 h2.
          Ends-weaken _ _ _
            (request_unref_lem others h (gain r q) b w2 q h2 (ground arith)
              (ground (arith, held_q)))
            λ _ w3 h3. subst (λ o. Counts others h o b w3) (lose-gain r q) h3

  -- The callback and the release of the request behind it.
  pub notify_release :
      (set : Bool) (w : World)
      → Counts others h r b w
      → Ends
          ((do notify_if uv uncaught fuel on_request set q; Request.unref q) w)
          (λ _ w'. Counts others h (lose r q) b w')
  notify_release set w counts =
      Ends-then _ _ _ _ (notify_lem set w counts)
        λ _ w1 h1. request_unref_lem others h r b w1 q h1 held_q.0 (omega (arith, held_q))

  pub path_cb_lem :
      (w : World) (result : ℤ)
      → Counts others h r b w
      → Ends
          (path_cb uv uncaught fuel on_request q result w)
          (λ _ w'. Counts others h (lose r q) b w')
  unfolding path_cb
  path_cb_lem w result counts =
      Ends-then _ _ _ _ (set_status_lem others h r b w q result counts held_q.0) λ _ w1 h1.
        let (i, e, n) = Counted-live w1.requests r q h1.1 held_q.0 in
        rw e (notify_release i.body.has_request_cb w1 h1)

  -- The same for a request that may keep a file, where it keeps none.
  pub null_cb_lem :
      (w : World) (result : ℤ)
      → Keeps others h r b q (some 0) w
      → Ends
          (either_cb uv uncaught fuel on_request q result w)
          (λ _ w'. Counts others h (lose r q) b w')
  unfolding either_cb
  null_cb_lem w result keeps =
      Ends-then _ _ _ _ (status_lem others h r b q held_q.0 (some 0) w result keeps)
        λ _ w1 (h1, (i, e, is)). rw (e, is) (notify_release i.body.has_request_cb w1 h1)

  module _ (p : ℕ) (held_p : Held h p) where
    release_both :
        (set : Bool) (w : World)
        → Counts others h r b w
        → Ends
            ((do
              notify_if uv uncaught fuel on_request set q
              Request.unref q
              Handle.unref uv uncaught fuel p)
              w)
            (λ _ w'. Counts others (lose h p) (lose r q) b w')
    release_both set w counts = Ends-then _ _ _ _ (notify_lem set w counts) λ _ w1 h1.
        Ends-then _ _ _ _ (request_unref_lem others h r b w1 q h1 held_q.0 (omega (arith, held_q)))
          λ _ w2 h2.
            handle_unref_lem others uv uncaught fuel h (lose r q) b w2 p shut h2 held_p.0
              (omega (arith, held_p))

    pub file_cb_lem :
        (w : World) (result : ℤ)
        → Keeps others h r b q (some p) w
        → Ends
            (file_cb uv uncaught fuel on_request q result w)
            (λ _ w'. Counts others (lose h p) (lose r q) b w')
    unfolding file_cb
    file_cb_lem w result keeps =
        Ends-then _ _ _ _ (status_lem others h r b q held_q.0 (some p) w result keeps)
          λ _ w1 (h1, (i, e, is)). rw (e, is) (release_both i.body.has_request_cb w1 h1)

    pub either_cb_lem :
        (w : World) (result : ℤ)
        → (p == 0) ≡ false
        → Keeps others h r b q (some p) w
        → Ends
            (either_cb uv uncaught fuel on_request q result w)
            (λ _ w'. Counts others (lose h p) (lose r q) b w')
    unfolding either_cb
    either_cb_lem w result nonnull keeps =
        Ends-then _ _ _ _ (status_lem others h r b q held_q.0 (some p) w result keeps)
          λ _ w1 (h1, (i, e, is)). rw (e, is, nonnull) (release_both i.body.has_request_cb w1 h1)

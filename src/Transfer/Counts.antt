-- ===== src/Transfer/Counts.antt =====
-- What the operations on handles, requests and buffers do to the counts of all three.
use uvcc.Prelude.{ℕ, ◌+◌, ◌<◌, ◌≡◌, refl, sym, subst, Bool, false, some, arith, ◌∷◌}
use uvcc.Prelude.Int.{ℤ}
use uvcc.Utility.RefCount.{long_mod}
use uvcc.Runtime.{World, Heap, put, Instance, RequestBody, BufferBody, LibUv, Call, called, call}
use uvcc.Runtime.Counts.{Counted, Counted-live, gain, lose}
use uvcc.Runtime.Ends.{Ends, Ends-weaken}
use uvcc.Loop.Lifetime.{ClosesAll}
use uvcc.Handle
use uvcc.Handle.Counted.{Inv, trace-Inv, rest-Inv}
use uvcc.Handle.Lifetime.{ref_ok, handle_unref_law}
use uvcc.Request
use uvcc.Request.Lifetime.{request_ref_law, request_unref_law}
use uvcc.Buffer.Sharing
use uvcc.Buffer.Sharing.{Sink}
use uvcc.Buffer.Sharing.Lifetime.{plain_ref_law, plain_unref_law}

-- No buffer has a sink callback.
abbrev pub NoSinks : World → Type 0
NoSinks w = (b : ℕ) (i : Instance BufferBody) → w.buffers b ≡ some i → i.body.has_sink_cb ≡ false

-- The counts of the handles, the requests and the buffers are `h`, `r` and `b`.
abbrev pub Counts : (ℕ → ℕ) → (ℕ → ℕ) → (ℕ → ℕ) → (ℕ → ℕ) → World → Type 0
Counts others h r b w = Inv others w h × Counted w.requests r × Counted w.buffers b × NoSinks w

-- A reference is held, and there is room for two more.
abbrev pub Held : (ℕ → ℕ) → ℕ → Type 0
Held own p = (0 < own p) × (own p + 2 < long_mod)

module _ (others : ℕ → ℕ) where
  pub handle_ref_lem :
      (h r b : ℕ → ℕ) (w : World) (p : ℕ)
      → Counts others h r b w
      → 0 < h p
      → h p + 1 < long_mod
      → Ends (Handle.ref p w) (λ _ w'. Counts others (gain h p) r b w')
  handle_ref_lem h r b w p (inv, cr, cb, plain) pos room =
      let (i, e, n) = Counted-live w.handles h p inv.1.counted pos in
      let (run, inv') = ref_ok others w h p i inv e room in (tt, _, run, (inv', cr, cb, plain))

  pub request_ref_lem :
      (h r b : ℕ → ℕ) (w : World) (q : ℕ)
      → Counts others h r b w
      → 0 < r q
      → r q + 1 < long_mod
      → Ends (Request.ref q w) (λ _ w'. Counts others h (gain r q) b w')
  request_ref_lem h r b w q (inv, cr, cb, plain) pos room =
      let (rs, run, c) = request_ref_law w r q cr pos room in
      (tt, _, run, (rest-Inv others w h rs w.buffers w.trace inv, c, cb, plain))

  pub request_unref_lem :
      (h r b : ℕ → ℕ) (w : World) (q : ℕ)
      → Counts others h r b w
      → 0 < r q
      → r q < long_mod
      → Ends (Request.unref q w) (λ _ w'. Counts others h (lose r q) b w')
  request_unref_lem h r b w q (inv, cr, cb, plain) pos room =
      let (rs, t, run, c) = request_unref_law w r q cr pos room in
      (tt, _, run, (rest-Inv others w h rs w.buffers t inv, c, cb, plain))

  pub buffer_ref_lem :
      (h r b : ℕ → ℕ) (w : World) (c : ℕ)
      → Counts others h r b w
      → 0 < b c
      → b c + 1 < long_mod
      → Ends (Sharing.ref c w) (λ _ w'. Counts others h r (gain b c) w')
  buffer_ref_lem h r b w c (inv, cr, cb, plain) pos room =
      let (i, e, n) = Counted-live w.buffers b c cb pos in
      let (run, cb') = plain_ref_law w b c i cb e room in
      (
        tt,
        _,
        run,
        (
          rest-Inv others w h w.requests _ w.trace inv,
          cr,
          cb',
          λ x j f. ground (arith, f, plain c i e, plain x j),
        ),
      )

  pub buffer_unref_lem :
      (sink : ℕ → Sink) (h r b : ℕ → ℕ) (w : World) (c : ℕ)
      → Counts others h r b w
      → 0 < b c
      → b c < long_mod
      → Ends (Sharing.unref sink c w) (λ _ w'. Counts others h r (lose b c) w')
  buffer_unref_lem sink h r b w c (inv, cr, cb, plain) pos room =
      let (i, e, n) = Counted-live w.buffers b c cb pos in
      let (o, t, run, cb', s) = plain_unref_law sink w b c i cb e (plain c i e) pos room in
      (
        tt,
        _,
        run,
        (
          rest-Inv others w h w.requests (put w.buffers c o) t inv,
          cr,
          cb',
          λ x j f. ground (arith, f, s j, plain x j),
        ),
      )

  -- The release of a handle changes no request.
  pub handle_unref_same :
      (uv : LibUv) (uncaught : Bool) (fuel : ℕ) (h r b : ℕ → ℕ) (w : World) (p : ℕ)
      → ClosesAll uv
      → Counts others h r b w
      → 0 < h p
      → h p < long_mod
      → Ends
          (Handle.unref uv uncaught fuel p w)
          (λ _ w'. Counts others (lose h p) r b w' × (w'.requests ≡ w.requests))
  handle_unref_same uv uncaught fuel h r b w p shut (inv, cr, cb, plain) pos room =
      let (w', run, inv', same) =
        handle_unref_law others uv uncaught fuel shut w h p inv pos room in
      (
        tt,
        w',
        run,
        (
          (
            inv',
            subst (λ rs. Counted rs r) (sym same.0) cr,
            subst (λ bs. Counted bs b) (sym same.1) cb,
            subst
                (λ (bs : Heap BufferBody).
                  (c : ℕ) (i : Instance BufferBody) → bs c ≡ some i → i.body.has_sink_cb ≡ false)
                (sym same.1) plain,
          ),
          same.0,
        ),
      )

  pub handle_unref_lem :
      (uv : LibUv) (uncaught : Bool) (fuel : ℕ) (h r b : ℕ → ℕ) (w : World) (p : ℕ)
      → ClosesAll uv
      → Counts others h r b w
      → 0 < h p
      → h p < long_mod
      → Ends (Handle.unref uv uncaught fuel p w) (λ _ w'. Counts others (lose h p) r b w')
  handle_unref_lem uv uncaught fuel h r b w p shut counts pos room =
      Ends-weaken _ _ _ (handle_unref_same uv uncaught fuel h r b w p shut counts pos room)
        λ _ w' h'. h'.0

  pub call_lem :
      (uv : LibUv) (h r b : ℕ → ℕ) (w : World) (c : Call)
      → Counts others h r b w
      → Ends (call uv c w) (λ _ w'. Counts others h r b w')
  call_lem uv h r b w c (inv, cr, cb, plain) =
      (_, _, refl, (trace-Inv others w h (called c (uv w.trace c) ∷ w.trace) inv, cr, cb, plain))

  -- A change of a request that leaves its count.
  pub store_lem :
      (h r b : ℕ → ℕ) (w : World) (q : ℕ) (i i' : Instance RequestBody)
      → Counts others h r b w
      → w.requests q ≡ some i
      → i'.refs ≡ i.refs
      → Counts others h r b (record w { requests = put w.requests q (some i') })
  store_lem h r b w q i i' (inv, cr, cb, plain) e same =
      (rest-Inv others w h _ w.buffers w.trace inv, (λ p. ground (arith, cr p, cr q)), cb, plain)

  pub set_status_lem :
      (h r b : ℕ → ℕ) (w : World) (q : ℕ) (status : ℤ)
      → Counts others h r b w
      → 0 < r q
      → Ends (Request.set_status q status w) (λ _ w'. Counts others h r b w')
  unfolding Request.set_status
  set_status_lem h r b w q status (inv, cr, cb, plain) pos =
      let (i, e, n) = Counted-live w.requests r q cr pos in
      (
        tt,
        _,
        ground (arith, e),
        store_lem h r b w q i (record i { uv_error = status }) (inv, cr, cb, plain) e refl,
      )

-- ===== src/Close/Steps.antt =====
-- The steps of a close, with the state of reading of its file.
use uvcc.Prelude.{
  ℕ, ◌+◌, ◌<◌, ◌≡◌, refl, ◌∙◌, inl, inr, Bool, true, some, arith, ◌∷◌, if◌then◌else◌, Bool-cases,
}
use uvcc.Prelude.Int.{ℤ, pos}
use uvcc.Utility.RefCount.{long_mod}
use uvcc.Runtime.{
  World, M, when, LibUv, Instance, HandleBody, RequestBody, Rdcmd, Call, call, called, put, stop,
}
use uvcc.Runtime.Counts.{Counted-live, gain, lose}
use uvcc.Runtime.Ends.{Ends, Ends-then, Ends-weaken}
use uvcc.Loop.Lifetime.{ClosesAll}
use uvcc.Handle
use uvcc.Handle.{update}
use uvcc.Handle.Counted.{modify-Inv, trace-Inv, rest-Inv}
use uvcc.Handle.Lifetime.{ref_ok}
use uvcc.Request
use uvcc.Request.Lifetime.{request_ref_law}
use uvcc.Buffer.Sharing.{Sink}
use uvcc.File.{file_interface}
use uvcc.Io
use uvcc.Io.{is_reading, unlock}
use uvcc.Transfer.Counts.{Counts, Held, handle_unref_same, store_lem}
use uvcc.Scheme.{save}
use uvcc.Scheme.Steps.{Keeps}
use uvcc.Close.{stop_reading}

-- The handle `p` is in the state `s` of reading.
abbrev pub Reading : ℕ → Rdcmd → World → Type 0
Reading p s w = (i : Instance HandleBody) × (w.handles p ≡ some i) × (i.body.rdcmd_state ≡ s)

module _ (others h r b : ℕ → ℕ) (q p : ℕ) (s : Rdcmd) where
  pub mark_lem :
      (w : World)
      → Counts others h r b w
      → Reading p s w
      → Ends
          (update (λ x. record x { is_closing = true }) p w)
          (λ _ w'. Counts others h r b w' × Reading p s w' × (w'.requests ≡ w.requests))
  unfolding update
  mark_lem w (inv, cr, cb, plain) (i, e, is) =
      let i' = record i { body = record i.body { is_closing = true } } in
      (
        tt,
        record w { handles = put w.handles p (some i') },
        ground (arith, e),
        (
          (modify-Inv others w h p i i' inv e refl refl, cr, cb, plain),
          (i', ground arith, is),
          refl,
        ),
      )

  pub ref_lem :
      (w : World)
      → Counts others h r b w
      → Reading p s w
      → h p + 1 < long_mod
      → Ends (Handle.ref p w) (λ _ w'. Counts others (gain h p) r b w' × Reading p s w')
  ref_lem w (inv, cr, cb, plain) (i, e, is) room =
      let (run, inv') = ref_ok others w h p i inv e room in
      (tt, _, run, ((inv', cr, cb, plain), (record i { refs = h p + 1 }, ground arith, is)))

  pub request_lem :
      (w : World)
      → Counts others h r b w
      → Reading p s w
      → Held r q
      → Ends (Request.ref q w) (λ _ w'. Counts others h (gain r q) b w' × Reading p s w')
  request_lem w (inv, cr, cb, plain) reading held =
      let (rs, run, c) = request_ref_law w r q cr held.0 (omega (arith, held)) in
      (tt, _, run, ((rest-Inv others w h rs w.buffers w.trace inv, c, cb, plain), reading))

  pub save_lem :
      (w : World)
      → Counts others h r b w
      → Reading p s w
      → 0 < r q
      → Ends (save (some p) q w) (λ _ w'. Keeps others h r b q (some p) w' × Reading p s w')
  unfolding save
  save_lem w counts reading pos_q =
      let (i, e, n) = Counted-live w.requests r q counts.1 pos_q in
      let i' = record i { body = record i.body { handle = p } } in
      (
        tt,
        _,
        ground (arith, e),
        ((store_lem others h r b w q i i' counts e refl, (i', ground arith, refl)), reading),
      )

-- What stopping leaves of the references to a file in the state `s`.
abbrev pub stopped : (ℕ → ℕ) → ℕ → Rdcmd → ℕ → ℕ
stopped h p s = if is_reading s then lose h p else h

module _ (others h r b : ℕ → ℕ) (p : ℕ) where
  set_state_lem :
      (s : Rdcmd) (w : World)
      → Counts others h r b w
      → Reading p s w
      → Ends
          (Io.set_state p stop w)
          (λ _ w'. Counts others h r b w' × Reading p stop w' × (w'.requests ≡ w.requests))
  unfolding Io.set_state
  set_state_lem s w (inv, cr, cb, plain) (i, e, is) =
      let i' = record i { body = record i.body { rdcmd_state = stop } } in
      (
        tt,
        record w { handles = put w.handles p (some i') },
        ground (arith, e),
        (
          (modify-Inv others w h p i i' inv e refl refl, cr, cb, plain),
          (i', ground arith, refl),
          refl,
        ),
      )

  status_lem :
      (ret : ℤ) (w : World)
      → Counts others h r b w
      → Reading p stop w
      → Ends
          (Handle.set_status p ret w)
          (λ _ w'. Counts others h r b w' × (w'.requests ≡ w.requests))
  unfolding Handle.set_status
  status_lem ret w (inv, cr, cb, plain) (i, e, is) =
      let i' = record i { uv_error = ret } in
      (
        ret,
        record w { handles = put w.handles p (some i') },
        ground (arith, e),
        ((modify-Inv others w h p i i' inv e refl refl, cr, cb, plain), refl),
      )

  release_lem :
      (uv : LibUv) (uncaught : Bool) (fuel : ℕ) (s : Rdcmd) (w : World)
      → ClosesAll uv
      → Counts others h r b w
      → 0 < h p
      → h p < long_mod
      → Ends
          (when (is_reading s) (Handle.unref uv uncaught fuel p) w)
          (λ _ w'. Counts others (stopped h p s) r b w' × (w'.requests ≡ w.requests))
  release_lem uv uncaught fuel s w shut counts pos_p room = elim (Bool-cases (is_reading s)) [
    | inl reads ↦
        rw reads (handle_unref_same others uv uncaught fuel h r b w p shut counts pos_p room)
    | inr idle ↦ rw idle (tt, w, refl, (counts, refl))
  ]

  unlock_lem :
      (ret : ℤ) (w : World)
      → Counts others h r b w
      → 0 < h p
      → Ends (unlock p ret w) (λ _ w'. Counts others h r b w' × (w'.requests ≡ w.requests))
  unfolding unlock
  unlock_lem ret w counts pos_p =
      let (i, e, n) = Counted-live w.handles h p counts.0.1.counted pos_p in
      (ret, w, ground (arith, e), (counts, refl))

module _ (others h r b : ℕ → ℕ) (p : ℕ) (uv : LibUv) (uncaught : Bool) (fuel : ℕ) (sink : ℕ → Sink)
    (alloc_cb : ℕ → ℕ → M ℕ) (on_request : ℕ → M (Unit {0})) (shut : ClosesAll uv) where
  pub stop_reading_lem :
      (s : Rdcmd) (w : World)
      → Counts others h r b w
      → Reading p s w
      → 0 < h p
      → h p < long_mod
      → 0 < stopped h p s p
      → Ends
          (stop_reading uv uncaught fuel sink alloc_cb on_request p w)
          (λ _ w'. Counts others (stopped h p s) r b w' × (w'.requests ≡ w.requests))
  unfolding stop_reading Io.read_stop file_interface
  stop_reading_lem s w counts (i, e, is) pos_p room left =
      rw (e, is)
        (Ends-then _ _ _ _ (set_state_lem others h r b p s w counts (i, e, is)) λ _ w1 (h1, r1, q1).
          Ends-then _ _ _ _ (status_lem others h r b p (pos 0) w1 h1 r1) λ ret w2 (h2, q2).
            Ends-then _ _ _ _ (release_lem others h r b p uv uncaught fuel s w2 shut h2 pos_p room)
              λ _ w3 (h3, q3).
                Ends-weaken _ _ _ (unlock_lem others (stopped h p s) r b p ret w3 h3 left)
                  λ _ w4 (h4, q4). (h4, q4 ∙ q3 ∙ q2 ∙ q1))

module _ (others h r b : ℕ → ℕ) (uv : LibUv) (q p : ℕ) (s : Rdcmd) where
  pub call-Reading :
      (w : World) (i : Instance RequestBody) (k : Call)
      → Counts others h r b w
      → Reading p s w
      → w.requests q ≡ some i
      → Ends
          (call uv k w)
          (λ _ w'. Counts others h r b w' × Reading p s w' × (w'.requests q ≡ some i))
  call-Reading w i k (inv, cr, cb, plain) reading e = (
    _,
    _,
    refl,
    ((trace-Inv others w h (called k (uv w.trace k) ∷ w.trace) inv, cr, cb, plain), reading, e),
  )

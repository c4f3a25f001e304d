-- ===== src/Scheme/Steps.antt =====
-- What `run` and the callbacks of the scheme do to the counts.
use uvcc.Prelude.{
  ℕ, ◌<◌, ◌≡◌, refl, subst, inl, inr, Bool, Option, none, some, arith, ◌∷◌, if◌then◌else◌,
  Bool-cases,
}
use uvcc.Prelude.Int.{ℤ, pos, is_negative}
use uvcc.Runtime.{World, M, LibUv, Call, Instance, RequestBody, call, called, ◌>>=◌, ◌>>◌}
use uvcc.Runtime.Counts.{Counted-live, gain}
use uvcc.Runtime.Ends.{Ends, Ends-then, Ends-weaken}
use uvcc.Handle.Counted.{trace-Inv}
use uvcc.Request
use uvcc.Transfer.Counts.{
  Counts, Held, request_ref_lem, request_unref_lem, call_lem, store_lem, set_status_lem,
}
use uvcc.Transfer.Balance.{lose-gain}
use uvcc.Transfer.Background.{Outcome, choose-Ends}
use uvcc.Scheme.{save, clean, now, undo, later, run_on_path}

-- The request keeps the handle `t`, if it keeps one.
abbrev pub Saved : Option ℕ → ℕ → World → Type 0
Saved none q w = Unit {0}
Saved (some t) q w = (i : Instance RequestBody) × (w.requests q ≡ some i) × (i.body.handle ≡ t)

module _ (others : ℕ → ℕ) (h r b : ℕ → ℕ) (q : ℕ) (t : Option ℕ) where
  -- The counts are right, and the request keeps the handle.
  abbrev pub Keeps : World → Type 0
  Keeps w = Counts others h r b w × Saved t q w

module _ (others : ℕ → ℕ) (h r b : ℕ → ℕ) (q : ℕ) (pos_q : 0 < r q) where
  pub save_lem :
      (t : Option ℕ) (w : World)
      → Counts others h r b w
      → Ends (save t q w) (λ _ w'. Keeps others h r b q t w')
  unfolding save
  save_lem none w counts = (tt, w, refl, (counts, tt))
  save_lem (some t) w counts =
      let (i, e, n) = Counted-live w.requests r q counts.1 pos_q in
      let i' = record i { body = record i.body { handle = t } } in
      (
        tt,
        _,
        ground (arith, e),
        (store_lem others h r b w q i i' counts e refl, (i', ground arith, refl)),
      )

  kept_status :
      (t : ℕ) (w : World) (status : ℤ) (i : Instance RequestBody)
      → Counts others h r b w
      → w.requests q ≡ some i
      → i.body.handle ≡ t
      → Ends (Request.set_status q status w) (λ _ w'. Keeps others h r b q (some t) w')
  unfolding Request.set_status
  kept_status t w status i counts e is = (
    tt,
    _,
    ground (arith, e),
    (
      store_lem others h r b w q i (record i { uv_error = status }) counts e refl,
      (record i { uv_error = status }, ground arith, is),
    ),
  )

  pub status_lem :
      (t : Option ℕ) (w : World) (status : ℤ)
      → Keeps others h r b q t w
      → Ends (Request.set_status q status w) (λ _ w'. Keeps others h r b q t w')
  status_lem none w status (counts, s) =
      Ends-weaken _ _ _ (set_status_lem others h r b w q status counts pos_q) λ _ w' h'. (h', tt)
  status_lem (some t) w status (counts, (i, e, is)) = kept_status t w status i counts e is

  pub call-Keeps :
      (uv : LibUv) (t : Option ℕ) (w : World) (k : Call)
      → Keeps others h r b q t w
      → Ends (call uv k w) (λ _ w'. Keeps others h r b q t w')
  call-Keeps uv none w k (counts, s) =
      Ends-weaken _ _ _ (call_lem others uv h r b w k counts) λ _ w' h'. (h', tt)
  call-Keeps uv (some t) w k ((inv, cr, cb, plain), s) = (
    _,
    _,
    refl,
    ((trace-Inv others w h (called k (uv w.trace k) ∷ w.trace) inv, cr, cb, plain), s),
  )

module _ (others : ℕ → ℕ) (uv : LibUv) (uncaught : Bool) (fuel : ℕ) (on_request : ℕ → M (Unit {0}))
    (h r b : ℕ → ℕ) (q : ℕ) (held_q : Held r q) where
  -- A request that libuv refuses gives up the reference that it has taken.
  undo_lem :
      (t : Option ℕ) (w : World) (ret : ℤ)
      → Keeps others h (gain r q) b q t w
      → Ends (undo uv uncaught fuel on_request q ret w) (λ _ w'.
        if is_negative ret then Counts others h r b w' else Keeps others h (gain r q) b q t w')
  unfolding undo
  undo_lem t w ret keeps = elim (Bool-cases (is_negative ret)) [
    | inl neg ↦ rw neg (
        Ends-then _ _ _ _ (set_status_lem others h (gain r q) b w q ret keeps.0 (ground arith))
          λ _ w1 h1.
            Ends-weaken _ _ _
              (request_unref_lem others h (gain r q) b w1 q h1 (ground arith)
                (ground (arith, held_q)))
              λ _ w2 h2. subst (λ o. Counts others h o b w2) (lose-gain r q) h2)
    | inr good ↦ rw good (tt, w, refl, keeps)
  ]

  pub later_lem :
      (t : Option ℕ) (w : World) (c : Call)
      → Counts others h r b w
      → Ends (later uv uncaught fuel on_request t q c w) (λ ret w'.
        if is_negative ret then Counts others h r b w' else Keeps others h (gain r q) b q t w')
  unfolding later
  later_lem t w c counts =
      Ends-then _ _ _ _ (request_ref_lem others h r b w q counts held_q.0 (omega (arith, held_q)))
        λ _ w1 h1.
          Ends-then _ _ _ _ (save_lem others h (gain r q) b q (ground arith) t w1 h1) λ _ w2 h2.
            Ends-then _ _ _ _ (status_lem others h (gain r q) b q (ground arith) t w2 (pos 0) h2)
              λ _ w3 h3.
                Ends-then _ _ _ _ (call-Keeps others h (gain r q) b q (ground arith) uv t w3 c h3)
                  λ ret w4 h4.
                    Ends-then _ _ _ _ (undo_lem t w4 ret h4) λ _ w5 h5. (ret, w5, refl, h5)

  -- A synchronous run leaves the counts.
  pub now_lem :
      (t : Option ℕ) (w : World) (c : Call)
      → Keeps others h r b q t w
      → Ends (now uv uncaught fuel on_request q c w) (λ _ w'. Counts others h r b w')
  unfolding now
  now_lem t w c keeps =
      Ends-then _ _ _ _ (call-Keeps others h r b q held_q.0 uv t w c keeps) λ ret w1 h1.
        Ends-then _ _ _ _ (status_lem others h r b q held_q.0 t w1 ret h1)
          λ _ w2 h2. (ret, w2, refl, h2.0)

  pub save-now :
      (t : Option ℕ) (w : World) (c : Call)
      → Counts others h r b w
      → Ends ((do save t q; now uv uncaught fuel on_request q c) w) (λ _ w'. Counts others h r b w')
  save-now t w c counts =
      Ends-then _ _ _ _ (save_lem others h r b q held_q.0 t w counts) λ _ w1 h1. now_lem t w1 c h1

  -- What `run` leaves, by its result.
  abbrev pub PathRun : Option ℕ → Instance RequestBody → ℤ → World → Type 0
  PathRun t = Outcome (Keeps others h (gain r q) b q t) (λ w'. Counts others h r b w')

  choose_path :
      (t : Option ℕ) (w : World) (i : Instance RequestBody) (c : Call)
      → Counts others h r b w
      → w.requests q ≡ some i
      → Ends
          ((do
            j ← Request.load q
            if j.body.has_request_cb
                then later uv uncaught fuel on_request t q c
                else (do save t q; now uv uncaught fuel on_request q c))
            w)
          (PathRun t i)
  choose_path t w i c counts e =
      choose-Ends (Keeps others h (gain r q) b q t) (λ w'. Counts others h r b w') q w i _ _ e
        (later_lem t w c counts) (save-now t w c counts)

  pub run_on_path_lem :
      (before : Option Call) (t : Option ℕ) (w : World) (i : Instance RequestBody) (c : Call)
      → Counts others h r b w
      → w.requests q ≡ some i
      → Ends (run_on_path uv uncaught fuel on_request before t q c w) (PathRun t i)
  unfolding run_on_path clean
  run_on_path_lem none t w i c counts e = choose_path t w i c counts e
  run_on_path_lem (some k) t w i c (inv, cr, cb, plain) e =
      choose_path t _ i c
        (trace-Inv others w h (called k (uv w.trace k) ∷ w.trace) inv, cr, cb, plain) e

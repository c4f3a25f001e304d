-- ===== src/FileWrite/Steps.antt =====
-- The changes that a file write makes to its request and to the file leave the counts.
use uvcc.Prelude.{inl, inr, Bool-cases, ℕ, ◌+◌, ◌-◌, ◌<◌, ◌≡◌, refl, some, arith, ◌%◌, ◌∷◌}
use uvcc.Prelude.Int.{ℤ, is_negative}
use uvcc.Buffer.{size_mod}
use uvcc.Request
use uvcc.Runtime.{
  World, put, Instance, HandleBody, RequestBody, LibUv, Call, M, ◌>>=◌, call, called, lseek64,
  uv_fs_req_cleanup,
}
use uvcc.Runtime.Counts.{Counted-live}
use uvcc.Runtime.Ends.{Ends, Ends-then}
use uvcc.Handle.Counted.{modify-Inv, trace-Inv}
use uvcc.Transfer.Counts.{Counts, store_lem}
use uvcc.FileWrite.{set_target, set_read, set_write, add_queued, sub_queued, position}

-- The body of the request has the property.
abbrev pub Has : (RequestBody → Type 0) → ℕ → World → Type 0
Has P q w = (i : Instance RequestBody) × (w.requests q ≡ some i) × P i.body

-- What the callback releases: the file and the buffer.
abbrev pub Working : (p c : ℕ) → RequestBody → Type 0
Working p c x = (x.handle ≡ p) × (x.uv_buf ≡ c)

abbrev pub Pending : (q p c : ℕ) → World → Type 0
Pending q p c = Has (Working p c) q

module _ (others h r b : ℕ → ℕ) where
  pub set_target_lem :
      (w : World) (q p : ℕ) (offset : ℤ)
      → Counts others h r b w
      → 0 < r q
      → Ends (set_target q p offset w) (λ _ w'. Counts others h r b w')
  unfolding set_target
  set_target_lem w q p offset counts held =
      let (i, e, n) = Counted-live w.requests r q counts.1 held in
      (
        tt,
        _,
        ground (arith, e),
        store_lem others h r b w q i
            (record i { body = record i.body { handle = p; offset = offset } }) counts e refl,
      )

  pub set_write_lem :
      (w : World) (q p c : ℕ) (offset : ℤ) (size : ℕ)
      → Counts others h r b w
      → 0 < r q
      → Ends (set_write q p c offset size w) (λ _ w'. Counts others h r b w' × Pending q p c w')
  unfolding set_write
  set_write_lem w q p c offset size counts held =
      let (i, e, n) = Counted-live w.requests r q counts.1 held in
      (
        tt,
        _,
        ground (arith, e),
        (
          store_lem others h r b w q i
              (record i {
                body = record i.body {
                  handle = p;
                  uv_buf = c;
                  offset = offset;
                  pending_size = size;
                };
              })
              counts e refl,
          (
            record i {
              body = record i.body { handle = p; uv_buf = c; offset = offset; pending_size = size };
            },
            ground arith,
            (refl, refl),
          ),
        ),
      )

  -- A request whose body has the property `P` keeps it through a change of its status and a call.
  pub has_status_lem :
      (P : RequestBody → Type 0) (w : World) (q : ℕ) (status : ℤ)
      → Counts others h r b w
      → Has P q w
      → Ends (Request.set_status q status w) (λ _ w'. Counts others h r b w' × Has P q w')
  unfolding Request.set_status
  has_status_lem P w q status counts (i, e, is) = (
    tt,
    _,
    ground (arith, e),
    (
      store_lem others h r b w q i (record i { uv_error = status }) counts e refl,
      (record i { uv_error = status }, ground arith, is),
    ),
  )

  pub has_call_lem :
      (P : RequestBody → Type 0) (uv : LibUv) (w : World) (q : ℕ) (k : Call)
      → Counts others h r b w
      → Has P q w
      → Ends (call uv k w) (λ _ w'. Counts others h r b w' × Has P q w')
  has_call_lem P uv w q k (inv, cr, cb, plain) has = (
    _,
    _,
    refl,
    ((trace-Inv others w h (called k (uv w.trace k) ∷ w.trace) inv, cr, cb, plain), has),
  )

  pub pending_status_lem :
      (w : World) (q p c : ℕ) (status : ℤ)
      → Counts others h r b w
      → Pending q p c w
      → Ends (Request.set_status q status w) (λ _ w'. Counts others h r b w' × Pending q p c w')
  pending_status_lem w q p c = has_status_lem (Working p c) w q

  pub pending_call_lem :
      (uv : LibUv) (w : World) (q p c : ℕ) (k : Call)
      → Counts others h r b w
      → Pending q p c w
      → Ends (call uv k w) (λ _ w'. Counts others h r b w' × Pending q p c w')
  pending_call_lem uv w q p c = has_call_lem (Working p c) uv w q

  pub set_read_lem :
      (w : World) (q p c : ℕ) (offset : ℤ)
      → Counts others h r b w
      → 0 < r q
      → Ends (set_read q p c offset w) (λ _ w'. Counts others h r b w' × Pending q p c w')
  unfolding set_read
  set_read_lem w q p c offset counts held =
      let (i, e, n) = Counted-live w.requests r q counts.1 held in
      let i' = record i { body = record i.body { handle = p; uv_buf = c; offset = offset } } in
      (
        tt,
        _,
        ground (arith, e),
        (store_lem others h r b w q i i' counts e refl, (i', ground arith, (refl, refl))),
      )

  -- A change of a handle that leaves its count and its booking.
  pub queue_lem :
      (w : World) (p : ℕ) (i : Instance HandleBody) (n : ℕ)
      → Counts others h r b w
      → w.handles p ≡ some i
      → Counts others h r b (record w {
        handles =
            put w.handles p (some (record i { body = record i.body { write_queue_size = n } }));
      })
  queue_lem w p i n (inv, cr, cb, plain) e = (
    modify-Inv others w h p i (record i { body = record i.body { write_queue_size = n } }) inv e
        refl refl,
    cr,
    cb,
    plain,
  )

  pub add_queued_lem :
      (P : RequestBody → Type 0) (w : World) (q p size : ℕ)
      → Counts others h r b w
      → Has P q w
      → 0 < h p
      → Ends (add_queued p size w) (λ _ w'. Counts others h r b w' × Has P q w')
  unfolding add_queued
  add_queued_lem P w q p size counts kept held =
      let (i, e, n) = Counted-live w.handles h p counts.0.1.counted held in
      (
        tt,
        _,
        ground (arith, e),
        (queue_lem w p i ((i.body.write_queue_size + size) % size_mod) counts e, kept),
      )

  pub sub_queued_lem :
      (w : World) (p size : ℕ)
      → Counts others h r b w
      → 0 < h p
      → Ends (sub_queued p size w) (λ _ w'. Counts others h r b w')
  unfolding sub_queued
  sub_queued_lem w p size counts held =
      let (i, e, n) = Counted-live w.handles h p counts.0.1.counted held in
      (
        tt,
        _,
        ground (arith, e),
        queue_lem w p i ((i.body.write_queue_size + size_mod - size % size_mod) % size_mod) counts
            e,
      )

  module _ (uv : LibUv) (q : ℕ) where
    -- The counts are right, and the request is as it was.
    abbrev pub Kept : Instance RequestBody → World → Type 0
    Kept i w = Counts others h r b w × (w.requests q ≡ some i)

    pub call-Kept :
        (i : Instance RequestBody) (w : World) (k : Call)
        → Kept i w
        → Ends (call uv k w) (λ _ w'. Kept i w')
    call-Kept i w k ((inv, cr, cb, plain), e) = (
      _,
      _,
      refl,
      ((trace-Inv others w h (called k (uv w.trace k) ∷ w.trace) inv, cr, cb, plain), e),
    )

    pub position-Kept :
        (i : Instance RequestBody) (w : World) (p : ℕ) (offset : ℤ)
        → Kept i w
        → Ends (position uv p offset w) (λ _ w'. Kept i w')
    unfolding position
    position-Kept i w p offset kept = elim (Bool-cases (is_negative offset)) [
      | inl neg ↦ rw neg (call-Kept i w (lseek64 p) kept)
      | inr nonneg ↦ rw nonneg (offset, w, refl, kept)
    ]

    -- The steps of every `run` before its choice: the clean-up of the request and the offset.
    pub positioned :
        (rest : ℤ → M ℤ) (P : ℤ → World → Type 0) (i : Instance RequestBody) (w : World) (p : ℕ)
        (offset : ℤ)
        → Kept i w
        → ((at : ℤ) (w' : World) → Kept i w' → Ends (rest at w') P)
        → Ends ((do _ ← call uv (uv_fs_req_cleanup q); at ← position uv p offset; rest at) w) P
    positioned rest P i w p offset kept go =
        Ends-then _ _ _ P (call-Kept i w (uv_fs_req_cleanup q) kept)
          λ _ w1 h1. Ends-then _ _ _ P (position-Kept i w1 p offset h1) λ x w2 h2. go x w2 h2

-- ===== src/SendFile/Steps.antt =====
-- The changes that a copy makes to its request and to the output leave the counts.
use uvcc.Prelude.{ℕ, ◌<◌, ◌≡◌, refl, inl, inr, arith, Bool-cases}
use uvcc.Prelude.Int.{ℤ}
use uvcc.Runtime.{World, LibUv, Instance, RequestBody, uv_fileno, uv_os_fd}
use uvcc.Runtime.Counts.{Counted-live}
use uvcc.Runtime.Ends.{Ends, Ends-then}
use uvcc.Handle
use uvcc.Handle.{is_file}
use uvcc.Handle.Counted.{modify-Inv}
use uvcc.Transfer.Counts.{Counts, store_lem}
use uvcc.FileWrite.Steps.{Has, Kept, call-Kept, add_queued_lem, sub_queued_lem}
use uvcc.SendFile.{set_files, set_copy, queue_file, unqueue_file, descriptor}

-- What the callback releases: the two handles.
abbrev pub Copying : (out p : ℕ) → RequestBody → Type 0
Copying out p x = (x.handle_out ≡ out) × (x.handle ≡ p)

module _ (others h r b : ℕ → ℕ) where
  pub set_files_lem :
      (w : World) (q out p : ℕ) (offset : ℤ)
      → Counts others h r b w
      → 0 < r q
      → Ends (set_files q out p offset w) (λ _ w'. Counts others h r b w')
  unfolding set_files
  set_files_lem w q out p offset counts held =
      let (i, e, n) = Counted-live w.requests r q counts.1 held in
      let i' = record i {
        body = record i.body { handle_out = out; handle = p; offset = offset };
      } in
      (tt, _, ground (arith, e), store_lem others h r b w q i i' counts e refl)

  pub set_copy_lem :
      (w : World) (q out p : ℕ) (offset : ℤ) (length : ℕ)
      → Counts others h r b w
      → 0 < r q
      → Ends
          (set_copy q out p offset length w)
          (λ _ w'. Counts others h r b w' × Has (Copying out p) q w')
  unfolding set_copy
  set_copy_lem w q out p offset length counts held =
      let (i, e, n) = Counted-live w.requests r q counts.1 held in
      let i' = record i {
        body = record i.body {
          handle_out = out;
          handle = p;
          offset = offset;
          pending_size = length;
        };
      } in
      (
        tt,
        _,
        ground (arith, e),
        (store_lem others h r b w q i i' counts e refl, (i', ground arith, (refl, refl))),
      )

  pub unqueue_file_lem :
      (w : World) (out length : ℕ)
      → Counts others h r b w
      → 0 < h out
      → Ends (unqueue_file out length w) (λ _ w'. Counts others h r b w')
  unfolding unqueue_file
  unqueue_file_lem w out length counts held =
      let (i, e, n) = Counted-live w.handles h out counts.0.1.counted held in
      elim (Bool-cases (is_file i.body.type)) [
        | inl file ↦ rw (e, file) (sub_queued_lem others h r b w out length counts held)
        | inr no_file ↦ rw (e, no_file) (tt, w, refl, counts)
      ]

  pub queue_file_lem :
      (w : World) (q out p length : ℕ)
      → Counts others h r b w
      → Has (Copying out p) q w
      → 0 < h out
      → Ends (queue_file out length w) (λ _ w'. Counts others h r b w' × Has (Copying out p) q w')
  unfolding queue_file
  queue_file_lem w q out p length counts has held =
      let (i, e, n) = Counted-live w.handles h out counts.0.1.counted held in
      elim (Bool-cases (is_file i.body.type)) [
        | inl file ↦
            rw (e, file)
              (add_queued_lem others h r b (Copying out p) w q out length counts has held)
        | inr no_file ↦ rw (e, no_file) (tt, w, refl, (counts, has))
      ]

  handle_status_lem :
      (w : World) (q out : ℕ) (i : Instance RequestBody) (status : ℤ) (uv : LibUv)
      → Kept others h r b uv q i w
      → 0 < h out
      → Ends (Handle.set_status out status w) (λ _ w'. Kept others h r b uv q i w')
  unfolding Handle.set_status
  handle_status_lem w q out i status uv ((inv, cr, cb, plain), e) held =
      let (j, f, n) = Counted-live w.handles h out inv.1.counted held in
      (
        status,
        _,
        ground (arith, f),
        (
          (
            modify-Inv others w h out j (record j { uv_error = status }) inv f refl refl,
            cr,
            cb,
            plain,
          ),
          e,
        ),
      )

  pub descriptor_lem :
      (uv : LibUv) (w : World) (q out : ℕ) (i : Instance RequestBody)
      → Kept others h r b uv q i w
      → 0 < h out
      → Ends (descriptor uv out w) (λ _ w'. Kept others h r b uv q i w')
  unfolding descriptor
  descriptor_lem uv w q out i kept held =
      let (j, f, n) = Counted-live w.handles h out kept.0.0.1.counted held in
      elim (Bool-cases (is_file j.body.type)) [
        | inl file ↦ rw (f, file) (call-Kept others h r b uv q i w (uv_os_fd out) kept)
        | inr no_file ↦
            rw (f, no_file)
              (Ends-then _ _ _ _ (call-Kept others h r b uv q i w (uv_fileno out) kept) λ ret w1 h1.
                Ends-then _ _ _ _ (handle_status_lem w1 q out i ret uv h1 held)
                  λ _ w2 h2. call-Kept others h r b uv q i w2 (uv_os_fd out) h2)
      ]

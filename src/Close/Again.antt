-- ===== src/Close/Again.antt =====
-- A file that is closed by a request is closed once more when its last variable goes.
use uvcc.Prelude.{
  ℕ, ◌≡◌, refl, ◌∙◌, inl, inr, Bool, true, false, some, none, arith, List, ◌∷◌, if◌then◌else◌,
  Bool-cases,
}
use uvcc.Prelude.Int.{ℤ, pos, is_negative}
use uvcc.Runtime.{
  World, M, ◌>>=◌, ◌>>◌, pure, LibUv, Instance, HandleBody, HandleType, RequestBody, Call, Event,
  called, call, put, stop, uv_fs_req_cleanup, uv_fs_close, uv_fs_close_file,
}
use mathlib.Core.List.{Memᴰ}
use mathlib.Core.List.Memᴰ.{head, tail}
use uvcc.Runtime.Ends.{Ends, Ends-then, Ends-weaken}
use uvcc.Handle
use uvcc.Handle.{update}
use uvcc.Loop.Lifetime.{ClosesAll}
use uvcc.Handle.Closing.{closing}
use uvcc.Handle.Lifetime.{handle_unref_last, unref-closing}
use uvcc.Handle.Counted.{Inv, modify-Inv, trace-Inv, rest-Inv}
use uvcc.Request
use uvcc.Buffer.Sharing.{Sink}
use uvcc.Io
use uvcc.Io.{is_reading, unlock}
use uvcc.File.{file_interface}
use uvcc.Scheme.{save, now}
use uvcc.Close.{stop_reading, close_now, close_later, close}

-- A call of libuv is among what has happened.
abbrev pub Among : Call → List Event → Type 0
Among c t = (r : ℤ) × Memᴰ (called c r) t

module _ (others own : ℕ → ℕ) (p q : ℕ) where
  -- The instances of the file and of the request, and what has happened.
  abbrev At : Instance HandleBody → Instance RequestBody → List Event → World → Type 0
  At i j t w = Inv others w own × (w.handles p ≡ some i) × (w.requests q ≡ some j) × (w.trace ≡ t)

  put_handle :
      (i i' : Instance HandleBody) (j : Instance RequestBody) (t : List Event) (w : World)
      → At i j t w
      → i'.refs ≡ i.refs
      → i'.body.loop_instance_ptr ≡ i.body.loop_instance_ptr
      → At i' j t (record w { handles = put w.handles p (some i') })
  put_handle i i' j t w (inv, e, f, g) refs lip =
      (modify-Inv others w own p i i' inv e refs lip, ground arith, f, g)

  put_request :
      (i : Instance HandleBody) (j j' : Instance RequestBody) (t : List Event) (w : World)
      → At i j t w
      → At i j' t (record w { requests = put w.requests q (some j') })
  put_request i j j' t w (inv, e, f, g) =
      (rest-Inv others w own (put w.requests q (some j')) w.buffers w.trace inv, e, ground arith, g)

  call_lem :
      (uv : LibUv) (c : Call) (i : Instance HandleBody) (j : Instance RequestBody) (t : List Event)
      (w : World)
      → At i j t w
      → Ends (call uv c w) (λ r w'. (r ≡ uv t c) × At i j (called c (uv t c) ∷ t) w')
  call_lem uv c i j t w (inv, e, f, g) =
      (_, _, refl, (rw g refl, (trace-Inv others w own _ inv, e, f, rw g refl)))

  module _ (uv : LibUv) (uncaught : Bool) (fuel : ℕ) (sink : ℕ → Sink) (alloc_cb : ℕ → ℕ → M ℕ)
      (on_request : ℕ → M (Unit {0})) (i : Instance HandleBody) (j : Instance RequestBody)
      (t : List Event) where
    abbrev halted : Instance HandleBody
    halted = record i { uv_error = pos 0; body = record i.body { rdcmd_state = stop } }

    halted_lem :
        (w : World)
        → At i j t w
        → is_reading i.body.rdcmd_state ≡ false
        → Ends (stop_reading uv uncaught fuel sink alloc_cb on_request p w) (λ _. At halted j t)
    unfolding stop_reading Io.read_stop file_interface Io.set_state Handle.set_status unlock
    halted_lem w at idle =
        let i1 = record i { body = record i.body { rdcmd_state = stop } } in
        let w1 : World = record w { handles = put w.handles p (some i1) } in
        let w2 : World = record w1 { handles = put w1.handles p (some halted) } in
        let at1 = put_handle i i1 j t w at refl refl in
        (pos 0, w2, ground (arith, at.1, idle), put_handle i1 halted j t w1 at1 refl refl)

    abbrev marked : Instance HandleBody
    marked = record i { body = record i.body { is_closing = true } }

    abbrev saved : Instance RequestBody
    saved = record j { body = record j.body { handle = p } }

    mark_lem :
        (w : World)
        → At i j t w
        → Ends (update (λ x. record x { is_closing = true }) p w) (λ _. At marked j t)
    unfolding update
    mark_lem w at =
        let w1 : World = record w { handles = put w.handles p (some marked) } in
        (tt, w1, ground (arith, at.1), put_handle i marked j t w at refl refl)

    save_lem : (w : World) → At i j t w → Ends (save (some p) q w) (λ _. At i saved t)
    unfolding save
    save_lem w at =
        let w1 : World = record w { requests = put w.requests q (some saved) } in
        (tt, w1, ground (arith, at.2), put_request i j saved t w at)

    now_ends :
        (c : Call) (w : World)
        → At i j t w
        → Ends
            (now uv uncaught fuel on_request q c w)
            (λ ret. At i (record j { uv_error = uv t c }) (called c (uv t c) ∷ t))
    unfolding now Request.set_status
    now_ends c w at =
        Ends-then _ (λ r. do Request.set_status q r; pure r) _
          (λ _. At i (record j { uv_error = uv t c }) (called c (uv t c) ∷ t))
          (call_lem uv c i j t w at)
          λ r w1 (is, at1).
            let j' = record j { uv_error = uv t c } in
            let w2 : World = record w1 { requests = put w1.requests q (some j') } in
            (r, w2, ground (arith, at1.2, is), put_request i j j' (called c (uv t c) ∷ t) w1 at1)

module _ (others own : ℕ → ℕ) (p q : ℕ) (uv : LibUv) (uncaught : Bool) (fuel : ℕ) (sink : ℕ → Sink)
    (alloc_cb : ℕ → ℕ → M ℕ) (on_request : ℕ → M (Unit {0})) (i : Instance HandleBody)
    (j : Instance RequestBody) (idle : is_reading i.body.rdcmd_state ≡ false) where
  abbrev Shut : List Event → World → Type 0
  Shut t w =
      (i' : Instance HandleBody) × (j' : Instance RequestBody) × At others own p q i' j' t w
      × (i'.body.type ≡ i.body.type)
      × (i'.body.result ≡ i.body.result)

  -- The calls of libuv by a close.
  abbrev with_close : List Event → List Event
  with_close t =
      let c = uv_fs_req_cleanup q in
      let t' = called c (uv t c) ∷ t in let d = uv_fs_close_file q p in called d (uv t' d) ∷ t'

  close_now_ends :
      (t : List Event) (w : World)
      → At others own p q
          (marked others own p q uv uncaught fuel sink alloc_cb on_request i j t)
          j
          t
          w
      → Ends
          (close_now uv uncaught fuel sink alloc_cb on_request q p w)
          (λ _. Shut (called (uv_fs_close_file q p) (uv t (uv_fs_close_file q p)) ∷ t))
  unfolding close_now
  close_now_ends t w at =
      Ends-then _ _ _ _
        (save_lem others own p q uv uncaught fuel sink alloc_cb on_request _ j t w at)
        λ _ w1 at1.
          Ends-then _ _ _ _
            (halted_lem others own p q uv uncaught fuel sink alloc_cb on_request _ _ t w1 at1 idle)
            λ _ w2 at2.
              Ends-weaken _ _ _
                (now_ends others own p q uv uncaught fuel sink alloc_cb on_request _ _ t
                  (uv_fs_close_file q p) w2 at2)
                λ _ w3 at3. (_, _, at3, refl, refl)

  choose_ends :
      (t : List Event) (w : World)
      → At others own p q
          (marked others own p q uv uncaught fuel sink alloc_cb on_request i j t)
          j
          t
          w
      → j.body.has_request_cb ≡ false
      → Ends
          ((do
            j' ← Request.load q
            if j'.body.has_request_cb
                then close_later uv uncaught fuel sink alloc_cb on_request q p
                else close_now uv uncaught fuel sink alloc_cb on_request q p)
            w)
          (λ _. Shut (called (uv_fs_close_file q p) (uv t (uv_fs_close_file q p)) ∷ t))
  choose_ends t w at plain = rw (at.2, plain) (close_now_ends t w at)

  close_ends :
      (w : World)
      → At others own p q i j w.trace w
      → j.body.has_request_cb ≡ false
      → Ends
          (close uv uncaught fuel sink alloc_cb on_request q p w)
          (λ _. Shut (with_close w.trace))
  unfolding close
  close_ends w at plain =
      let c = uv_fs_req_cleanup q in
      let t = called c (uv w.trace c) ∷ w.trace in
      Ends-then _ _ _ (λ _. Shut (with_close w.trace))
        (call_lem others own p q uv c i j w.trace w at)
        λ _ w1 (_, at1).
          Ends-then _ _ _ (λ _. Shut (with_close w.trace))
            (mark_lem others own p q uv uncaught fuel sink alloc_cb on_request i j t w1 at1)
            λ _ w2 at2. choose_ends t w2 at2 plain

  -- `libuv` is asked to close the file by its handle, and by its descriptor.
  abbrev pub ClosedTwice : List Event → Type 0
  ClosedTwice t = Among (uv_fs_close_file q p) t × Among (uv_fs_close i.body.result) t

  closing-twice :
      (i' : Instance HandleBody) (t : List Event)
      → i'.body.type ≡ HandleType.file
      → i'.body.result ≡ i.body.result
      → is_negative i.body.result ≡ false
      → ClosedTwice (closing others uv uncaught fuel i' p (with_close t))
  closing-twice i' t file same opened =
      rw (file, same, opened)
        (elim (Bool-cases i'.has_destroy_cb) [
          | inl told ↦ rw told ((_, tail (tail (tail (head refl)))), (_, tail (tail (head refl))))
          | inr untold ↦ rw untold ((_, tail (tail (head refl))), (_, tail (head refl)))
        ])

  -- A file that is closed by a request without a callback, and is in one variable, is closed once more
  -- when this variable goes, by the same descriptor: between the two calls the system may have given
  -- it to another file. It is given that the file is open and not read, and that libuv closes every
  -- loop that is given up.
  pub close-again :
      (shut : ClosesAll uv) (w : World)
      → Inv others w own
      → own p ≡ 1
      → w.handles p ≡ some i
      → w.requests q ≡ some j
      → i.body.type ≡ HandleType.file
      → is_negative i.body.result ≡ false
      → j.body.has_request_cb ≡ false
      → Ends (close uv uncaught fuel sink alloc_cb on_request q p w) (λ _ w1.
        Ends (Handle.unref uv uncaught fuel p w1) (λ _ w2. w2.handles p ≡ none)
        × (w2 : World) × (Handle.unref uv uncaught fuel p w1 ≡ Handle.delete uv uncaught fuel p w2)
        × ClosedTwice w2.trace)
  close-again shut w inv one e f file opened plain =
      Ends-weaken _ _ _ (close_ends w (inv, e, f, refl) plain)
        λ _ w1 (i', j', (inv1, e1, f1, g1), same, fd).
          let (w2, run, (inv2, gone, _, _)) =
            handle_unref_last others uv uncaught fuel shut w1 own p i' inv1 e1 one in
          (
            (tt, w2, run, gone),
            _,
            unref-closing others uv uncaught fuel w1 own p i' inv1 e1 one,
            rw g1 (closing-twice (record i' { refs = 0 }) w.trace (same ∙ file) fd opened),
          )

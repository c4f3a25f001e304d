-- ===== src/Output/Balance.antt =====
-- An output request takes the references that its kind of endpoint asks for.
use uvcc.Prelude.{
  ℕ, ◌≡◌, refl, inl, inr, Bool, true, false, some, arith, not, ◌&&◌, if◌then◌else◌, Bool-cases,
}
use uvcc.Prelude.Int.{ℤ, is_negative}
use uvcc.Runtime.{
  World, M, Instance, HandleBody, RequestBody, RequestType, LibUv, Call, uv_write, uv_udp_send,
  ◌>>◌,
}
use uvcc.Runtime.Counts.{gain}
use uvcc.Runtime.Ends.{Ends, Ends-then, Ends-weaken}
use uvcc.Loop.Lifetime.{ClosesAll}
use uvcc.Buffer.Sharing.{Sink}
use uvcc.Transfer
use uvcc.Transfer.Counts.{Counts, Held, set_status_lem, store_lem}
use uvcc.Transfer.Balance.{Answered, transfer_lem}
use uvcc.FileWrite
use uvcc.FileWrite.Balance.{fs_write-balance}
use uvcc.Io.{uv_einval}
use uvcc.Output.{
  Kind, streams, datagrams, files, others, kind, uv_ebadf, set_type, set_offset, answer, run_as,
  run,
}

module _ (elsewhere : ℕ → ℕ) (h r b : ℕ → ℕ) (q : ℕ) (held_q : Held r q) where
  -- The counts are right, and the request has a callback or none, as `has_cb` says.
  abbrev Prepared : Bool → World → Type 0
  Prepared has_cb w =
      Counts elsewhere h r b w
      × (i : Instance RequestBody) × (w.requests q ≡ some i)
      × (i.body.has_request_cb ≡ has_cb)

  set_type_lem :
      (has_cb : Bool) (w : World) (t : RequestType)
      → Prepared has_cb w
      → Ends (set_type q t w) (λ _ w'. Prepared has_cb w')
  unfolding set_type
  set_type_lem has_cb w t (counts, i, e, same) =
      let i' = record i { body = record i.body { type = t } } in
      (
        tt,
        _,
        ground (arith, e),
        (store_lem elsewhere h r b w q i i' counts e refl, i', ground arith, same),
      )

  set_offset_lem :
      (has_cb : Bool) (w : World) (offset : ℤ)
      → Prepared has_cb w
      → Ends (set_offset q offset w) (λ _ w'. Prepared has_cb w')
  unfolding set_offset
  set_offset_lem has_cb w offset (counts, i, e, same) =
      let i' = record i { body = record i.body { output_offset = offset } } in
      (
        tt,
        _,
        ground (arith, e),
        (store_lem elsewhere h r b w q i i' counts e refl, i', ground arith, same),
      )

  -- What is done first on an endpoint that takes output.
  prepared :
      (has_cb : Bool) (w : World) (t : RequestType) (offset : ℤ) (f : M ℤ) (Q : ℤ → World → Type 0)
      → Prepared has_cb w
      → ((w' : World) → Prepared has_cb w' → Ends (f w') Q)
      → Ends ((do set_type q t; set_offset q offset; f) w) Q
  prepared has_cb w t offset f Q ready rest =
      Ends-then _ _ _ _ (set_type_lem has_cb w t ready)
        λ _ w1 h1. Ends-then _ _ _ _ (set_offset_lem has_cb w1 offset h1) λ _ w2 h2. rest w2 h2

  answer_lem :
      (w : World) (x : ℤ)
      → Counts elsewhere h r b w
      → Ends (answer q x w) (λ ret w'. (ret ≡ x) × Counts elsewhere h r b w')
  unfolding answer
  answer_lem w x counts =
      Ends-then _ _ _ _ (set_status_lem elsewhere h r b w q x counts held_q.0)
        λ _ w1 h1. (x, w1, refl, (refl, h1))

module _ (elsewhere : ℕ → ℕ) (uv : LibUv) (uncaught : Bool) (fuel : ℕ) (sink : ℕ → Sink)
    (on_request : ℕ → M (Unit {0})) (shut : ClosesAll uv) where
  module _ (h r b : ℕ → ℕ) (q p c : ℕ) (held_p : Held h p) (held_q : Held r q)
      (held_c : Held b c) where
    -- The counts with the references that libuv's work needs.
    abbrev pub Taken : World → Type 0
    Taken w' = Counts elsewhere (gain h p) (gain r q) (gain b c) w'

    -- The result is libuv's answer to the call, and the references are taken if it is no error.
    abbrev pub Submitted : Call → ℤ → World → Type 0
    Submitted k ret w' =
        Answered uv k ret × (if is_negative ret then Counts elsewhere h r b w' else Taken w')

    -- The result and the counts by the kind of the endpoint, by whether the address of the peer is
    -- given and by whether the request has a callback.
    abbrev pub Settled : Kind → Bool → Bool → ℤ → World → Type 0
    Settled streams has_info has_cb ret w' = Submitted (uv_write q p c) ret w'
    Settled datagrams has_info has_cb ret w' =
        if has_info
        then Submitted (uv_udp_send q p c) ret w'
        else (ret ≡ uv_einval) × Counts elsewhere h r b w'
    Settled files has_info has_cb ret w' =
        if has_cb && not (is_negative ret) then Taken w' else Counts elsewhere h r b w'
    Settled others has_info has_cb ret w' = (ret ≡ uv_ebadf) × Counts elsewhere h r b w'

    transfer-Submitted :
        (w : World) (k : Call)
        → Counts elsewhere h r b w
        → Ends (Transfer.transfer uv uncaught fuel sink on_request q p c k w) (Submitted k)
    transfer-Submitted w k counts =
        Ends-weaken _ _ _
          (transfer_lem elsewhere uv uncaught fuel sink on_request shut h r b q p c held_p held_q
            held_c w k counts)
          λ ret w' (a, x). elim (Bool-cases (is_negative ret)) [
            | inl neg ↦ (a, rw neg (rw neg at x))
            | inr good ↦ let (y, _) = rw good at x in (a, rw good y)
          ]

    fs_write-Settled :
        (has_info has_cb : Bool) (w : World) (size : ℕ) (offset : ℤ)
        → Prepared elsewhere h r b q held_q has_cb w
        → Ends
            (FileWrite.write uv uncaught fuel sink on_request q p c size offset w)
            (Settled files has_info has_cb)
    fs_write-Settled has_info has_cb w size offset (counts, i, e, same) =
        Ends-weaken _ _ _
          (fs_write-balance elsewhere uv uncaught fuel sink on_request shut h r b q p c held_p
            held_q held_c w i size offset counts e)
          λ ret w' x. elim (Bool-cases (has_cb && not (is_negative ret))) [
            | inl on ↦ let (y, _) = rw (same, on) at x in rw on y
            | inr off ↦ rw off (rw (same, off) at x)
          ]

    run_as-Settled :
        (k : Kind) (w : World) (size : ℕ) (offset : ℤ) (has_info has_cb : Bool)
        → Prepared elsewhere h r b q held_q has_cb w
        → Ends
            (run_as uv uncaught fuel sink on_request k q p c size offset has_info w)
            (Settled k has_info has_cb)
    unfolding run_as Transfer.write Transfer.udp_send
    run_as-Settled streams w size offset has_info has_cb ready =
        prepared elsewhere h r b q held_q has_cb w RequestType.write offset _ _ ready
          λ w' (counts, _, _, _). transfer-Submitted w' (uv_write q p c) counts
    run_as-Settled datagrams w size offset true has_cb ready =
        prepared elsewhere h r b q held_q has_cb w RequestType.udp_send offset _ _ ready
          λ w' (counts, _, _, _). transfer-Submitted w' (uv_udp_send q p c) counts
    run_as-Settled datagrams w size offset false has_cb ready =
        prepared elsewhere h r b q held_q has_cb w RequestType.udp_send offset _ _ ready
          λ w' (counts, _, _, _). answer_lem elsewhere h r b q held_q w' uv_einval counts
    run_as-Settled files w size offset has_info has_cb ready =
        prepared elsewhere h r b q held_q has_cb w RequestType.fs offset _ _ ready
          λ w' h'. fs_write-Settled has_info has_cb w' size offset h'
    run_as-Settled others w size offset has_info has_cb (counts, _, _, _) =
        answer_lem elsewhere h r b q held_q w uv_ebadf counts

    -- An output request that is run ends with a result, by the type of the endpoint. For a stream it is
    -- libuv's answer to a write, and for a UDP socket with the address of a peer libuv's answer to a
    -- send; the endpoint, the buffer and the request have one reference more each if that is no error.
    -- For a file they have if the request has a callback and the result is no error. In all other cases
    -- the counts are those from before; without an address the result for a UDP socket is `UV_EINVAL`,
    -- and for an endpoint of any other type it is `UV_EBADF`. It is given that the caller has the three
    -- in variables, that no buffer of the program has a sink callback and that libuv closes every loop
    -- that is given up.
    pub run-Settled :
        (w : World) (i : Instance HandleBody) (j : Instance RequestBody) (size : ℕ) (offset : ℤ)
        (has_info : Bool)
        → Counts elsewhere h r b w
        → w.handles p ≡ some i
        → w.requests q ≡ some j
        → Ends
            (run uv uncaught fuel sink on_request q p c size offset has_info w)
            (Settled (kind i.body.type) has_info j.body.has_request_cb)
    unfolding run
    run-Settled w i j size offset has_info counts e e' = rw e (
        run_as-Settled (kind i.body.type) w size offset has_info j.body.has_request_cb
          (counts, j, e', refl))

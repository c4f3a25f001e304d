-- ===== src/Buffer/Sharing/Lifetime.antt =====
-- A buffer's instance lives as long as a reference to it, or as the sink callback wants it.
use uvcc.Prelude.{
  ap, List, Option, ℕ, zero, suc, ◌+◌, ◌-◌, ◌<◌, ◌≡◌, refl, subst, fun_ext, ◌∙◌, true, false, none,
  some, ◌∷◌, arith, ◌==◌, if◌then◌else◌, ℕ_discrete,
}
use uvcc.Utility.RefCount.{long_mod}
use uvcc.Runtime.{Event, World, ok, put, Instance, BufferBody, when, ◌>>=◌, on_sink, deleted_buffer}
use uvcc.Runtime.Counts.{
  Counted, Counted-live, gain, lose, inc_ref-Counted, dec_ref-Counted, dec_ref-last,
}
use uvcc.Buffer.Sharing.{Sink, keeps, moves, ref, dec, ref_times, run_sink, destroy, unref, delete}

abbrev pub Inv : World → (ℕ → ℕ) → Type 0
Inv w own = Counted w.buffers own

-- The counts with `n` references to the instance at `b`.
abbrev pub with_count : (ℕ → ℕ) → ℕ → ℕ → ℕ → ℕ
with_count own b n q = if q == b then n else own q

pub ref_law :
    (w : World) (own : ℕ → ℕ) (p : ℕ)
    → Inv w own
    → 0 < own p
    → own p + 1 < long_mod
    → (w' : World) × (ref p w ≡ ok tt w') × Inv w' (gain own p) × (w'.trace ≡ w.trace)
unfolding ref
ref_law w own p inv pos room =
    let (i, e, n) = Counted-live w.buffers own p inv pos in
    let (r, c) = inc_ref-Counted w.buffers own p i inv e room in
    (record w { buffers = put w.buffers p (some (record i { refs = own p + 1 })) }, rw r, c, refl)

ref_times_law :
    (n : ℕ) (w : World) (own : ℕ → ℕ) (b : ℕ)
    → Inv w own
    → 0 < own b
    → own b + n < long_mod
    → (w' : World) × (ref_times n b w ≡ ok tt w')
      × Inv w' (with_count own b (own b + n))
      × (w'.trace ≡ w.trace)
unfolding ref_times
ref_times_law zero w own b inv pos room =
    (w, refl, subst (Counted w.buffers) (fun_ext λ q. ground arith) inv, refl)
ref_times_law (suc n) w own b inv pos room =
    let (w', r, c, t) = ref_law w own b inv pos (omega arith) in
    let (w'', r', c', t') = ref_times_law n w' (gain own b) b c (ground arith) (ground arith) in
    (w'', rw r r', subst (Counted w''.buffers) (fun_ext λ q. ground arith) c', t' ∙ t)

-- How many references a sink callback keeps.
abbrev pub kept : Sink → ℕ
kept (keeps n) = n
kept (moves n) = n + 1

dec_law :
    (w : World) (own : ℕ → ℕ) (b : ℕ)
    → Inv w own
    → 0 < own b
    → own b < long_mod
    → (w' : World) × ((do n ← dec b; when (n == 0) (delete b)) w ≡ ok tt w') × Inv w' (lose own b)
unfolding dec
dec_law w own b inv pos room =
    let (i, e, n) = Counted-live w.buffers own b inv pos in
    elim (ℕ_discrete (own b) 1) [
      | yes last ↦
          let (r, c) = dec_ref-last w.buffers own b i inv e last in
          (
            record w {
              buffers = put (put w.buffers b (some (record i { refs = 0 }))) b none;
              trace = deleted_buffer b ∷ w.trace;
            },
            rw r,
            c,
          )
      | no more ↦
          let (r, c) = dec_ref-Counted w.buffers own b i inv e room (omega arith) in
          let left : (own b - 1 == 0) ≡ false = ground arith in
          (
            record w { buffers = put w.buffers b (some (record i { refs = own b - 1 })) },
            rw (r, left),
            c,
          )
    ]

run_sink_law :
    (s : Sink) (w : World) (own : ℕ → ℕ) (b : ℕ)
    → Inv w own
    → own b ≡ 1
    → kept s + 1 < long_mod
    → (w' : World) × (run_sink b s w ≡ ok tt w') × Inv w' (with_count own b (kept s))
unfolding run_sink
run_sink_law (moves n) w own b inv one room =
    let (w', r, c, t) = ref_times_law n w own b inv (omega arith) (omega arith) in
    (w', r, subst (Counted w'.buffers) (fun_ext λ q. ground arith) c)
run_sink_law (keeps n) w own b inv one room =
    let (w', r, c, t) = ref_times_law n w own b inv (omega arith) (omega arith) in
    let (w'', r', c') =
      dec_law w' (with_count own b (own b + n)) b c (ground arith) (ground arith) in
    (w'', rw r r', subst (Counted w''.buffers) (fun_ext λ q. ground arith) c')

module _ (sink : ℕ → Sink) where
  destroy-sink :
      (w : World) (b : ℕ) (i : Instance BufferBody)
      → w.buffers b ≡ some i
      → i.body.has_sink_cb ≡ true
      → destroy sink b w
        ≡ run_sink b (sink b) (record w {
          buffers = put w.buffers b (some (record i { refs = 1 }));
          trace = on_sink b ∷ w.trace;
        })
  unfolding destroy
  destroy-sink w b i e has = ground arith

  destroy-plain :
      (w : World) (b : ℕ) (i : Instance BufferBody)
      → w.buffers b ≡ some i
      → i.body.has_sink_cb ≡ false
      → destroy sink b w ≡ delete b w
  unfolding destroy
  destroy-plain w b i e plain = ground arith

  -- The release of the last reference to a buffer with a sink callback hands the buffer to the
  -- callback, and leaves as many references as the callback has kept: the instance is deleted if
  -- it kept none.
  pub unref_last-run_sink :
      (w : World) (own : ℕ → ℕ) (b : ℕ) (i : Instance BufferBody)
      → Inv w own
      → w.buffers b ≡ some i
      → i.body.has_sink_cb ≡ true
      → own b ≡ 1
      → kept (sink b) + 1 < long_mod
      → (w' : World) × (unref sink b w ≡ ok tt w') × Inv w' (with_count own b (kept (sink b)))
  unfolding unref dec
  unref_last-run_sink w own b i inv e has last room =
      let (r, c) = dec_ref-last w.buffers own b i inv e last in
      let h = put w.buffers b (some (record i { refs = 0 })) in
      let (w', r', c') =
        run_sink_law (sink b)
          (record w {
            buffers = put h b (some (record i { refs = 1 }));
            trace = on_sink b ∷ w.trace;
          })
          own b (λ q. ground (arith, inv q)) last room in
      (
        w',
        rw r (
            destroy-sink (record w { buffers = h }) b (record i { refs = 0 }) (ground arith) has
            ∙ r'),
        c',
      )

  pub plain_unref_law :
      (w : World) (own : ℕ → ℕ) (b : ℕ) (i : Instance BufferBody)
      → Inv w own
      → w.buffers b ≡ some i
      → i.body.has_sink_cb ≡ false
      → 0 < own b
      → own b < long_mod
      → (o : Option (Instance BufferBody)) × (t : List Event) × (unref sink b w
          ≡ ok tt (record w { buffers = put w.buffers b o; trace = t }))
        × Counted (put w.buffers b o) (lose own b)
        × ((j : Instance BufferBody) → o ≡ some j → j.body.has_sink_cb ≡ false)
  unfolding unref dec
  plain_unref_law w own b i inv e plain pos room = elim (ℕ_discrete (own b) 1) [
    | yes last ↦
        let (r, c) = dec_ref-last w.buffers own b i inv e last in
        let h = put w.buffers b (some (record i { refs = 0 })) in
        let run : unref sink b w
            ≡ ok tt (record w { buffers = put h b none; trace = deleted_buffer b ∷ w.trace }) =
          rw r (
            destroy-plain (record w { buffers = h }) b (record i { refs = 0 }) (ground arith)
              plain) in
        let same : put h b none ≡ put w.buffers b none = fun_ext λ q. ground arith in
        (
          none,
          deleted_buffer b ∷ w.trace,
          run ∙ ap (λ h. ok tt (record w { buffers = h; trace = deleted_buffer b ∷ w.trace })) same,
          subst (λ h. Counted h (lose own b)) same c,
          λ j n. cc,
        )
    | no more ↦
        let (r, c) = dec_ref-Counted w.buffers own b i inv e room (omega arith) in
        let left : (own b - 1 == 0) ≡ false = ground arith in
        (some (record i { refs = own b - 1 }), w.trace, rw (r, left), c, λ j n. ground arith)
  ]

  -- Without a sink callback the release of the last reference deletes the buffer, and any other
  -- release changes the count alone.
  buffer_unref_law :
      (w : World) (own : ℕ → ℕ) (b : ℕ) (i : Instance BufferBody)
      → Inv w own
      → w.buffers b ≡ some i
      → i.body.has_sink_cb ≡ false
      → 0 < own b
      → own b < long_mod
      → (w' : World) × (unref sink b w ≡ ok tt w') × Inv w' (lose own b)
  buffer_unref_law w own b i inv e plain pos room =
      let (o, t, r, c, s) = plain_unref_law w own b i inv e plain pos room in (_, r, c)

pub plain_ref_law :
    (w : World) (own : ℕ → ℕ) (b : ℕ) (i : Instance BufferBody)
    → Inv w own
    → w.buffers b ≡ some i
    → own b + 1 < long_mod
    → (ref b w
        ≡ ok tt (record w { buffers = put w.buffers b (some (record i { refs = own b + 1 })) }))
      × Counted (put w.buffers b (some (record i { refs = own b + 1 }))) (gain own b)
unfolding ref
plain_ref_law w own b i inv e room =
    let (r, c) = inc_ref-Counted w.buffers own b i inv e room in (rw r, c)

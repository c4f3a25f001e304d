-- ===== src/Close/Balance.antt =====
-- A close of a file, run and called back, releases what reading holds, and else nothing.
use uvcc.Prelude.{
  ℕ, ◌+◌, ◌<◌, ◌≡◌, refl, subst, fun_ext, inl, inr, Bool, not, ◌&&◌, some, arith, if◌then◌else◌,
  Bool-cases,
}
use uvcc.Prelude.Int.{ℤ, pos, is_negative}
use uvcc.Utility.RefCount.{long_mod}
use uvcc.Runtime.{
  World, M, LibUv, Instance, RequestBody, Rdcmd, and_then, pure, ◌>>=◌, uv_fs_req_cleanup,
  uv_fs_close_file,
}
use uvcc.Runtime.Counts.{gain, lose}
use uvcc.Runtime.Ends.{Ends, Ends-then, Ends-weaken}
use uvcc.Loop.Lifetime.{ClosesAll}
use uvcc.Request
use uvcc.Buffer.Sharing.{Sink}
use uvcc.Io.{is_reading}
use uvcc.Transfer.Counts.{Counts, Held}
use uvcc.Transfer.Balance.{lose-gain}
use uvcc.Transfer.Background.{Outcome, choose-Ends}
use uvcc.Transfer.Completion.{Harmless}
use uvcc.Scheme.Steps.{Keeps, status_lem, call-Keeps, now_lem}
use uvcc.Scheme.Files.{undo_file_lem}
use uvcc.Scheme.Callbacks.{file_cb_lem}
use uvcc.Close.{stop_reading, close_now, close_later, close, close_cb}
use uvcc.Close.Steps.{
  Reading, stopped, call-Reading, mark_lem, ref_lem, request_lem, save_lem, stop_reading_lem,
}

-- A reference taken before reading stops is left behind it.
stopped-gain :
    (h : ℕ → ℕ) (p : ℕ) (s : Rdcmd) → 0 < h p → stopped (gain h p) p s ≡ gain (stopped h p s) p
stopped-gain h p s pos_p = elim (Bool-cases (is_reading s)) [
  | inl reads ↦ rw reads (fun_ext λ x. ground arith)
  | inr idle ↦ rw idle refl
]

module _ (others h r b : ℕ → ℕ) (q p : ℕ) where
  -- What a request keeps is kept where the requests stay the same.
  still_Keeps :
      (h' : ℕ → ℕ) (w w' : World)
      → Keeps others h r b q (some p) w
      → w'.requests ≡ w.requests
      → Counts others h' r b w'
      → Keeps others h' r b q (some p) w'
  still_Keeps h' w w' (counts, (i, e, is)) same counts' = (counts', (i, (rw same e), is))

module _ (others : ℕ → ℕ) (uv : LibUv) (uncaught : Bool) (fuel : ℕ) (sink : ℕ → Sink)
    (alloc_cb : ℕ → ℕ → M ℕ) (on_request : ℕ → M (Unit {0})) (shut : ClosesAll uv)
    (user : Harmless others on_request) (h r b : ℕ → ℕ) (q p : ℕ) (s : Rdcmd) (in_q : 0 < r q)
    (held_q : Held (gain r q) q) (in_p : 0 < h p) (room : h p + 3 < long_mod)
    (left : 0 < stopped h p s p) where
  -- The references behind the end of reading.
  abbrev pub rest : ℕ → ℕ
  rest = stopped h p s

  abbrev Running : World → Type 0
  Running = Keeps others (gain rest p) (gain r q) b q (some p)

  held_now : Held r q
  held_now = (in_q, ground (arith, held_q))

  held_rest : Held rest p
  held_rest = (left, ground arith)

  close_now_lem :
      (w : World)
      → Counts others h r b w
      → Reading p s w
      → Ends
          (close_now uv uncaught fuel sink alloc_cb on_request q p w)
          (λ _ w'. Counts others rest r b w')
  unfolding close_now
  close_now_lem w counts reading =
      Ends-then _ _ _ _ (save_lem others h r b q p s w counts reading in_q) λ _ w1 (k1, r1).
        Ends-then _ _ _ _
          (stop_reading_lem others h r b p uv uncaught fuel sink alloc_cb on_request shut s w1 k1.0
            r1 in_p (omega (arith, room)) left)
          λ _ w2 (h2, q2).
            now_lem others uv uncaught fuel on_request rest r b q held_now (some p) w2
              (uv_fs_close_file q p) (still_Keeps others h r b q p rest w1 w2 k1 q2 h2)

  stopping_lem :
      (w : World)
      → Keeps others (gain h p) (gain r q) b q (some p) w
      → Reading p s w
      → Ends (stop_reading uv uncaught fuel sink alloc_cb on_request p w) (λ _ w'. Running w')
  stopping_lem w k reading =
      Ends-weaken _ _ _
        (stop_reading_lem others (gain h p) (gain r q) b p uv uncaught fuel sink alloc_cb on_request
          shut s w k.0 reading (ground arith) (ground (arith, room)) (ground (arith, left)))
        λ _ w' (h', q').
          still_Keeps others (gain h p) (gain r q) b q p (gain rest p) w w' k q'
            (subst (λ o. Counts others o (gain r q) b w') (stopped-gain h p s in_p) h')

  close_later_lem :
      (w : World)
      → Counts others h r b w
      → Reading p s w
      → Ends
          (close_later uv uncaught fuel sink alloc_cb on_request q p w)
          (λ ret w'. if is_negative ret then Counts others rest r b w' else Running w')
  unfolding close_later
  close_later_lem w counts reading =
      Ends-then _ _ _ _ (ref_lem others h r b q p s w counts reading (omega (arith, room)))
        λ _ w1 (h1, r1).
          Ends-then _ _ _ _ (request_lem others (gain h p) r b q p s w1 h1 r1 held_now)
            λ _ w2 (h2, r2).
              Ends-then _ _ _ _
                (save_lem others (gain h p) (gain r q) b q p s w2 h2 r2 (ground arith))
                λ _ w3 (k3, r3). Ends-then _ _ _ _ (stopping_lem w3 k3 r3) λ _ w4 h4.
                  Ends-then _ _ _ _
                    (status_lem others (gain rest p) (gain r q) b q (ground arith) (some p) w4
                      (pos 0) h4)
                    λ _ w5 h5.
                      Ends-then _ _ _ _
                        (call-Keeps others (gain rest p) (gain r q) b q (ground arith) uv (some p)
                          w5 (uv_fs_close_file q p) h5)
                        λ ret w6 h6.
                          Ends-then _ _ _ _
                            (undo_file_lem others uv uncaught fuel on_request shut rest r b q p
                              held_now held_rest w6 ret h6)
                            λ _ w7 h7. (ret, w7, refl, h7)

  -- What a close leaves, by its result.
  abbrev pub Closed : Instance RequestBody → ℤ → World → Type 0
  Closed = Outcome Running (λ w'. Counts others rest r b w')

  choose_lem :
      (w : World) (i : Instance RequestBody)
      → Counts others h r b w
      → Reading p s w
      → w.requests q ≡ some i
      → Ends
          (and_then (Request.load q w) λ j.
            if j.body.has_request_cb
            then close_later uv uncaught fuel sink alloc_cb on_request q p
            else close_now uv uncaught fuel sink alloc_cb on_request q p)
          (Closed i)
  choose_lem w i counts reading e =
      choose-Ends Running (λ w'. Counts others rest r b w') q w i _ _ e
        (close_later_lem w counts reading) (close_now_lem w counts reading)

  close_lem :
      (w : World) (i : Instance RequestBody)
      → Counts others h r b w
      → Reading p s w
      → w.requests q ≡ some i
      → Ends (close uv uncaught fuel sink alloc_cb on_request q p w) (Closed i)
  unfolding close
  close_lem w i counts reading e =
      Ends-then _ _ _ (Closed i)
        (call-Reading others h r b uv q p s w i (uv_fs_req_cleanup q) counts reading e)
        λ _ w1 (h1, r1, e1).
          Ends-then _ _ _ (Closed i) (mark_lem others h r b q p s w1 h1 r1)
            λ _ w2 (h2, r2, q2). choose_lem w2 i h2 r2 (rw q2 e1)

  -- What follows the outcome of a close: the callback, if it runs in the background.
  abbrev pub complete_close : Bool → ℤ → ℤ → M (Unit {0})
  complete_close set result ret =
      if set && not (is_negative ret)
      then close_cb uv uncaught fuel sink alloc_cb on_request q result
      else pure tt

  callback_lem :
      (w : World) (result : ℤ)
      → Running w
      → Ends
          (close_cb uv uncaught fuel sink alloc_cb on_request q result w)
          (λ _ w'. Counts others rest r b w')
  unfolding close_cb
  callback_lem w result running =
      Ends-weaken _ _ _
        (file_cb_lem others uv uncaught fuel on_request shut user (gain rest p) (gain r q) b q
          held_q p (ground (arith, left), ground (arith, room)) w result running)
        λ _ w' h'.
          subst (λ o. Counts others o r b w') (lose-gain rest p)
            (subst (λ o. Counts others (lose (gain rest p) p) o b w') (lose-gain r q) h')

  -- A close of a file, run and called back if it runs in the background, whatever libuv answers, ends
  -- the reading of the file: it releases the reference that the file held to itself if it was read,
  -- and leaves every other reference as before, also where libuv refuses the close. It is given that
  -- the caller has the request and the file in variables, that the user's callback leaves the counts,
  -- that no buffer has a sink callback, and that libuv closes every loop that is given up at the first
  -- attempt.
  pub close-completes :
      (w : World) (i : Instance RequestBody) (result : ℤ)
      → Counts others h r b w
      → Reading p s w
      → w.requests q ≡ some i
      → Ends
          ((close uv uncaught fuel sink alloc_cb on_request q p
              >>= complete_close i.body.has_request_cb result)
            w)
          (λ _ w'. Counts others rest r b w')
  close-completes w i result counts reading e =
      Ends-then _ _ _ _ (close_lem w i counts reading e) λ ret w1 h1.
        elim (Bool-cases (i.body.has_request_cb && not (is_negative ret))) [
          | inl on ↦ rw on (callback_lem w1 result (rw on at h1))
          | inr off ↦ rw off (tt, w1, refl, (rw off at h1))
        ]

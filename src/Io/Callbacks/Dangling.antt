-- ===== src/Io/Callbacks/Dangling.antt =====
-- When `io_read_cb` uses an instance that is still alive, and when it does not.
use uvcc.Prelude.{ℕ, suc, ◌+◌, ◌<◌, ◌≡◌, refl, inl, inr, Bool, true, some, none, arith, Bool-cases}
use uvcc.Prelude.Int.{ℤ, is_positive, ◌+ℤ◌}
use uvcc.Utility.RefCount.{long_mod}
use uvcc.Runtime.{World, fault, M, Instance, HandleBody, Rdcmd, LibUv, and_then}
use uvcc.Runtime.Ends.{Ends, Ends-then}
use uvcc.Loop.Lifetime.{ClosesAll}
use uvcc.Handle.{unref}
use uvcc.Handle.Lifetime.{handle_unref_last}
use uvcc.Handle.Observed.{extra}
use uvcc.Io.State.{State, set_status_lem, set_rdoffset_lem, ref_lem, release_lem}
use uvcc.Io.Callbacks.{advance, io_read_cb}

module _ (others own : ℕ → ℕ) (p : ℕ) (uv : LibUv) (uncaught : Bool) (fuel : ℕ)
    (read_cb : ℕ → ℤ → ℕ → ℤ → M (Unit {0})) where
  advance_lem :
      (n : ℕ) (s : Rdcmd) (w : World) (nread : ℤ)
      → State others own p n s w
      → Ends (advance uv uncaught fuel p nread w) (λ _ w'. State others own p n s w')
  unfolding advance
  advance_lem n s w nread (i, inv, e, st) = elim (Bool-cases (is_positive nread)) [
    | inl some_read ↦
        rw (some_read, e)
          (set_rdoffset_lem others own p n s w (i.body.rdoffset +ℤ nread) (i, inv, e, st))
    | inr none_read ↦ rw none_read (tt, w, refl, (i, inv, e, st))
  ]

  -- The user's callback leaves `n'` references to the handle besides those of `own`, the one of its
  -- own parameter among them, and the state `s'`.
  abbrev pub Leaves : ℕ → Rdcmd → ℤ → ℕ → ℕ → Rdcmd → Type 0
  Leaves n s nread b n' s' =
      (w : World) (offset : ℤ)
      → State others own p n s w
      → Ends (read_cb p nread b offset w) (λ _ w'. State others own p n' s' w')

  module _ (n : ℕ) (s s' : Rdcmd) (w : World) (i : Instance HandleBody) (nread : ℤ) (b : ℕ)
      (h : State others own p n s w) (e : w.handles p ≡ some i) (set : i.body.has_read_cb ≡ true)
      (held : 0 < own p + n) (room : own p + n + 2 < long_mod) where
    -- The part of `io_read_cb` before the release of the parameter.
    before_release :
        (n' : ℕ) (Q : Unit {0} → World → Type 0)
        → Leaves (suc n) s nread b n' s'
        → ((w' : World)
            → State others own p n' s' w'
            → Ends (and_then (unref uv uncaught fuel p w') λ _. advance uv uncaught fuel p nread) Q)
        → Ends (io_read_cb uv uncaught fuel read_cb p nread b w) Q
    unfolding io_read_cb
    before_release n' Q user rest =
        rw (e, set)
          (Ends-then _ _ _ _ (set_status_lem others own p n s w nread h) λ _ w1 (_, h1).
            Ends-then _ _ _ _
              (Ends-then _ _ _ _ (ref_lem others own p n s w1 (omega arith) h1)
                λ _ w2 h2. user w2 i.body.rdoffset h2)
              λ _ w3 h3. rest w3 h3)

    -- A read that is delivered ends with the references and the state that the user's callback has
    -- left, if another reference to the handle is left than that of the callback's parameter.
    pub io_read_cb-keeps :
        (n' : ℕ)
        → Leaves (suc n) s nread b (suc n') s'
        → 0 < own p + n'
        → own p + suc n' < long_mod
        → Ends
            (io_read_cb uv uncaught fuel read_cb p nread b w)
            (λ _ w'. State others own p n' s' w')
    io_read_cb-keeps n' user left small = before_release (suc n') _ user λ w1 h1.
        Ends-then _ _ _ _ (release_lem others own p uv uncaught fuel n' s' w1 left small h1)
          λ _ w2 h2. advance_lem n' s' w2 nread h2

    advance-deleted :
        (w' : World)
        → w'.handles p ≡ none
        → is_positive nread ≡ true
        → advance uv uncaught fuel p nread w' ≡ fault
    unfolding advance
    advance-deleted w' gone some_read = rw (some_read, gone) refl

    -- If the user's callback leaves no reference to the handle but that of its own parameter, as it
    -- does by stopping the reading of a handle that is in no variable, then `io_read_cb` deletes the
    -- instance with that parameter, and behind it uses the deleted instance where data has been read.
    -- It is given that libuv closes every loop that is given up.
    pub io_read_cb-dangles :
        ClosesAll uv
        → Leaves (suc n) s nread b 1 s'
        → own p ≡ 0
        → is_positive nread ≡ true
        → io_read_cb uv uncaught fuel read_cb p nread b w ≡ fault
    unfolding io_read_cb
    io_read_cb-dangles shut user none_left some_read =
        let (a, w1, e1, (_, h1)) = set_status_lem others own p n s w nread h in
        let (a2, w2, e2, h2) = ref_lem others own p n s w1 (omega arith) h1 in
        let (a3, w3, e3, (j, inv, ej, _)) = user w2 i.body.rdoffset h2 in
        let (w4, e4, (_, gone, _, _)) =
          handle_unref_last others uv uncaught fuel shut w3 (extra own p 1) p j inv ej
            (ground arith) in
        rw (e, set, e1, e2, e3, e4) (advance-deleted w4 gone some_read)

-- ===== src/Io/Commands.antt =====
-- What each reading command does to the references that reading holds.
use uvcc.Prelude.{
  ℕ, suc, ◌+◌, ◌<◌, ◌≡◌, refl, sym, ◌∙◌, subst, inl, inr, Bool, true, false, ◌&&◌, some, arith,
  if◌then◌else◌, Bool-cases,
}
use uvcc.Prelude.Int.{ℤ, pos, is_negative}
use uvcc.Utility.RefCount.{long_mod}
use uvcc.Runtime.{
  World, Instance, HandleBody, Rdcmd, unknown, stop, pause, start, resume, LibUv, when,
}
use uvcc.Runtime.Ends.{Ends, Ends-then, Ends-weaken}
use uvcc.Handle.{unref}
use uvcc.Io.State.{
  State, set_status_lem, set_state_lem, set_rdsize_lem, unlock_lem, ref_lem, unref_lem,
}
use uvcc.Io.{
  Interface, uv_einval, is_reading, is_paused, launch, restart, finish_start, stop_and_release,
  read_start, read_stop, read_pause, read_resume,
}

-- The functions of an interface end, and leave the counts and the state of reading as they are.
pub record Quiet (interface : Interface) (others own : ℕ → ℕ) (p : ℕ) : Type 0 where
  pub read_start-quiet :
      (n : ℕ) (s : Rdcmd) (w : World) (offset : ℤ)
      → State others own p n s w
      → Ends (interface.read_start p offset w) (λ _ w'. State others own p n s w')
  pub read_stop-quiet :
      (n : ℕ) (s : Rdcmd) (w : World)
      → State others own p n s w
      → Ends (interface.read_stop p w) (λ _ w'. State others own p n s w')

-- The references that a handle holds to itself while it is reading.
abbrev pub held : Rdcmd → ℕ
held s = if is_reading s then 1 else 0

module _ (others own : ℕ → ℕ) (p : ℕ) where
  -- The counts are right with the reference that reading holds.
  abbrev pub Reads : Rdcmd → World → Type 0
  Reads s w = State others own p (held s) s w

module _ (uv : LibUv) (uncaught : Bool) (fuel : ℕ) (interface : Interface) (others own : ℕ → ℕ)
    (p : ℕ) (quiet : Quiet interface others own p) (user : 0 < own p)
    (room : own p + 2 < long_mod) where
  -- What is left by `finish_start` where the state `s` was to be entered.
  abbrev Finished : Rdcmd → ℤ → ℤ → World → Type 0
  Finished s r a w' =
      (a ≡ r)
      × State others own p (if is_negative r then 0 else 1) (if is_negative r then unknown else s)
          w'

  finish_start_lem :
      (s : Rdcmd) (w : World) (r : ℤ)
      → State others own p 1 s w
      → Ends (finish_start uv uncaught fuel interface p r w) (Finished s r)
  unfolding finish_start
  finish_start_lem s w r h = elim (Bool-cases (is_negative r)) [
    | inl neg ↦ rw neg (
        Ends-then _ _ _ _ (set_status_lem others own p 1 s w r h) λ _ w1 (_, h1).
          Ends-then _ _ _ _ (set_state_lem others own p 1 s unknown w1 h1) λ _ w2 h2.
            Ends-then _ _ _ _
              (unref_lem others own p uv uncaught fuel 0 unknown w2 user (omega arith) h2)
              λ _ w3 h3. (r, w3, refl, (refl, h3)))
    | inr nonneg ↦ rw nonneg (r, w, refl, (refl, h))
  ]

  stop_and_release_lem :
      (n : ℕ) (s : Rdcmd) (w : World)
      → n < 2
      → State others own p (suc n) s w
      → Ends (stop_and_release uv uncaught fuel interface p w) (λ _ w'. State others own p n s w')
  unfolding stop_and_release
  stop_and_release_lem n s w few h =
      Ends-then _ _ _ _ (quiet.read_stop-quiet (suc n) s w h) λ r w1 h1.
        Ends-then _ _ _ _ (set_status_lem others own p (suc n) s w1 r h1) λ ret w2 (_, h2).
          Ends-then _ _ _ _ (unref_lem others own p uv uncaught fuel n s w2 user (omega arith) h2)
            λ _ w3 h3. (ret, w3, refl, h3)

  -- The state behind an attempt to enter the state `s`, and the references held.
  abbrev pub entered : Rdcmd → ℤ → Rdcmd
  entered s r = if is_negative r then unknown else s

  launch_lem :
      (w : World) (s : Rdcmd) (offset : ℤ)
      → State others own p 1 s w
      → Ends
          (launch uv uncaught fuel interface p offset w)
          (λ a w'. State others own p (if is_negative a then 0 else 1) (entered s a) w')
  unfolding launch
  launch_lem w s offset h =
      Ends-then _ _ _ _ (set_status_lem others own p 1 s w (pos 0) h) λ _ w1 (_, h1).
        Ends-then _ _ _ _ (quiet.read_start-quiet 1 s w1 offset h1) λ r w2 h2.
          Ends-then _ _ _ _ (finish_start_lem s w2 r h2) λ a w3 (e, h3).
            Ends-weaken _ _ _ (unlock_lem others own p _ _ w3 a h3) λ b w4 (e', h4).
              subst (λ x. State others own p (if is_negative x then 0 else 1) (entered s x) w4)
                (sym (e' ∙ e)) h4

  restart_lem :
      (w : World) (s s' : Rdcmd)
      → State others own p (suc (held s)) s' w
      → Ends (restart uv uncaught fuel interface p s w) (λ _ w'. State others own p 1 s' w')
  unfolding restart
  restart_lem w s s' h = elim (Bool-cases (is_reading s)) [
    | inl reads ↦
        let h' : State others own p 2 s' w =
          subst (λ b. State others own p (suc (if b then 1 else 0)) s' w) reads h in
        rw reads (
          Ends-then _ _ _ _ (stop_and_release_lem 1 s' w (omega arith) h')
            λ _ w1 h1. (tt, w1, refl, h1))
    | inr idle ↦
        let h' : State others own p 1 s' w =
          subst (λ b. State others own p (suc (if b then 1 else 0)) s' w) idle h in
        rw idle (tt, w, refl, h')
  ]

  release_lem :
      (w : World) (s s' : Rdcmd)
      → State others own p (held s) s' w
      → Ends (when (is_reading s) (unref uv uncaught fuel p) w) (λ _ w'. State others own p 0 s' w')
  release_lem w s s' h = elim (Bool-cases (is_reading s)) [
    | inl reads ↦
        let h' : State others own p 1 s' w =
          subst (λ b. State others own p (if b then 1 else 0) s' w) reads h in
        rw reads (unref_lem others own p uv uncaught fuel 0 s' w user (omega arith) h')
    | inr idle ↦
        let h' : State others own p 0 s' w =
          subst (λ b. State others own p (if b then 1 else 0) s' w) idle h in
        rw idle (tt, w, refl, h')
  ]

  module _ (w : World) (s : Rdcmd) (i : Instance HandleBody) (e : w.handles p ≡ some i)
      (h : State others own p (held s) s w) (st : i.body.rdcmd_state ≡ s) where
    -- `read_start` refuses without callbacks, and otherwise takes the one reference that it needs.
    pub read_start-refuses :
        (size : ℕ) (offset : ℤ)
        → (i.body.has_alloc_cb && i.body.has_read_cb) ≡ false
        → Ends
            (read_start uv uncaught fuel interface p size offset w)
            (λ a w'. (a ≡ uv_einval) × State others own p (held s) s w')
    unfolding read_start
    read_start-refuses size offset missing =
        rw (e, missing)
          (Ends-then _ _ _ _ (set_status_lem others own p _ s w uv_einval h) λ a w1 (ea, h1).
            Ends-weaken _ _ _ (unlock_lem others own p _ s w1 a h1) λ b w2 (eb, h2). (eb ∙ ea, h2))

    pub read_start-starts :
        (size : ℕ) (offset : ℤ)
        → (i.body.has_alloc_cb && i.body.has_read_cb) ≡ true
        → Ends
            (read_start uv uncaught fuel interface p size offset w)
            (λ a w'. State others own p (if is_negative a then 0 else 1) (entered start a) w')
    unfolding read_start
    read_start-starts size offset set =
        rw (e, set, st)
          (Ends-then _ _ _ _ (set_state_lem others own p _ s start w h) λ _ w1 h1.
            Ends-then _ _ _ _ (ref_lem others own p _ start w1 (ground arith) h1) λ _ w2 h2.
              Ends-then _ _ _ _ (restart_lem w2 s start h2) λ _ w3 h3.
                Ends-then _ _ _ _ (set_rdsize_lem others own p 1 start w3 size h3)
                  λ _ w4 h4. launch_lem w4 start offset h4)

    pub read_stop-stops :
        Ends (read_stop uv uncaught fuel interface p w) (λ a w'. State others own p 0 stop w')
    unfolding read_stop
    read_stop-stops =
        rw (e, st)
          (Ends-then _ _ _ _ (set_state_lem others own p _ s stop w h) λ _ w1 h1.
            Ends-then _ _ _ _ (quiet.read_stop-quiet _ stop w1 h1) λ r w2 h2.
              Ends-then _ _ _ _ (set_status_lem others own p _ stop w2 r h2) λ ret w3 (_, h3).
                Ends-then _ _ _ _ (release_lem w3 s stop h3) λ _ w4 h4.
                  Ends-weaken _ _ _ (unlock_lem others own p 0 stop w4 ret h4) λ b w5 (_, h5). h5)

    pub read_pause-pauses :
        is_reading s ≡ true
        → Ends
            (read_pause uv uncaught fuel interface p true w)
            (λ a w'. State others own p 0 pause w')
    unfolding read_pause
    read_pause-pauses reads =
        let h' : State others own p 1 s w =
          subst (λ b. State others own p (if b then 1 else 0) s w) reads h in
        rw (e, st, reads)
          (Ends-then _ _ _ _ (set_state_lem others own p 1 s pause w h') λ _ w1 h1.
            Ends-then _ _ _ _ (stop_and_release_lem 0 pause w1 (omega arith) h1) λ ret w2 h2.
              Ends-weaken _ _ _ (unlock_lem others own p 0 pause w2 ret h2) λ b w3 (_, h3). h3)

    pub read_pause-idle :
        is_reading s ≡ false
        → Ends
            (read_pause uv uncaught fuel interface p true w)
            (λ a w'. (a ≡ pos 2) × State others own p (held s) s w')
    unfolding read_pause
    read_pause-idle idle = rw (e, st, idle) (rw idle at (unlock_lem others own p _ s w (pos 2) h))

    pub read_resume-idle :
        is_paused s ≡ false
        → Ends
            (read_resume uv uncaught fuel interface p true w)
            (λ a w'. (a ≡ pos 2) × State others own p (held s) s w')
    unfolding read_resume
    read_resume-idle idle = rw (e, st, idle) (unlock_lem others own p _ s w (pos 2) h)

    pub read_resume-resumes :
        s ≡ pause
        → Ends
            (read_resume uv uncaught fuel interface p true w)
            (λ a w'. State others own p (if is_negative a then 0 else 1) (entered resume a) w')
    unfolding read_resume
    read_resume-resumes was =
        let h' : State others own p 0 pause w =
          subst (λ x. State others own p (held x) x w) was h in
        rw (e, st, was)
          (Ends-then _ _ _ _ (set_state_lem others own p 0 pause resume w h') λ _ w1 h1.
            Ends-then _ _ _ _ (ref_lem others own p 0 resume w1 (omega arith) h1)
              λ _ w2 h2. launch_lem w2 resume i.body.rdoffset h2)

-- ===== src/Io/Table.antt =====
-- The reading commands as a machine: the table of their states in the documentation of
-- `read_resume`, and the reference that a handle holds to itself while it is reading.
use uvcc.Prelude.{
  ℕ, ◌+◌, ◌<◌, ◌≡◌, refl, sym, subst, inl, inr, Bool, true, false, ◌&&◌, some, List, [], ◌∷◌, ◌++◌,
  ◌⊎◌, arith, if◌then◌else◌, Bool-cases,
}
use uvcc.Prelude.Int.{ℤ, pos, is_negative}
use uvcc.Utility.RefCount.{long_mod}
use uvcc.Runtime.{
  World, Run, ok, Instance, HandleBody, Rdcmd, unknown, stop, pause, start, resume, LibUv, put,
  and_then,
}
use uvcc.Runtime.Ends.{Ends, Ends-then, Ends-weaken}
use uvcc.Io.State.{State, store-State}
use uvcc.Io.Commands.{
  Quiet, held, Reads, entered, read_start-refuses, read_start-starts, read_stop-stops,
  read_pause-pauses, read_pause-idle, read_resume-idle, read_resume-resumes,
}
use uvcc.Io.{
  Interface, uv_einval, is_reading, is_paused, read_start_with, read_pause, read_resume, Command,
  starts, starts_with, stops, pauses, resumes, command,
}

-- The table of the commands: from which state to which one, and the result that says so.
pub data Step : Command → Rdcmd → ℤ → Rdcmd → Type 0 where
  refused : {n : ℕ} {o : ℤ} {s : Rdcmd} → Step (starts n o) s uv_einval s
  refused_with :
      {a b : Bool} {n : ℕ} {o : ℤ} {s : Rdcmd}
      → (a && b) ≡ false
      → Step (starts_with a b n o) s uv_einval s
  started :
      {n : ℕ} {o : ℤ} {s : Rdcmd} {r : ℤ} → is_negative r ≡ false → Step (starts n o) s r start
  started_with :
      {a b : Bool} {n : ℕ} {o : ℤ} {s : Rdcmd} {r : ℤ}
      → is_negative r ≡ false
      → (a && b) ≡ true
      → Step (starts_with a b n o) s r start
  failed :
      {n : ℕ} {o : ℤ} {s : Rdcmd} {r : ℤ} → is_negative r ≡ true → Step (starts n o) s r unknown
  failed_with :
      {a b : Bool} {n : ℕ} {o : ℤ} {s : Rdcmd} {r : ℤ}
      → is_negative r ≡ true
      → (a && b) ≡ true
      → Step (starts_with a b n o) s r unknown
  stopped : {s : Rdcmd} {r : ℤ} → Step stops s r stop
  paused : {s : Rdcmd} {r : ℤ} → is_reading s ≡ true → Step (pauses true) s r pause
  not_reading : {s : Rdcmd} → is_reading s ≡ false → Step (pauses true) s (pos 2) s
  not_pausing : {s : Rdcmd} → Step (pauses false) s (pos 1) s
  resumed : {r : ℤ} → is_negative r ≡ false → Step (resumes true) pause r resume
  resume_failed : {r : ℤ} → is_negative r ≡ true → Step (resumes true) pause r unknown
  not_paused : {s : Rdcmd} → is_paused s ≡ false → Step (resumes true) s (pos 2) s
  not_resuming : {s : Rdcmd} → Step (resumes false) s (pos 1) s

module _ (uv : LibUv) (uncaught : Bool) (fuel : ℕ) (interface : Interface) (others own : ℕ → ℕ)
    (p : ℕ) (quiet : Quiet interface others own p) (user : 0 < own p)
    (room : own p + 2 < long_mod) where
  -- What a command may end with: a step of the table, with the counts right for the new state.
  abbrev pub Stepped : Command → Rdcmd → ℤ → World → Type 0
  Stepped c s a w' = (s' : Rdcmd) × Step c s a s' × Reads others own p s' w'

  entered-Stepped :
      (c : Command) (s s' : Rdcmd) (a : ℤ) (w' : World)
      → is_reading s' ≡ true
      → (is_negative a ≡ false → Step c s a s')
      → (is_negative a ≡ true → Step c s a unknown)
      → State others own p
          (if is_negative a then 0 else 1)
          (entered uv uncaught fuel interface others own p quiet user room s' a)
          w'
      → Stepped c s a w'
  entered-Stepped c s s' a w' reads good bad h = elim (Bool-cases (is_negative a)) [
    | inl neg ↦ (
      unknown,
      bad neg,
      subst (λ b. State others own p (if b then 0 else 1) (if b then unknown else s') w') neg h,
    )
    | inr nonneg ↦ (
      s',
      good nonneg,
      subst (λ b. State others own p (if b then 1 else 0) s' w') (sym reads)
          (subst (λ b. State others own p (if b then 0 else 1) (if b then unknown else s') w')
            nonneg h),
    )
  ]

  start-Stepped :
      (size : ℕ) (offset : ℤ) (s : Rdcmd) (w : World)
      → Reads others own p s w
      → Ends
          (command uv uncaught fuel interface (starts size offset) p w)
          (Stepped (starts size offset) s)
  unfolding command
  start-Stepped size offset s w (i, inv, e, st) =
      elim (Bool-cases (i.body.has_alloc_cb && i.body.has_read_cb)) [
        | inl set ↦
            Ends-weaken _ _ _
              (read_start-starts uv uncaught fuel interface others own p quiet user room w s i e
                (i, inv, e, st) st size offset set)
              λ a w' h. entered-Stepped (starts size offset) s start a w' refl started failed h
        | inr missing ↦
            Ends-weaken _ _ _
              (read_start-refuses uv uncaught fuel interface others own p quiet user room w s i e
                (i, inv, e, st) st size offset missing)
              λ a w' (ea, h). (s, subst (λ a. Step (starts size offset) s a s) (sym ea) refused, h)
      ]

  -- The handle with the callbacks set, and the world with it.
  abbrev with_callbacks : Instance HandleBody → Bool → Bool → Instance HandleBody
  with_callbacks i a b = record i { body = record i.body { has_alloc_cb = a; has_read_cb = b } }

  abbrev prepared : World → Instance HandleBody → World
  prepared w i = record w { handles = put w.handles p (some i) }

  with-Stepped :
      (a b : Bool) (size : ℕ) (offset : ℤ) (s : Rdcmd) (w : World)
      → Reads others own p s w
      → Ends
          (command uv uncaught fuel interface (starts_with a b size offset) p w)
          (Stepped (starts_with a b size offset) s)
  unfolding command read_start_with
  with-Stepped a b size offset s w (i, inv, e, st) =
      let i' = with_callbacks i a b in
      let here : put w.handles p (some i') p ≡ some i' = ground arith in
      let h : State others own p (held s) s (prepared w i') =
        subst (λ x. State others own p (held s) x (prepared w i')) st
          (store-State others own p (held s) w i i' inv e refl refl) in
      elim (Bool-cases (a && b)) [
        | inl set ↦ rw e (
            Ends-weaken _ _ _
              (read_start-starts uv uncaught fuel interface others own p quiet user room
                (prepared w i') s i' here h st size offset set)
              λ r w' h'.
                entered-Stepped (starts_with a b size offset) s start r w' refl
                  (λ g. started_with g set) (λ g. failed_with g set) h')
        | inr missing ↦ rw e (
            Ends-weaken _ _ _
              (read_start-refuses uv uncaught fuel interface others own p quiet user room
                (prepared w i') s i' here h st size offset missing)
              λ r w' (er, h'). (
                s,
                subst (λ r. Step (starts_with a b size offset) s r s) (sym er)
                    (refused_with missing),
                h',
              ))
      ]

  resume-Stepped :
      (s : Rdcmd) (w : World)
      → Reads others own p s w
      → (s ≡ pause) ⊎ (is_paused s ≡ false)
      → Ends (command uv uncaught fuel interface (resumes true) p w) (Stepped (resumes true) s)
  unfolding command
  resume-Stepped s w (i, inv, e, st) (inl was) =
      Ends-weaken _ _ _
        (read_resume-resumes uv uncaught fuel interface others own p quiet user room w s i e
          (i, inv, e, st) st was)
        λ a w' h.
          subst (λ s. Stepped (resumes true) s a w') (sym was)
            (entered-Stepped (resumes true) pause resume a w' refl resumed resume_failed h)
  resume-Stepped s w (i, inv, e, st) (inr idle) =
      Ends-weaken _ _ _
        (read_resume-idle uv uncaught fuel interface others own p quiet user room w s i e
          (i, inv, e, st) st idle)
        λ a w' (ea, h). (s, subst (λ a. Step (resumes true) s a s) (sym ea) (not_paused idle), h)

  pause-Stepped :
      (s : Rdcmd) (w : World)
      → Reads others own p s w
      → Ends (command uv uncaught fuel interface (pauses true) p w) (Stepped (pauses true) s)
  unfolding command
  pause-Stepped s w (i, inv, e, st) = elim (Bool-cases (is_reading s)) [
    | inl reads ↦
        Ends-weaken _ _ _
          (read_pause-pauses uv uncaught fuel interface others own p quiet user room w s i e
            (i, inv, e, st) st reads)
          λ a w' h. (pause, paused reads, h)
    | inr idle ↦
        Ends-weaken _ _ _
          (read_pause-idle uv uncaught fuel interface others own p quiet user room w s i e
            (i, inv, e, st) st idle)
          λ a w' (ea, h). (s, subst (λ a. Step (pauses true) s a s) (sym ea) (not_reading idle), h)
  ]

  pause-cases : (s : Rdcmd) → (s ≡ pause) ⊎ (is_paused s ≡ false)
  pause-cases unknown = inr refl
  pause-cases stop = inr refl
  pause-cases pause = inl refl
  pause-cases start = inr refl
  pause-cases resume = inr refl

  -- Every reading command, from every state, ends with a result, with a step of the documented
  -- table, and with the counts right: the handle holds one reference to itself in the states START
  -- and RESUME and none in the others. It is given that the functions for the kind of the handle
  -- leave counts and states, and that the caller holds a reference to the handle.
  pub command-Step :
      (c : Command) (s : Rdcmd) (w : World)
      → Reads others own p s w
      → Ends (command uv uncaught fuel interface c p w) (Stepped c s)
  unfolding command read_pause read_resume
  command-Step (starts size offset) s w h = start-Stepped size offset s w h
  command-Step (starts_with a b size offset) s w h = with-Stepped a b size offset s w h
  command-Step stops s w (i, inv, e, st) =
      Ends-weaken _ _ _
        (read_stop-stops uv uncaught fuel interface others own p quiet user room w s i e
          (i, inv, e, st) st)
        λ a w' h. (stop, stopped, h)
  command-Step (pauses true) s w h = pause-Stepped s w h
  command-Step (pauses false) s w h = (pos 1, w, refl, (s, not_pausing, h))
  command-Step (resumes true) s w h = resume-Stepped s w h (pause-cases s)
  command-Step (resumes false) s w h = (pos 1, w, refl, (s, not_resuming, h))

  -- The commands of a list, one after another.
  abbrev pub commands : List Command → World → Run (Unit {0})
  commands [] w = ok tt w
  commands (c ∷ cs) w = and_then (command uv uncaught fuel interface c p w) λ _. commands cs

  -- Any sequence of reading commands that `read_stop` ends, from any state, runs to its end in the
  -- state STOP, where the handle holds no reference to itself and all others are as before: none is
  -- lost and none released twice, whichever commands fail. It is given that the functions for the
  -- kind of the handle leave counts and states, and that the caller holds a reference to the handle.
  pub commands-balance :
      (cs : List Command) (s : Rdcmd) (w : World)
      → Reads others own p s w
      → Ends (commands (cs ++ (stops ∷ [])) w) (λ _ w'. Reads others own p stop w')
  commands-balance [] s w h =
      Ends-then _ _ _ _ (command-Step stops s w h)
        λ a w' (s', t, h'). (tt, w', refl, stopped_at s s' a w' t h')
    where
      stopped_at :
          (s s' : Rdcmd) (a : ℤ) (w' : World)
          → Step stops s a s'
          → Reads others own p s' w'
          → Reads others own p stop w'
      stopped_at s s' a w' stopped h = h
  commands-balance (c ∷ cs) s w h =
      Ends-then _ _ _ _ (command-Step c s w h) λ a w' (s', t, h'). commands-balance cs s' w' h'

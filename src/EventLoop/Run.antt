-- ===== src/EventLoop/Run.antt =====
-- A run of a loop, and the callback for its end.
use uvcc.Prelude.{ℕ, ◌+◌, ◌<◌, ◌≡◌, refl, ◌∙◌, subst, Bool, true, false, some, arith, if◌then◌else◌}
use uvcc.Prelude.Int.{ℤ}
use uvcc.Utility.RefCount.{long_mod}
use uvcc.Runtime.{World, M, ◌>>◌, LibUv, Instance, LoopBody, put}
use uvcc.Runtime.Counts.{Counted, gain}
use uvcc.Runtime.Ends.{Ends, Ends-then}
use uvcc.Loop
use uvcc.Transfer.Balance.{lose-gain}
use uvcc.Loop.Lifetime.{ClosesAll, ref_law, unref_law}
use uvcc.EventLoop.{set_status, notify_exit, run}

-- Loops counted by the references to them, of variables and of handles alike.
abbrev pub Inv : World → (ℕ → ℕ) → Type 0
Inv w own = Counted w.loops own

-- The code takes the loops from the counts `own` to the counts `own'`.
abbrev pub Takes : {A : Type 0} → M A → (own own' : ℕ → ℕ) → Type 0
Takes m own own' = (w : World) → Inv w own → Ends (m w) (λ _ w'. Inv w' own')

-- Whether the callback for the exit of the loop is set.
abbrev pub HasExit : ℕ → Bool → World → Type 0
HasExit l set w = (i : Instance LoopBody) × (w.loops l ≡ some i) × (i.body.has_exit_cb ≡ set)

set_status_lem :
    (own : ℕ → ℕ) (l : ℕ) (set : Bool) (w : World) (r : ℤ)
    → Inv w own
    → HasExit l set w
    → Ends (set_status l r w) (λ a w'. (a ≡ r) × Inv w' own × HasExit l set w')
unfolding set_status
set_status_lem own l set w r inv (i, e, is) =
    let i' = record i { uv_error = r } in
    let w' : World = record w { loops = put w.loops l (some i') } in
    (
      r,
      w',
      ground (arith, e),
      (refl, (λ p. ground (arith, e, inv p, inv l)), (i', ground arith, is)),
    )

module _ (uv : LibUv) (uncaught : Bool) (fuel : ℕ) (shut : ClosesAll uv) (l : ℕ)
    (exit_cb : ℕ → M (Unit {0})) (own own' : ℕ → ℕ) where
  exit_lem :
      (w : World)
      → Inv w own
      → 0 < own l
      → own l + 1 < long_mod
      → own' l + 1 < long_mod
      → Takes (exit_cb l) (gain own l) (gain own' l)
      → Ends ((do Loop.ref l; exit_cb l; Loop.unref uv uncaught fuel l) w) (λ _ w'. Inv w' own')
  exit_lem w inv held room room' user =
      let (w1, run1, inv1) = ref_law w own l inv held room in
      Ends-then _ _ _ _ (tt, w1, run1, inv1)
        λ _ w2 h2. Ends-then _ _ _ _ (user w2 h2) λ _ w3 h3.
          let (w4, run4, inv4, handles, same) =
            unref_law uv uncaught fuel shut w3 (gain own' l) l h3 (ground arith) (ground arith) in
          (tt, w4, run4, subst (Inv w4) (lose-gain own' l) inv4)

  -- The counts behind the callback for the exit, if it is set.
  abbrev pub after : Bool → ℕ → ℕ
  after set = if set then own' else own

  notify_exit_lem :
      (set : Bool) (w : World)
      → Inv w own
      → HasExit l set w
      → 0 < own l
      → own l + 1 < long_mod
      → own' l + 1 < long_mod
      → Takes (exit_cb l) (gain own l) (gain own' l)
      → Ends (notify_exit uv uncaught fuel exit_cb l w) (λ _ w'. Inv w' (after set))
  unfolding notify_exit
  notify_exit_lem true w inv (i, e, is) held room room' user =
      rw (e, is) (exit_lem w inv held room room' user)
  notify_exit_lem false w inv (i, e, is) held room room' user = rw (e, is) (tt, w, refl, inv)

  -- A run of a loop ends with the result of `uv_run`, and with the counts that `uv_run` has left, or,
  -- where the callback for the exit is set, those that this leaves: also if it releases the last
  -- variable of the loop, which is destroyed behind it. It is given that the loop is held when
  -- `uv_run` ends, and that libuv closes every loop that is given up.
  pub run-ends :
      (uv_run : ℕ → M ℤ) (answer : ℤ) (set : Bool) (w : World)
      → Ends (uv_run l w) (λ ret w'. (ret ≡ answer) × Inv w' own × HasExit l set w')
      → 0 < own l
      → own l + 1 < long_mod
      → own' l + 1 < long_mod
      → Takes (exit_cb l) (gain own l) (gain own' l)
      → Ends
          (run uv uncaught fuel uv_run exit_cb l w)
          (λ ret w'. (ret ≡ answer) × Inv w' (after set))
  unfolding run
  run-ends uv_run answer set w turns held room room' user =
      Ends-then _ _ _ _ turns λ ret w1 (is, h1, x1).
        Ends-then _ _ _ _ (set_status_lem own l set w1 ret h1 x1) λ a w2 (same, h2, x2).
          Ends-then _ _ _ _ (notify_exit_lem set w2 h2 x2 held room room' user)
            λ _ w3 h3. (a, w3, refl, (same ∙ is, h3))

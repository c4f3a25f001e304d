-- ===== src/EventLoop/Walk.antt =====
-- A walk over the handles of a loop.
use uvcc.Prelude.{ℕ, ◌+◌, ◌<◌, refl, subst, Bool, List, [], ◌∷◌, arith}
use uvcc.Utility.RefCount.{long_mod}
use uvcc.Runtime.{World, M, LibUv}
use uvcc.Runtime.Counts.{Counted-live, gain}
use uvcc.Runtime.Ends.{Ends, Ends-then}
use uvcc.Loop.Lifetime.{ClosesAll}
use uvcc.Handle.Counted.{Inv}
use uvcc.Handle.Lifetime.{ref_ok, handle_unref_law}
use uvcc.Transfer.Balance.{lose-gain}
use uvcc.EventLoop.{walk_cb, walk}

-- Each handle is held, with room for the reference of its visit.
abbrev pub AllHeld : (ℕ → ℕ) → List ℕ → Type 0
AllHeld own [] = Unit {0}
AllHeld own (p ∷ ps) = (0 < own p) × (own p + 1 < long_mod) × AllHeld own ps

-- The callback ends with the counts from before.
abbrev pub Keeping : (others own : ℕ → ℕ) → (ℕ → M (Unit {0})) → Type 0
Keeping others own cb =
    (p : ℕ) (w : World)
    → Inv others w (gain own p)
    → Ends (cb p w) (λ _ w'. Inv others w' (gain own p))

module _ (others own : ℕ → ℕ) (uv : LibUv) (uncaught : Bool) (fuel : ℕ) (shut : ClosesAll uv)
    (cb : ℕ → M (Unit {0})) (user : Keeping others own cb) where
  walk_cb_lem :
      (p : ℕ) (w : World)
      → 0 < own p
      → own p + 1 < long_mod
      → Inv others w own
      → Ends (walk_cb uv uncaught fuel cb p w) (λ _ w'. Inv others w' own)
  unfolding walk_cb
  walk_cb_lem p w held room inv =
      let (i, e, n) = Counted-live w.handles own p inv.1.counted held in
      let (run, inv1) = ref_ok others w own p i inv e room in
      Ends-then _ _ _ _ (tt, _, run, inv1)
        λ _ w1 h1. Ends-then _ _ _ _ (user p w1 h1) λ _ w2 h2.
          let (w3, run3, inv3, same) =
            handle_unref_law others uv uncaught fuel shut w2 (gain own p) p h2 (ground arith)
              (ground arith) in
          (tt, w3, run3, subst (Inv others w3) (lose-gain own p) inv3)

  -- A walk visits every handle of the loop and ends with the counts from before, each handle being
  -- held by a variable while the callback of the user has it. It is given that the handles that libuv
  -- visits are alive throughout, that the callback leaves the counts, and that libuv closes every loop
  -- that is given up.
  walk-keeps :
      (ps : List ℕ) (w : World)
      → AllHeld own ps
      → Inv others w own
      → Ends (walk uv uncaught fuel cb ps w) (λ _ w'. Inv others w' own)
  unfolding walk
  walk-keeps [] w held inv = (tt, w, refl, inv)
  walk-keeps (p ∷ ps) w (here, room, there) inv =
      Ends-then _ _ _ _ (walk_cb_lem p w here room inv) λ _ w1 h1. walk-keeps ps w1 there h1

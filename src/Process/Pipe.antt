-- ===== src/Process/Pipe.antt =====
-- A pipe that is created for a standard stream of a child.
use uvcc.Prelude.{ℕ, ◌<◌, ◌≡◌, ◌⊎◌, Bool, true, some}
use uvcc.Prelude.Int.{ℤ, pos, is_negative}
use uvcc.Runtime.{Instance, HandleBody, World, ◌>>=◌, ◌>>◌, LibUv}
use uvcc.Runtime.Counts.{gain}
use uvcc.Runtime.Ends.{Ends}
use uvcc.Loop.Lifetime.{ClosesAll}
use uvcc.Handle
use uvcc.Handle.Counted.{Inv}
use uvcc.Create.Classes.{Initialisers}
use uvcc.Create.Kinds.{AllInitialise}
use uvcc.Process.{Stdio}
use uvcc.Process.Slots.{Kept, dropped}

module _ (others own : ℕ → ℕ) (uv : LibUv) (uncaught : Bool) (fuel : ℕ) (shut : ClosesAll uv)
    (inits : Initialisers) (process k l p : ℕ) (nz : 0 < l) (does : AllInitialise inits l p)
    (alive : 0 < own process) (new : own p ≡ 0) where
  -- The pipe is the endpoint, or it has failed and is gone.
  -- The status of the process.
  abbrev pub HasStatus : ℤ → World → Type 0
  HasStatus r w = (i : Instance HandleBody) × (w.handles process ≡ some i) × (i.uv_error ≡ r)

  abbrev pub Piped : Stdio → ℤ × Stdio → World → Type 0
  Piped s (ret, s') w' =
      Kept s'
      × (((ret ≡ pos 0)
            × (s'.stdio_uvcc_endpoints k ≡ p)
            × Inv others w' (dropped (gain own p) (s.stdio_uvcc_endpoints k)))
          ⊎ ((is_negative ret ≡ true) × HasStatus ret w' × Inv others w' own))

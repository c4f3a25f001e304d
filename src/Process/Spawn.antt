-- ===== src/Process/Spawn.antt =====
-- src/include/uvcc/handle-misc.hpp, the class process: the start of a child, and its end.
use uvcc.Prelude.{ℕ, ◌<◌, ◌≡◌, refl, Bool, some, arith, ◌∷◌}
use uvcc.Prelude.Int.{ℤ}
use uvcc.Runtime.{World, M, LibUv, pure, ◌>>=◌, call, called, put, uv_spawn, uv_process_kill}
use uvcc.Runtime.Counts.{Counted-live}
use uvcc.Runtime.Ends.{Ends}
use uvcc.Handle.{set_status}
use uvcc.Handle.Counted.{Inv, modify-Inv, trace-Inv}
use uvcc.Watch.{notify}
use uvcc.Process.Options.{Flags, Options, set_command}

module _ (uv : LibUv) where
  -- `spawn(_file, _argv, _flags)`: libuv gets the options that are kept in the process.
  pub spawn : (p file args : ℕ) → Flags → Options → M (ℤ × Options)
  spawn p file args flags o = do
    ret ← call uv (uv_spawn p)
    status ← set_status p ret
    pure (status, set_command file args flags o)

  -- `kill(_signum)`
  pub kill : ℕ → ℤ → M ℤ
  kill p signum = do ret ← call uv (uv_process_kill p signum); set_status p ret

module _ (uv : LibUv) (uncaught : Bool) (fuel : ℕ) where
  -- `exit_cb`, which makes a variable of the process for the callback of the user.
  pub exit_cb : (user : ℕ → M (Unit {0})) → ℕ → M (Unit {0})
  exit_cb user p = notify uv uncaught fuel user p

module _ (uv : LibUv) (others own : ℕ → ℕ) (p : ℕ) (w : World) (inv : Inv others w own)
    (held : 0 < own p) where
  -- The start of a child takes no reference, and its status is that of libuv.
  spawn_lem :
      (file args : ℕ) (flags : Flags) (o : Options)
      → Ends (spawn uv p file args flags o w) (λ (ret, o') w'.
        (ret ≡ uv w.trace (uv_spawn p)) × (o' ≡ set_command file args flags o) × Inv others w' own)
  unfolding spawn set_status
  spawn_lem file args flags o =
      let (i, e, n) = Counted-live w.handles own p inv.1.counted held in
      let ret = uv w.trace (uv_spawn p) in
      let i' = record i { uv_error = ret } in
      let t = called (uv_spawn p) ret ∷ w.trace in
      (
        (ret, set_command file args flags o),
        record w { handles = put w.handles p (some i'); trace = t },
        ground (arith, e),
        (
          refl,
          refl,
          modify-Inv others (record w { trace = t }) own p i i' (trace-Inv others w own t inv) e
              refl refl,
        ),
      )

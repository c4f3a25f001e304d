-- ===== src/Loop.antt =====
-- src/include/uvcc/loop.hpp: the counted instances of loops, and the destructor that closes a loop.
pub mod Lifetime
pub mod Closing
pub mod Draining
mod Tests
use uvcc.Prelude.{ℕ, zero, suc, Bool, true, false, Option, none, some, ◌∷◌, ◌==◌, if◌then◌else◌}
use uvcc.Prelude.Int.{ℤ, pos, negsuc, is_zero}
use uvcc.Runtime.{
  Instance, LoopBody, World, Run, ok, throws, out_of_fuel, M, LibUv, pure, ◌>>=◌, ◌>>◌, when, call,
  emit, put, inc_ref, dec_ref, lift, found, uv_loop_close, uv_walk_open_handles, uv_run_once,
  on_loop_destroy, deleted_loop,
}

abbrev pub load : ℕ → M (Instance LoopBody)
load l w = found (w.loops l) λ i. ok i w

unfoldable pub ref : ℕ → M (Unit {0})
ref l w = lift (inc_ref w.loops l) λ h. ok tt (record w { loops = h })

dec : ℕ → M ℕ
dec l w = lift (dec_ref w.loops l) λ (n, h). ok n (record w { loops = h })

-- The storage of the instance given back.
abbrev free : ℕ → M (Unit {0})
free l w = ok tt (record w { loops = put w.loops l none; trace = deleted_loop l ∷ w.trace })

-- `uncaught` is `std::uncaught_exception()`, `fuel` a bound on the rounds of the loop in the
-- destructor.
module _ (uv : LibUv) (uncaught : Bool) (fuel : ℕ) where
  -- `do { uv_error = ::uv_run(&uv_loop_struct, UV_RUN_NOWAIT); } while (uv_error);`
  pub run_pending : ℕ → ℕ → M (Unit {0})
  run_pending zero l = λ _. out_of_fuel
  run_pending (suc n) l = do
    uv_error ← call uv (uv_run_once l)
    elim (is_zero uv_error) [ true ↦ pure tt | false ↦ run_pending n l ]

  -- The end of the destructor, behind the count of the handles that are not closing.
  dispose : ℕ → Bool → M (Unit {0})
  unfolding run_pending
  dispose l true = if uncaught then pure tt else (λ _. throws)
  dispose l false = do
    run_pending fuel l
    uv_error ← call uv (uv_loop_close l)
    if is_zero uv_error then pure tt else (λ _. throws)

  -- `~instance()`. The answer to `uv_walk_open_handles` is what the callback of `uv_walk` has counted.
  pub destruct_instance : ℕ → M (Unit {0})
  unfolding dispose
  destruct_instance l = do
    uv_error ← call uv (uv_loop_close l)
    if is_zero uv_error then pure tt else (do
      num_open_handles ← call uv (uv_walk_open_handles l)
      dispose l (if is_zero num_open_handles then false else true))

  destroy : ℕ → M (Unit {0})
  unfolding destruct_instance
  destroy l = do
    i ← load l
    when i.has_destroy_cb (emit (on_loop_destroy l))
    destruct_instance l
    free l

  pub unref : ℕ → M (Unit {0})
  unfolding dec
  unref l = do n ← dec l; when (n == 0) (destroy l)

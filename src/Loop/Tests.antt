-- ===== src/Loop/Tests.antt =====
-- Tests of the loops' lifetimes.
use uvcc.Prelude.{◌≡◌, refl, [], ◌∷◌, arith, false, none}
use uvcc.Prelude.Int.{pos, negsuc}
use uvcc.Runtime.{
  World, ok, Instance, LoopBody, LibUv, uv_loop_close, uv_walk_open_handles, uv_run_once, called,
  deleted_loop,
}
use uvcc.Runtime.Fixtures.{one, owning, empty, a_loop}
use uvcc.Runtime.Counts.{SameRest, lose}
use uvcc.Loop.{unref}
use uvcc.Loop.Draining.{unref_last-drained}
use uvcc.Loop.Lifetime.{Inv}

-- A loop without a callback for its destruction.
abbrev quiet : Instance LoopBody
quiet = record (a_loop 1) { has_destroy_cb = false }

abbrev opened : World
opened = record empty { loops = one quiet }

opened-Inv : Inv opened (owning 1)
opened-Inv p = ground arith

-- libuv that refuses to close a loop at first, when only closing handles are left, and closes it
-- after one more run.
abbrev busy_once : LibUv
busy_once [] (uv_loop_close l) = negsuc 15
busy_once (e ∷ t) c = pos 0
busy_once [] c = pos 0

unref_last-drained_example :
    (w' : World) × (unref busy_once false 1 1 opened ≡ ok tt w')
    × Inv w' (lose (owning 1) 1)
    × (w'.loops 1 ≡ none)
    × (w'.trace
        ≡ deleted_loop 1
          ∷ called (uv_loop_close 1) (pos 0)
          ∷ called (uv_run_once 1) (pos 0)
          ∷ called (uv_walk_open_handles 1) (pos 0)
          ∷ called (uv_loop_close 1) (negsuc 15)
          ∷ [])
    × (w'.handles ≡ opened.handles)
    × SameRest opened w'
unref_last-drained_example =
    unref_last-drained busy_once false 1 0 1 opened (owning 1) quiet opened-Inv refl refl refl refl
      refl (omega arith) refl

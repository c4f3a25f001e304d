-- ===== src/Process/Tests.antt =====
-- Tests of the standard streams of a child.
use uvcc.Prelude.{◌≡◌, refl, false, List, [], ◌∷◌, arith}
use uvcc.Prelude.Int.{pos}
use uvcc.Runtime.Ends.{Ends}
use uvcc.Runtime.Fixtures.{owning, agreeable}
use uvcc.Handle.Counted.{Inv}
use uvcc.Transfer.Fixtures.{nobody, ready, ready-Counts}
use uvcc.Process.{fresh_stdio, inherit_stdio}
use uvcc.Process.Options.{
  working_dir, user, group, Setting, fresh_options, no_id, set_options, summary,
  set_options-summary,
}
use uvcc.Process.Slots.{Kept, dropped, fresh-Kept, inherit_stdio-Kept}

inherit_stdio-Kept_example :
    Ends
      (inherit_stdio agreeable false 0 2 1 (pos 0) fresh_stdio ready)
      (λ s' w'. Kept s' × (s'.stdio_uvcc_endpoints 2 ≡ 1) × Inv nobody w' (dropped (owning 1) 0))
inherit_stdio-Kept_example =
    inherit_stdio-Kept nobody agreeable false 0 (λ t l. refl) (owning 1) 2 1 (pos 0) fresh_stdio
      ready fresh-Kept (omega arith) (ready-Counts.0) refl (omega arith) (λ e. ground (arith, e))

-- A user that is set and taken back, with a directory between.
abbrev settings : List Setting
settings = user 5 ∷ working_dir 3 ∷ user no_id ∷ group 7 ∷ []

set_options-summary_example : set_options settings fresh_options ≡ summary settings fresh_options
set_options-summary_example = set_options-summary settings fresh_options

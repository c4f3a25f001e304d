-- ===== src/Utility/Spinlock/Tests.antt =====
-- Tests of the spin lock.
use uvcc.Prelude.{ℕ, ◌≡◌, refl, List, [], ◌∷◌, true}
use uvcc.Utility.Spinlock.{Move, enter, test_and_set, clear, holding, run, init}
use uvcc.Utility.Spinlock.Exclusion.{run-exclusive}

abbrev contended : List Move
contended = enter 1 ∷ enter 2 ∷ test_and_set 1 ∷ test_and_set 2 ∷ clear 1 ∷ test_and_set 2 ∷ []

abbrev other : ℕ
other = 2

run-exclusive_example :
    ((run init contended).flag ≡ true) × ((run init contended).threads 3 ≡ holding → other ≡ 3)
unfolding run init
run-exclusive_example = run-exclusive contended other 3 refl

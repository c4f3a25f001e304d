-- ===== src/Utility/RefCount/Tests.antt =====
-- Tests of the reference count.
use uvcc.Prelude.{◌≢◌, ◌≡◌, refl, ◌++◌, List, [], ◌∷◌, arith, ◌==◌, if◌then◌else◌, false, true}
use uvcc.Utility.RefCount.{Counter, idle, comparing, Access, load, compare_exchange, fetch_sub, run}
use uvcc.Utility.RefCount.Progress.{run-progresses}
use uvcc.Utility.RefCount.Linear.{Accepts, releases, run-Accepts, run-releases}

abbrev shared : Counter
shared = record { count = 1; threads = λ _. idle }

-- The threads 1 and 2 take a reference each, in turns, and all three let go.
abbrev schedule : List Access
schedule =
    load 1
    ∷ load 2
    ∷ compare_exchange 1 true
    ∷ compare_exchange 1 false
    ∷ compare_exchange 2 false
    ∷ compare_exchange 2 false
    ∷ fetch_sub 3
    ∷ fetch_sub 4
    ∷ fetch_sub 5
    ∷ []

run-Accepts_example : Accepts 1 (run shared schedule).1 (run shared schedule).0.count
run-Accepts_example = run-Accepts shared schedule

run-releases_example :
    releases (run shared schedule).1 ≡ (if (run shared schedule).0.count == 0 then 1 else 0)
unfolding run
run-releases_example = run-releases shared schedule (omega arith) (omega arith) (ground arith)

-- The thread 1 has read the count; the thread 2 takes a reference before the thread 1 exchanges.
abbrev begun : Counter
begun = record { count = 1; threads = λ j. if j == 1 then comparing 1 else idle }

abbrev overtaking : List Access
overtaking = load 2 ∷ compare_exchange 2 true ∷ compare_exchange 2 false ∷ []

run-progresses_example : (run begun (overtaking ++ (compare_exchange 1 false ∷ []))).1 ≢ []
run-progresses_example =
    run-progresses begun 1 overtaking (omega arith) (refl, λ e. omega (arith, e))

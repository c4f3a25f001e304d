-- ===== src/Utility/TypeLists/Tests.antt =====
-- Tests of the type list templates.
use uvcc.Prelude.{◌≤◌, ◌≡◌, [], ◌∷◌, ℕ_discrete}
use uvcc.Utility.TypeLists.{is_one_of, is_convertible_to_one_of, greatest, sum}
use uvcc.Utility.TypeLists.Extremes.{sum_bounds}
use uvcc.Utility.TypeLists.Index.{is_same, is_one_of-is_convertible_to_one_of}

is_one_of-is_convertible_to_one_of_example :
    is_one_of ℕ_discrete 8 (1 ∷ 8 ∷ [])
    ≡ is_convertible_to_one_of (is_same ℕ_discrete) 8 (1 ∷ 8 ∷ [])
is_one_of-is_convertible_to_one_of_example =
    is_one_of-is_convertible_to_one_of ℕ_discrete 8 (1 ∷ 8 ∷ [])

sum_bounds_example : greatest 3 (7 ∷ 5 ∷ []) ≤ sum 3 (7 ∷ 5 ∷ [])
sum_bounds_example = sum_bounds 3 (7 ∷ 5 ∷ [])

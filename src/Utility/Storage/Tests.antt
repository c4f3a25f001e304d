-- ===== src/Utility/Storage/Tests.antt =====
-- Tests of the storages.
use uvcc.Prelude.{ℕ, ◌≡◌, List, [], ◌∷◌, none, some, leb, arith, false, true, ℕ_discrete}
use uvcc.Utility.TypeLists.{is_convertible_to_one_of, type_at}
use uvcc.Utility.TypeLists.Index.{FirstMatch}
use uvcc.Utility.Storage.{
  Storage, Operation, resets, assigns, empty, get, tag, lifetime, union_reset,
}
use uvcc.Utility.Storage.Lifetime.{Balanced, IsValid, lifetime-Balanced, empty-IsValid}
use uvcc.Utility.Storage.Union.{union_reset-get}

abbrev calls : List (Operation ℕ ℕ)
calls =
    resets 4 (some 10) ∷ assigns 8 false (some 20) ∷ resets 4 none ∷ assigns 8 true (some 1) ∷ []

lifetime-Balanced_example :
    (s : Storage ℕ ℕ) × (lifetime ℕ_discrete calls ≡ some s)
    × Balanced s.log none
    × (s.content ≡ none)
lifetime-Balanced_example = lifetime-Balanced ℕ_discrete calls

union_reset-get_example :
    (u : ℕ) × (s' : Storage ℕ ℕ) × FirstMatch
      (leb 4)
      (1 ∷ 8 ∷ [])
      (is_convertible_to_one_of leb 4 (1 ∷ 8 ∷ []))
    × (type_at (is_convertible_to_one_of leb 4 (1 ∷ 8 ∷ [])) (1 ∷ 8 ∷ []) ≡ some u)
    × (leb 4 u ≡ true)
    × (union_reset ℕ_discrete leb (1 ∷ 8 ∷ []) empty 4 false (some 10) ≡ some s')
    × (get ℕ_discrete s' u ≡ some 10)
    × (tag ℕ_discrete s' ≡ some u)
    × IsValid s'
unfolding is_convertible_to_one_of
union_reset-get_example =
    union_reset-get ℕ_discrete leb (1 ∷ 8 ∷ []) empty 4 10 empty-IsValid (λ e. omega (arith, e))

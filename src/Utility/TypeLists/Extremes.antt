-- ===== src/Utility/TypeLists/Extremes.antt =====
-- `greatest`, `lowest` and `sum` of a parameter pack.
use uvcc.Prelude.{
  ℕ, ◌≤◌, ◌≡◌, ◌⊎◌, inl, inr, refl, List, [], ◌∷◌, arith, All, ltb, Bool, true, false,
  if◌then◌else◌,
}
use uvcc.Utility.TypeLists.{greatest, lowest, sum}

-- One of the elements.
abbrev pub OneOf : ℕ → List ℕ → Type 0
OneOf x [] = ⊥
OneOf x (v ∷ vs) = (x ≡ v) ⊎ OneOf x vs

All-le_trans : {a b : ℕ} (xs : List ℕ) → a ≤ b → All (λ x. x ≤ a) xs → All (λ x. x ≤ b) xs
All-le_trans [] h all = tt
All-le_trans (x ∷ xs) h all = (omega arith, All-le_trans xs h all.1)

All-ge_trans : {a b : ℕ} (xs : List ℕ) → b ≤ a → All (λ x. a ≤ x) xs → All (λ x. b ≤ x) xs
All-ge_trans [] h all = tt
All-ge_trans (x ∷ xs) h all = (omega arith, All-ge_trans xs h all.1)

abbrev IsGreatest : ℕ → List ℕ → Type 0
IsGreatest g vs = OneOf g vs × All (λ x. x ≤ g) vs

abbrev IsLowest : ℕ → List ℕ → Type 0
IsLowest g vs = OneOf g vs × All (λ x. g ≤ x) vs

IsGreatest-cons :
    (v g : ℕ) (ws : List ℕ) (b : Bool)
    → ltb v g ≡ b
    → IsGreatest g ws
    → IsGreatest (if b then g else v) (v ∷ ws)
IsGreatest-cons v g ws true below (one, all) = (inr one, (ground arith, all))
IsGreatest-cons v g ws false above (one, all) =
    (inl refl, (ground arith, All-le_trans ws (ground arith) all))

IsLowest-cons :
    (v g : ℕ) (ws : List ℕ) (b : Bool)
    → ltb g v ≡ b
    → IsLowest g ws
    → IsLowest (if b then g else v) (v ∷ ws)
IsLowest-cons v g ws true below (one, all) = (inr one, (ground arith, all))
IsLowest-cons v g ws false above (one, all) =
    (inl refl, (ground arith, All-ge_trans ws (ground arith) all))

-- `greatest` is one of its arguments, and no argument exceeds it.
pub greatest_bounds :
    (v : ℕ) (ws : List ℕ) → OneOf (greatest v ws) (v ∷ ws) × All (λ x. x ≤ greatest v ws) (v ∷ ws)
unfolding greatest
greatest_bounds v [] = ground arith
greatest_bounds v (w ∷ ws) =
    IsGreatest-cons v (greatest w ws) (w ∷ ws) _ refl (greatest_bounds w ws)

-- `lowest` is one of its arguments, and none is below it.
pub lowest_bounds :
    (v : ℕ) (ws : List ℕ) → OneOf (lowest v ws) (v ∷ ws) × All (λ x. lowest v ws ≤ x) (v ∷ ws)
unfolding lowest
lowest_bounds v [] = ground arith
lowest_bounds v (w ∷ ws) = IsLowest-cons v (lowest w ws) (w ∷ ws) _ refl (lowest_bounds w ws)

-- The sum of the arguments is not below the greatest of them.
pub sum_bounds : (v : ℕ) (ws : List ℕ) → greatest v ws ≤ sum v ws
unfolding greatest sum
sum_bounds v [] = omega arith
sum_bounds v (w ∷ ws) = ground (arith, sum_bounds w ws)

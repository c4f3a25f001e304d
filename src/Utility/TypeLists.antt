-- ===== src/Utility/TypeLists.antt =====
-- src/include/uvcc/utility.hpp, the templates over type lists and parameter packs. A type list is a
-- list of type codes, an index is the `value` of the template, 0 where it finds nothing.
pub mod Index
pub mod Extremes
mod Tests
use uvcc.Prelude.{
  ℕ, zero, suc, ◌+◌, Bool, List, [], ◌∷◌, Option, none, some, ite, ltb, ◌==◌, if◌then◌else◌,
}

module _ {ℓ} {T : Type ℓ} where
  -- The specialisation on `_T_, _T_, _Ts_...` is chosen where the two types are the same.
  pub is_one_of : Discrete T → T → List T → ℕ
  is_one_of same t [] = 0
  is_one_of same t (u ∷ us) =
      let value_ = is_one_of same t us in ite (same t u) 1 (if value_ == 0 then 0 else value_ + 1)

  -- `converts t u` is `std::is_convertible< t, u >`.
  unfoldable pub is_convertible_to_one_of : (T → T → Bool) → T → List T → ℕ
  is_convertible_to_one_of converts t [] = 0
  is_convertible_to_one_of converts t (u ∷ us) =
      let value_ = is_convertible_to_one_of converts t us in
      if converts t u then 1 else if value_ == 0 then 0 else value_ + 1

  -- `none` is the template with no member `type`.
  unfoldable pub type_at : ℕ → List T → Option T
  type_at zero us = none
  type_at (suc i) [] = none
  type_at (suc zero) (u ∷ us) = some u
  type_at (suc (suc i)) (u ∷ us) = type_at (suc i) us

pub greatest : ℕ → List ℕ → ℕ
greatest v [] = v
greatest v (w ∷ ws) = let rest = greatest w ws in if ltb v rest then rest else v

pub lowest : ℕ → List ℕ → ℕ
lowest v [] = v
lowest v (w ∷ ws) = let rest = lowest w ws in if ltb rest v then rest else v

pub sum : ℕ → List ℕ → ℕ
sum v [] = v
sum v (w ∷ ws) = v + sum w ws

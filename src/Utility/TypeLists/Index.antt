-- ===== src/Utility/TypeLists/Index.antt =====
-- What the index templates of utility.hpp find.
use uvcc.Prelude.{
  ℕ, zero, suc, ◌+◌, ◌≡◌, refl, subst, inl, inr, Bool, true, false, List, [], ◌∷◌, some, arith, All,
  ◌==◌, if◌then◌else◌, Bool-cases,
}
use uvcc.Utility.TypeLists.{is_one_of, is_convertible_to_one_of, type_at}

-- A type passes at the 1-based place `n` and none before it does; at 0 no type passes.
abbrev pub FirstMatch {ℓ} : {T : Type ℓ} → (T → Bool) → List T → ℕ → Type 0
FirstMatch test us zero = All (λ u. test u ≡ false) us
FirstMatch test [] (suc n) = ⊥
FirstMatch test (u ∷ us) (suc zero) = test u ≡ true
FirstMatch test (u ∷ us) (suc (suc n)) = (test u ≡ false) × FirstMatch test us (suc n)

module _ {ℓ} {T : Type ℓ} where
  FirstMatch-skip :
      (test : T → Bool) (u : T) (us : List T) (n : ℕ)
      → test u ≡ false
      → FirstMatch test us n
      → FirstMatch test (u ∷ us) (if n == 0 then 0 else n + 1)
  FirstMatch-skip test u us zero miss m = (miss, m)
  FirstMatch-skip test u us (suc n) miss m =
      let e : suc (suc n) ≡ (if suc n == 0 then 0 else suc n + 1) = ground arith in
      subst (FirstMatch test (u ∷ us)) e (miss, m)

  -- The index of a conversion target is that of the first type in the list to convert to.
  pub is_convertible_to_one_of-FirstMatch :
      (converts : T → T → Bool) (t : T) (us : List T)
      → FirstMatch (converts t) us (is_convertible_to_one_of converts t us)
  unfolding is_convertible_to_one_of
  is_convertible_to_one_of-FirstMatch converts t [] = tt
  is_convertible_to_one_of-FirstMatch converts t (u ∷ us) = elim (Bool-cases (converts t u)) [
    | inl hit ↦ rw hit hit
    | inr miss ↦ rw miss (
        FirstMatch-skip (converts t) u us (is_convertible_to_one_of converts t us) miss
          (is_convertible_to_one_of-FirstMatch converts t us))
  ]

  -- A place found by a test holds a type, and that type passes the test.
  pub type_at-FirstMatch :
      (test : T → Bool) (us : List T) (n : ℕ)
      → FirstMatch test us (suc n)
      → (u : T) × (type_at (suc n) us ≡ some u) × (test u ≡ true)
  unfolding type_at
  type_at-FirstMatch test [] n m = absurd m
  type_at-FirstMatch test (u ∷ us) zero m = (u, refl, m)
  type_at-FirstMatch test (u ∷ us) (suc n) m = type_at-FirstMatch test us n m.1

  module _ (same : Discrete T) where
    -- The test of identity that picks the specialisation.
    abbrev pub is_same : T → T → Bool
    is_same t u = elim (same t u) [ yes _ ↦ true | no _ ↦ false ]

    pub is_one_of-is_convertible_to_one_of :
        (t : T) (us : List T) → is_one_of same t us ≡ is_convertible_to_one_of is_same t us
    unfolding is_one_of is_convertible_to_one_of
    is_one_of-is_convertible_to_one_of t [] = refl
    is_one_of-is_convertible_to_one_of t (u ∷ us) =
        ground (arith, is_one_of-is_convertible_to_one_of t us)

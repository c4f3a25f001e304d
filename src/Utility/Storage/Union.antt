-- ===== src/Utility/Storage/Union.antt =====
-- `union_storage`: which variant it stores.
use uvcc.Prelude.{ℕ, zero, suc, ◌≡◌, refl, subst, Bool, true, false, List, some, ◌≢◌}
use uvcc.Utility.TypeLists.{type_at, is_convertible_to_one_of}
use uvcc.Utility.TypeLists.Index.{
  FirstMatch, type_at-FirstMatch, is_convertible_to_one_of-FirstMatch,
}
use uvcc.Utility.Storage.{Storage, get, tag, variant, union_reset, reset_value}
use uvcc.Utility.Storage.Lifetime.{IsValid, reset-get}

variant-converts :
    {T : Type 0} (converts : T → T → Bool) (ts : List T) (t : T) (n : ℕ)
    → is_convertible_to_one_of converts t ts ≡ n
    → n ≢ 0
    → (u : T) × (type_at n ts ≡ some u) × (converts t u ≡ true)
variant-converts converts ts t zero e h = absurd (h refl)
variant-converts converts ts t (suc n) e h =
    type_at-FirstMatch (converts t) ts n
      (subst (FirstMatch (converts t) ts) e (is_convertible_to_one_of-FirstMatch converts t ts))

module _ {T V : Type 0} (same : Discrete T) (converts : T → T → Bool) (ts : List T) where
  -- A union that a value of a type convertible to one of its variants is stored in holds that value
  -- as the first such variant, the type being convertible to none before it, under the variant's tag.
  pub union_reset-get :
      (s : Storage T V) (t : T) (v : V)
      → IsValid s
      → is_convertible_to_one_of converts t ts ≢ 0
      → (u : T) × (s' : Storage T V) × FirstMatch
          (converts t)
          ts
          (is_convertible_to_one_of converts t ts)
        × (type_at (is_convertible_to_one_of converts t ts) ts ≡ some u)
        × (converts t u ≡ true)
        × (union_reset same converts ts s t false (some v) ≡ some s')
        × (get same s' u ≡ some v)
        × (tag same s' ≡ some u)
        × IsValid s'
  unfolding union_reset variant reset_value
  union_reset-get s t v h found =
      let (u, e, c) = variant-converts converts ts t _ refl found in
      let (s', r, g, k, h') = reset-get same s u v h in
      (
        u,
        s',
        is_convertible_to_one_of-FirstMatch converts t ts,
        e,
        c,
        rw (e, union_reset) r,
        g,
        k,
        h',
      )

-- ===== src/Utility/Storage/Lifetime.antt =====
-- Every object that a storage holds is destroyed once, as an object of its own type.
use uvcc.Prelude.{◌≡◌, refl, ap, ◌∙◌, true, false, List, [], ◌∷◌, Option, none, some, arith}
use uvcc.Utility.Storage.{
  Object, Event, built, destroyed, Storage, empty, emplace, call_destructor, run_destructor, forget,
  Operation, resets, assigns, perform, perform_all, lifetime, destroy, emplace_in, reset,
  reset_value, read_as, get, tag,
}

module _ {T V : Type 0} where
  -- The log, newest first, builds and destroys in turn, and ends with the object `c` alive.
  abbrev pub Balanced : List (Event T V) → Option (Object T V) → Type 0
  Balanced [] c = c ≡ none
  Balanced (built o ∷ log) c = (c ≡ some o) × Balanced log none
  Balanced (destroyed o ∷ log) c = (c ≡ none) × Balanced log (some o)

  -- The tag and the destructor are those of the object in the storage.
  abbrev pub Tagged : Option (Object T V) → Option T → Option T → Type 0
  Tagged none tag destructor = (tag ≡ none) × (destructor ≡ none)
  Tagged (some o) tag destructor = (tag ≡ some o.type) × (destructor ≡ some o.type)

  pub record IsValid (s : Storage T V) : Type 0 where
    pub tagged : Tagged s.content s.type_tag s.destructor
    pub balanced : Balanced s.log s.content

  pub empty-IsValid : IsValid empty
  unfolding empty
  empty-IsValid = record { tagged = (refl, refl); balanced = refl }

  emplace-IsValid :
      (s : Storage T V) (t : T) (v : Option V)
      → s.content ≡ none
      → IsValid s
      → IsValid (emplace s t v)
  unfolding emplace
  emplace-IsValid s t none e h = h
  emplace-IsValid s t (some v) e h = record {
    tagged = (refl, refl);
    balanced = (refl, rw e at h.balanced);
  }

  module _ (same : Discrete T) where
    -- What the destructor call leaves: nothing, with a valid log.
    abbrev Emptied : Option (Storage T V) → Type 0
    Emptied none = ⊥
    Emptied (some s) =
        (s.content ≡ none) × (s.type_tag ≡ none) × (s.destructor ≡ none) × Balanced s.log none

    destroy-Emptied : (s : Storage T V) → IsValid s → Emptied (destroy same s)
    unfolding destroy run_destructor forget call_destructor
    destroy-Emptied s h = ground (arith, h.tagged, h.balanced)

    Emptied-some :
        (r : Option (Storage T V)) → Emptied r → (s : Storage T V) × (r ≡ some s) × Emptied (some s)
    Emptied-some none h = absurd h
    Emptied-some (some s) h = (s, refl, h)

    Valid-emplace_in :
        (r : Option (Storage T V)) (t : T) (v : Option V)
        → Emptied r
        → (s : Storage T V) × (emplace_in same r t v ≡ some s) × IsValid s
    unfolding emplace_in
    Valid-emplace_in none t v h = absurd h
    Valid-emplace_in (some s) t v h =
        (emplace s t v, refl, emplace-IsValid s t v h.0 (ground arith))

    perform-IsValid :
        (s : Storage T V) (op : Operation T V)
        → IsValid s
        → (s' : Storage T V) × (perform same s op ≡ some s') × IsValid s'
    unfolding perform reset reset_value
    perform-IsValid s (resets t v) h = Valid-emplace_in (destroy same s) t v (destroy-Emptied s h)
    perform-IsValid s (assigns t true v) h = (s, refl, h)
    perform-IsValid s (assigns t false v) h =
        Valid-emplace_in (destroy same s) t v (destroy-Emptied s h)

    perform_all-IsValid :
        (ops : List (Operation T V)) (s : Storage T V)
        → IsValid s
        → (s' : Storage T V) × (perform_all same (some s) ops ≡ some s') × IsValid s'
    unfolding perform_all
    perform_all-IsValid [] s h = (s, refl, h)
    perform_all-IsValid (op ∷ ops) s h =
        let (s', e, h') = perform-IsValid s op h in
        let (s'', e', h'') = perform_all-IsValid ops s' h' in
        (s'', ap (λ r. perform_all same r ops) e ∙ e', h'')

    -- Whatever is stored in a storage, with constructors that throw among it, no object is destroyed
    -- as another type or twice, and at the end of the storage's life none is left alive.
    pub lifetime-Balanced :
        (ops : List (Operation T V))
        → (s : Storage T V) × (lifetime same ops ≡ some s)
          × Balanced s.log none
          × (s.content ≡ none)
    unfolding lifetime
    lifetime-Balanced ops =
        let (s, e, h) = perform_all-IsValid ops empty empty-IsValid in
        let (s', e', h') = Emptied-some (destroy same s) (destroy-Emptied s h) in
        rw (e, lifetime) (s', e', h'.3, h'.0)

    read_as_self : (t : T) (v : V) → read_as same t (some (record { type = t; value = v })) ≡ some v
    unfolding read_as
    read_as_self t v = ground arith

    -- After `reset` the storage holds the new object and no other, under its tag.
    pub reset-get :
        (s : Storage T V) (t : T) (v : V)
        → IsValid s
        → (s' : Storage T V) × (reset same s t (some v) ≡ some s')
          × (get same s' t ≡ some v)
          × (tag same s' ≡ some t)
          × IsValid s'
    unfolding reset get tag emplace emplace_in
    reset-get s t v h =
        let (s', e, c) = Emptied-some (destroy same s) (destroy-Emptied s h) in
        (
          emplace s' t (some v),
          ap (λ r. emplace_in same r t (some v)) e,
          read_as_self t v,
          refl,
          emplace-IsValid s' t (some v) c.0 (ground arith),
        )

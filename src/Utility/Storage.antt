-- ===== src/Utility/Storage.antt =====
-- src/include/uvcc/utility.hpp, `aligned_storage`, `type_storage` and `union_storage`. A value in the
-- storage is a type code with a value; the sizes that the static assertions compare are left out.
-- A run carries the log of the objects built and destroyed, newest first. `none` stands for
-- undefined behaviour: an object destroyed or read as another type, or where there is none.
pub mod Lifetime
pub mod Union
mod Tests
use uvcc.Prelude.{ℕ, Bool, List, [], ◌∷◌, Option, none, some, if◌then◌else◌}
use uvcc.Utility.TypeLists.{type_at, is_convertible_to_one_of}

pub record Object (T V : Type 0) : Type 0 where
  pub type : T
  pub value : V

pub data Event (T V : Type 0) : Type 0 where
  built : Object T V → Event T V
  destroyed : Object T V → Event T V

-- `destructor` is the field `Destroy`: the type that `default_destroy` is instantiated at.
pub record Storage (T V : Type 0) : Type 0 where
  pub type_tag : Option T
  pub destructor : Option T
  pub content : Option (Object T V)
  pub log : List (Event T V)

module _ {T V : Type 0} where
  -- The default constructor: an uninitialised storage, before which nothing was built.
  pub empty : Storage T V
  empty = record { type_tag = none; destructor = none; content = none; log = [] }

  -- `new(&storage) type{ ... }` and the two assignments behind it. The constructor's outcome is an
  -- argument; where it throws (`none`), the assignments are not reached.
  pub emplace : Storage T V → T → Option V → Storage T V
  emplace s t none = s
  emplace s t (some v) = record {
    type_tag = some t;
    destructor = some t;
    content = some (record { type = t; value = v });
    log = built (record { type = t; value = v }) ∷ s.log;
  }

-- The type that a union stores for an argument of type `t`.
pub variant : {T : Type 0} → (T → T → Bool) → List T → T → Option T
variant converts ts t = type_at (is_convertible_to_one_of converts t ts) ts

module _ {T V : Type 0} (same : Discrete T) where
  -- The call `Destroy(&storage)` of the destructor for the type `t`.
  call_destructor : Storage T V → T → Option (Object T V) → Option (Storage T V)
  call_destructor s t none = none
  call_destructor s t (some o) = elim (same t o.type) [
    | yes _ ↦ some (record s { content = none; log = destroyed o ∷ s.log })
    | no _ ↦ none
  ]

  run_destructor : Storage T V → Option T → Option (Storage T V)
  unfolding call_destructor
  run_destructor s none = some s
  run_destructor s (some t) = call_destructor s t s.content

  forget : Option (Storage T V) → Option (Storage T V)
  forget none = none
  forget (some s) = some (record s { destructor = none; type_tag = none })

  pub destroy : Storage T V → Option (Storage T V)
  unfolding run_destructor forget
  destroy s = forget (run_destructor s s.destructor)

  emplace_in : Option (Storage T V) → T → Option V → Option (Storage T V)
  emplace_in none t v = none
  emplace_in (some s) t v = some (emplace s t v)

  -- `reset< t >(args...)`, with no argument too: what the constructor makes of them is `v`.
  pub reset : Storage T V → T → Option V → Option (Storage T V)
  unfolding destroy emplace_in emplace
  reset s t v = emplace_in (destroy s) t v

  -- `reset(value)`: `itself` says that the argument is the object in the storage.
  pub reset_value : Storage T V → T → (itself : Bool) → Option V → Option (Storage T V)
  unfolding reset
  reset_value s t itself v = if itself then some s else reset s t v

  read_as : T → Option (Object T V) → Option V
  read_as t none = none
  read_as t (some o) = elim (same t o.type) [ yes _ ↦ some o.value | no _ ↦ none ]

  pub get : Storage T V → T → Option V
  unfolding read_as
  get s t = read_as t s.content

  pub tag : Storage T V → Option T
  tag s = s.type_tag

  -- `none` as well where the overload is not there, since `t` converts to no variant.
  pub union_reset :
      (T → T → Bool) → List T → Storage T V → T → (itself : Bool) → Option V → Option (Storage T V)
  unfolding variant reset_value
  union_reset converts ts s t itself v = elim (variant converts ts t) [
    | none ↦ none
    | some u ↦ reset_value s u itself v
  ]

-- A call on a storage by its owner.
pub data Operation (T V : Type 0) : Type 0 where
  resets : T → Option V → Operation T V
  assigns : T → (itself : Bool) → Option V → Operation T V

module _ {T V : Type 0} (same : Discrete T) where
  pub perform : Storage T V → Operation T V → Option (Storage T V)
  unfolding reset reset_value
  perform s (resets t v) = reset same s t v
  perform s (assigns t itself v) = reset_value same s t itself v

  perform_all : Option (Storage T V) → List (Operation T V) → Option (Storage T V)
  unfolding perform
  perform_all none ops = none
  perform_all (some s) [] = some s
  perform_all (some s) (op ∷ ops) = perform_all (perform s op) ops

  -- The destructor of a storage that was built empty, after the operations.
  pub lifetime : List (Operation T V) → Option (Storage T V)
  unfolding perform_all empty destroy
  lifetime ops = elim (perform_all (some empty) ops) [ none ↦ none | some s ↦ destroy same s ]

-- `type_storage`: an object of one fixed type, built by the constructor, destroyed by the destructor.
module _ {T V : Type 0} (same : Discrete T) (t : T) where
  pub type_storage : V → Storage T V
  unfolding empty emplace
  type_storage v = emplace empty t (some v)

  pub value : Storage T V → Option V
  unfolding get
  value s = get same s t

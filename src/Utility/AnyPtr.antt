-- ===== src/Utility/AnyPtr.antt =====
-- src/include/uvcc/utility.hpp, `any_ptr`. An address is a number, 0 is the null pointer. The memory
-- gives the type of the object allocated at an address, and `none` where there is none.
pub mod Ownership
mod Tests
use uvcc.Prelude.{ℕ, Bool, not, List, Option, none, some, ◌==◌, if◌then◌else◌}

pub record AnyPtr (T : Type 0) : Type 0 where
  pub type_tag : Option T
  pub deleter : Option T
  pub ptr : ℕ

abbrev pub Memory : Type 0 → Type 0
Memory T = ℕ → Option T

module _ {T : Type 0} where
  abbrev pub write : Memory T → ℕ → Option T → Memory T
  write m p t q = if q == p then t else m q

  -- `any_ptr()` and `any_ptr(nullptr)`.
  pub null : AnyPtr T
  null = record { type_tag = none; deleter = none; ptr = 0 }

  -- `any_ptr(_T_* &&_ptr)`.
  pub adopt : T → ℕ → AnyPtr T
  adopt t p = record { type_tag = some t; deleter = some t; ptr = p }

  -- The variable after `release()`, which returns its `ptr`.
  pub release : AnyPtr T → ℕ × AnyPtr T
  release p = (p.ptr, record { type_tag = none; deleter = none; ptr = 0 })

  -- `any_ptr(any_ptr &&_that)`: the new variable and what `_that` is left as.
  pub move : AnyPtr T → AnyPtr T × AnyPtr T
  unfolding release
  move that = (
    record { type_tag = that.type_tag; deleter = that.deleter; ptr = that.ptr },
    (release that).1,
  )

  pub get : AnyPtr T → ℕ
  get p = p.ptr

  -- The conversion to `bool`.
  pub is_set : AnyPtr T → Bool
  is_set p = not (p.ptr == 0)

module _ {T : Type 0} (same : Discrete T) where
  -- The expression `delete static_cast< t* >(p)`: nothing for a null pointer, undefined (`none`) for
  -- an address with no object, or with an object of another type.
  delete_object : Memory T → T → ℕ → Option T → Option (Memory T)
  delete_object m t p none = none
  delete_object m t p (some u) = elim (same t u) [ yes _ ↦ some (write m p none) | no _ ↦ none ]

  call_deleter : Memory T → ℕ → Option T → Option (Memory T)
  unfolding delete_object
  call_deleter m p none = some m
  call_deleter m p (some t) = if p == 0 then some m else delete_object m t p (m p)

  -- The private `destroy`, which is also the destructor and the assignment of `nullptr`.
  pub destroy : Memory T → AnyPtr T → Option (Memory T × AnyPtr T)
  unfolding call_deleter
  destroy m p = elim (call_deleter m p.ptr p.deleter) [
    | none ↦ none
    | some m' ↦ some (m', record p { deleter = none; type_tag = none })
  ]

  pub reset_null : Memory T → AnyPtr T → Option (Memory T × AnyPtr T)
  unfolding destroy
  reset_null m p = destroy m p

  pub reset : Memory T → AnyPtr T → T → ℕ → Option (Memory T × AnyPtr T)
  unfolding adopt
  reset m p t q =
      if p.ptr == q
      then some (m, p)
      else elim (destroy m p) [ none ↦ none | some (m', _) ↦ some (m', adopt t q) ]

  -- `operator =(any_ptr &&_that)`: the memory, the variable assigned to, and `_that`.
  pub move_assign : Memory T → AnyPtr T → AnyPtr T → Option (Memory T × AnyPtr T × AnyPtr T)
  unfolding move
  move_assign m p that = if p.ptr == that.ptr then some (m, p, that) else elim (destroy m p) [
    | none ↦ none
    | some (m', _) ↦ some (m', (move that).0, (move that).1)
  ]

-- ===== src/Utility/AnyPtr/Ownership.antt =====
-- What an `any_ptr` owns is deleted once; and what it does after `reset(nullptr)`.
use uvcc.Prelude.{
  ℕ, ◌≡◌, refl, ◌≢◌, ◌⊎◌, inl, inr, true, Option, none, some, arith, ◌==◌, not, ◌&&◌, ℕ_discrete,
  if◌then◌else◌,
}
use uvcc.Utility.AnyPtr.{
  AnyPtr, Memory, write, null, adopt, release, move, get, is_set, delete_object, call_deleter,
  destroy, reset_null, reset, move_assign,
}

module _ {T : Type 0} where
  -- The variable owns nothing, or an object of the type of its tag and deleter, or is null.
  abbrev Owning : Memory T → Option T → Option T → ℕ → Type 0
  Owning m none tag p = tag ≡ none
  Owning m (some t) tag p = (tag ≡ some t) × ((p ≡ 0) ⊎ (m p ≡ some t))

  abbrev IsValid : Memory T → AnyPtr T → Type 0
  IsValid m p = Owning m p.deleter p.type_tag p.ptr

  -- The address of the object that the variable owns, 0 for none.
  abbrev owned_by : Option T → ℕ → ℕ
  owned_by none p = 0
  owned_by (some t) p = p

  abbrev owned : AnyPtr T → ℕ
  owned p = owned_by p.deleter p.ptr

  -- `m'` is `m` with the object at the address `p` deleted, if that is not 0.
  abbrev Frees : Memory T → ℕ → Memory T → Type 0
  Frees m p m' = (a : ℕ) → (m' a ≡ (if (a == p) && not (a == 0) then none else m a))

  owned_by-cases : (d : Option T) (p : ℕ) → (owned_by d p ≡ 0) ⊎ (owned_by d p ≡ p)
  owned_by-cases none p = inl refl
  owned_by-cases (some t) p = inr refl

  module _ (same : Discrete T) where
    call_deleter-Frees :
        (m : Memory T) (p : ℕ) (d tag : Option T)
        → Owning m d tag p
        → (m' : Memory T) × (call_deleter same m p d ≡ some m') × Frees m (owned_by d p) m'
    unfolding call_deleter delete_object
    call_deleter-Frees m p none tag h = (m, refl, λ a. ground arith)
    call_deleter-Frees m p (some t) tag h = elim (ℕ_discrete p 0) [
      | yes z ↦ (m, ground arith, λ a. ground arith)
      | no nz ↦ (write m p none, ground arith, λ a. ground arith)
    ]

    -- The destructor deletes the object owned, if any, and nothing else, with no undefined
    -- behaviour; the variable then owns nothing.
    destroy-Frees :
        (m : Memory T) (p : AnyPtr T)
        → IsValid m p
        → (m' : Memory T) × (p' : AnyPtr T) × (destroy same m p ≡ some (m', p'))
          × Frees m (owned p) m'
          × (owned p' ≡ 0)
    unfolding destroy
    destroy-Frees m p h =
        let (m', e, f) = call_deleter-Frees m p.ptr p.deleter p.type_tag h in
        (m', record p { deleter = none; type_tag = none }, rw (e, destroy), f, refl)

    -- A variable that is given a new object deletes the one that it owned, and owns the new one,
    -- which has another address than the variable's pointer.
    reset-owns :
        (m : Memory T) (p : AnyPtr T) (t : T) (q : ℕ)
        → IsValid m p
        → m q ≡ some t
        → q ≢ 0
        → q ≢ p.ptr
        → (m' : Memory T) × (p' : AnyPtr T) × (reset same m p t q ≡ some (m', p'))
          × Frees m (owned p) m'
          × (owned p' ≡ q)
          × (m' q ≡ some t)
          × IsValid m' p'
    unfolding reset adopt
    reset-owns m p t q h live nz apart =
        let (m', p', e, f, _) = destroy-Frees m p h in
        let kept : m' q ≡ some t = ground (arith, f q, owned_by-cases p.deleter p.ptr) in
        (m', adopt t q, ground (arith, e), f, refl, kept, (refl, inr kept))

    -- Moving hands the object over: nothing is deleted but what the target owned, and the source is
    -- left null.
    move_assign-moves :
        (m : Memory T) (p that : AnyPtr T)
        → IsValid m p
        → IsValid m that
        → p.ptr ≢ that.ptr
        → (m' : Memory T) × (p' : AnyPtr T) × (move_assign same m p that ≡ some (m', p', null))
          × Frees m (owned p) m'
          × (owned p' ≡ owned that)
          × IsValid m' p'
    unfolding move_assign move release null
    move_assign-moves m p that h h' apart =
        let (m', p', e, f, _) = destroy-Frees m p h in
        (m', that, ground (arith, e), f, refl, kept that.deleter m' f h')
      where
        kept :
            (d : Option T) (m' : Memory T)
            → Frees m (owned p) m'
            → Owning m d that.type_tag that.ptr
            → Owning m' d that.type_tag that.ptr
        kept none m' f o = o
        kept (some t) m' f o = ground (arith, f that.ptr, owned_by-cases p.deleter p.ptr)

    -- A variable that owns an object still points at it after `reset(nullptr)`: the object is
    -- deleted, the conversion to `bool` gives `true`, and `get` the address of the deleted object.
    -- If an object is then allocated there, `reset` on it has no effect and the destructor leaves it.
    pub reset_null-dangles :
        (m : Memory T) (p : AnyPtr T) (t u : T)
        → p.deleter ≡ some t
        → IsValid m p
        → p.ptr ≢ 0
        → (m' : Memory T) × (p' : AnyPtr T) × (reset_null same m p ≡ some (m', p'))
          × (m' p.ptr ≡ none)
          × (is_set p' ≡ true)
          × (get p' ≡ p.ptr)
          × (reset same (write m' p.ptr (some u)) p' u p.ptr ≡ some (write m' p.ptr (some u), p'))
          × (destroy same (write m' p.ptr (some u)) p' ≡ some (write m' p.ptr (some u), p'))
    unfolding reset_null is_set get reset destroy call_deleter
    reset_null-dangles m p t u d h nz =
        let (m', e, f) = call_deleter-Frees m p.ptr p.deleter p.type_tag h in
        (
          m',
          record p { deleter = none; type_tag = none },
          rw (e, destroy),
          ground (arith, f p.ptr),
          ground arith,
          refl,
          ground arith,
          refl,
        )

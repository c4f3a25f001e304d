-- ===== src/Utility/AnyPtr/Tests.antt =====
-- Tests of the owning pointer.
use uvcc.Prelude.{ℕ, ◌≡◌, refl, inr, none, some, arith, ◌==◌, if◌then◌else◌, true, ℕ_discrete}
use uvcc.Utility.AnyPtr.{AnyPtr, Memory, write, adopt, get, is_set, destroy, reset_null, reset}
use uvcc.Utility.AnyPtr.Ownership.{reset_null-dangles}

-- Objects of the type 4 at the addresses 1 and 2.
abbrev two : Memory ℕ
two a = if a == 1 then some 4 else if a == 2 then some 4 else none

reset_null-dangles_example :
    (m' : Memory ℕ) × (p' : AnyPtr ℕ) × (reset_null ℕ_discrete two (adopt 4 1) ≡ some (m', p'))
    × (m' 1 ≡ none)
    × (is_set p' ≡ true)
    × (get p' ≡ 1)
    × (reset ℕ_discrete (write m' 1 (some 8)) p' 8 1 ≡ some (write m' 1 (some 8), p'))
    × (destroy ℕ_discrete (write m' 1 (some 8)) p' ≡ some (write m' 1 (some 8), p'))
unfolding adopt
reset_null-dangles_example =
    reset_null-dangles ℕ_discrete two (adopt 4 1) 4 8 refl (refl, inr refl) (λ e. omega (arith, e))

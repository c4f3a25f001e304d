-- ===== src/References/Places.antt =====
-- The variables of a program in a list, and how many of them refer to an instance.
use uvcc.Prelude.{
  ℕ, zero, suc, ◌+◌, ◌≤◌, ◌<◌, ◌≡◌, ◌≢◌, refl, ap, ◌∙◌, ◌⊎◌, List, [], ◌∷◌, some, arith, get_elem?,
  set, length, ◌==◌, if◌then◌else◌, ℕ_discrete,
}
use uvcc.Utility.RefCount.{long_mod}

abbrev pub count : ℕ → List ℕ → ℕ
count p [] = 0
count p (v ∷ vars) = (if v == p then 1 else 0) + count p vars

-- How many variables refer to the instance at `p`; none to the null pointer.
abbrev pub referring : List ℕ → ℕ → ℕ
referring vars p = if p == 0 then 0 else count p vars

pub count-le-length : (p : ℕ) (vars : List ℕ) → count p vars ≤ length vars
count-le-length p [] = omega arith
count-le-length p (v ∷ vars) = ground (arith, count-le-length p vars)

pub count-set :
    (p : ℕ) (vars : List ℕ) (i v u : ℕ)
    → get_elem? vars i ≡ some u
    → count p (set vars i v) + (if u == p then 1 else 0) ≡ count p vars + (if v == p then 1 else 0)
count-set p [] i v u e = cc
count-set p (x ∷ vars) zero v u e = ground arith
count-set p (x ∷ vars) (suc i) v u e = ground (arith, count-set p vars i v u e)

pub count-pos : (vars : List ℕ) (i u : ℕ) → get_elem? vars i ≡ some u → 0 < count u vars
count-pos [] i u e = cc
count-pos (x ∷ vars) zero u e = ground arith
count-pos (x ∷ vars) (suc i) u e = omega (arith, count-pos vars i u e)

pub length-set : (vars : List ℕ) (i v : ℕ) → length (set vars i v) ≡ length vars
length-set [] i v = refl
length-set (x ∷ vars) zero v = refl
length-set (x ∷ vars) (suc i) v = ap suc (length-set vars i v)

pub get-set_ne : (vars : List ℕ) (i j v : ℕ) → i ≢ j → get_elem? (set vars i v) j ≡ get_elem? vars j
get-set_ne [] i j v h = refl
get-set_ne (x ∷ vars) zero zero v h = absurd (h refl)
get-set_ne (x ∷ vars) zero (suc j) v h = refl
get-set_ne (x ∷ vars) (suc i) zero v h = refl
get-set_ne (x ∷ vars) (suc i) (suc j) v h = get-set_ne vars i j v (λ e. h (ap suc e))

pub get-set_self :
    (vars : List ℕ) (i v u : ℕ) → get_elem? vars i ≡ some u → get_elem? (set vars i v) i ≡ some v
get-set_self [] i v u e = cc
get-set_self (x ∷ vars) zero v u e = refl
get-set_self (x ∷ vars) (suc i) v u e = get-set_self vars i v u e

pub get-set_other :
    (vars : List ℕ) (i j u v : ℕ)
    → get_elem? vars i ≡ some u
    → get_elem? vars j ≡ some v
    → get_elem? (set vars i v) j ≡ some v
get-set_other vars i j u v eu ev = elim (ℕ_discrete i j) [
  | yes same ↦ rw (← same) (get-set_self vars i v u eu)
  | no apart ↦ get-set_ne vars i j v apart ∙ ev
]

pub held-referring :
    (vars : List ℕ) (i u : ℕ) → get_elem? vars i ≡ some u → (u ≡ 0) ⊎ (0 < referring vars u)
held-referring vars i u e = ground (arith, count-pos vars i u e)

pub referring-lt :
    (vars : List ℕ) (p : ℕ) → length vars + 1 < long_mod → referring vars p + 1 < long_mod
referring-lt vars p h = ground (arith, count-le-length p vars)

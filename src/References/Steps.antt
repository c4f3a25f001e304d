-- ===== src/References/Steps.antt =====
-- Every operation on such variables keeps each count equal to the number of variables that refer to
-- the instance, given the laws of `ref` and `unref` for one instance.
use uvcc.Prelude.{
  ℕ, ◌+◌, ◌≤◌, ◌<◌, ◌≡◌, ◌≢◌, refl, sym, ap, ◌∙◌, subst, fun_ext, List, ◌∷◌, some, arith, get_elem?,
  set, length, ◌==◌, if◌then◌else◌, inl, inr, ◌⊎◌, ℕ_discrete, Bool-cases,
}
use uvcc.Utility.RefCount.{long_mod}
use uvcc.Runtime.{World, Run, ok, M}
use uvcc.Runtime.Counts.{gain, lose}
use uvcc.References.Places.{
  referring, count-set, length-set, get-set_self, get-set_ne, get-set_other, held-referring,
  referring-lt,
}
use uvcc.References.{
  ref_if, unref_if, copy_construct, destruct, copy_assign, move_construct, move_assign, swap,
  copies, moves, assigns, move_assigns, swaps, drops, with_one, with_two,
}

-- `Inv w own` is to say that in `w` the counts of the instances are `own`. `ref` and `unref` of an
-- instance that a reference is held to succeed, and change its count alone.
pub record Counting (ref unref : ℕ → M (Unit {0})) (Inv : World → (ℕ → ℕ) → Type 0) : Type 0 where
  pub ref_law :
      (w : World) (own : ℕ → ℕ) (p : ℕ)
      → Inv w own
      → 0 < own p
      → own p + 1 < long_mod
      → (w' : World) × (ref p w ≡ ok tt w') × Inv w' (gain own p)
  pub unref_law :
      (w : World) (own : ℕ → ℕ) (p : ℕ)
      → Inv w own
      → 0 < own p
      → own p < long_mod
      → (w' : World) × (unref p w ≡ ok tt w') × Inv w' (lose own p)

-- The counts after a reference to `p` more, or less, unless `p` is null.
abbrev gain_if : (ℕ → ℕ) → ℕ → ℕ → ℕ
gain_if own p q = if p == 0 then own q else gain own p q

abbrev lose_if : (ℕ → ℕ) → ℕ → ℕ → ℕ
lose_if own p q = if p == 0 then own q else lose own p q

module _ {ref unref : ℕ → M (Unit {0})} {Inv : World → (ℕ → ℕ) → Type 0}
    (laws : Counting ref unref Inv) where
  ref_if_lem :
      (w : World) (own : ℕ → ℕ) (p : ℕ)
      → Inv w own
      → (p ≡ 0) ⊎ (0 < own p)
      → own p + 1 < long_mod
      → (w' : World) × (ref_if ref unref p w ≡ ok tt w') × Inv w' (gain_if own p)
  unfolding ref_if
  ref_if_lem w own p inv held room = elim (ℕ_discrete p 0) [
    | yes z ↦ (w, ground arith, subst (Inv w) (fun_ext λ q. ground arith) inv)
    | no nz ↦
        let (w', e, inv') = laws.ref_law w own p inv (ground arith) room in
        (w', ground (arith, e), subst (Inv w') (fun_ext λ q. ground arith) inv')
  ]

  unref_if_lem :
      (w : World) (own : ℕ → ℕ) (p : ℕ)
      → Inv w own
      → (p ≡ 0) ⊎ (0 < own p)
      → own p < long_mod
      → (w' : World) × (unref_if ref unref p w ≡ ok tt w') × Inv w' (lose_if own p)
  unfolding unref_if
  unref_if_lem w own p inv held room = elim (ℕ_discrete p 0) [
    | yes z ↦ (w, ground arith, subst (Inv w) (fun_ext λ q. ground arith) inv)
    | no nz ↦
        let (w', e, inv') = laws.unref_law w own p inv (ground arith) room in
        (w', ground (arith, e), subst (Inv w') (fun_ext λ q. ground arith) inv')
  ]

module _ {ref unref : ℕ → M (Unit {0})} {Inv : World → (ℕ → ℕ) → Type 0}
    (laws : Counting ref unref Inv) where
  -- The run ends with variables, at most `n`, that the counts agree with.
  abbrev pub Keeps : ℕ → Run (List ℕ) → Type 0
  Keeps n r =
      (vars : List ℕ) × (w : World) × (r ≡ ok vars w) × Inv w (referring vars) × (length vars ≤ n)

  module _ (w : World) (vars : List ℕ) (inv : Inv w (referring vars))
      (room : length vars + 1 < long_mod) where
    pub copies-Keeps :
        (i v : ℕ)
        → get_elem? vars i ≡ some v
        → Keeps (length vars + 1) (with_one ref unref (copies i) vars i (some v) w)
    unfolding with_one copy_construct
    copies-Keeps i v e =
        let (w', r, inv') =
          ref_if_lem laws w (referring vars) v inv (held-referring vars i v e)
            (referring-lt vars v room) in
        (v ∷ vars, w', rw r, subst (Inv w') (fun_ext λ q. ground arith) inv', omega arith)

    pub moves-Keeps :
        (i v : ℕ)
        → get_elem? vars i ≡ some v
        → Keeps (length vars + 1) (with_one ref unref (moves i) vars i (some v) w)
    unfolding with_one move_construct
    moves-Keeps i v e = (
      v ∷ set vars i 0,
      w,
      refl,
      subst (Inv w) (fun_ext λ q. ground (arith, count-set q vars i 0 v e)) inv,
      omega (arith, length-set vars i 0),
    )

    pub drops-Keeps :
        (i v : ℕ)
        → get_elem? vars i ≡ some v
        → Keeps (length vars + 1) (with_one ref unref (drops i) vars i (some v) w)
    unfolding with_one destruct
    drops-Keeps i v e =
        let (w', r, inv') =
          unref_if_lem laws w (referring vars) v inv (held-referring vars i v e)
            (omega (arith, referring-lt vars v room)) in
        (
          set vars i 0,
          w',
          rw r,
          subst (Inv w') (fun_ext λ q. ground (arith, count-set q vars i 0 v e)) inv',
          omega (arith, length-set vars i 0),
        )

    module _ (i j this that : ℕ) (ei : get_elem? vars i ≡ some this)
        (ej : get_elem? vars j ≡ some that) where
      pub swaps-Keeps :
          Keeps
            (length vars + 1)
            (with_two ref unref (swaps i j) vars i j (some this) (some that) w)
      unfolding with_two swap
      swaps-Keeps = (
        set (set vars i that) j this,
        w,
        refl,
        subst (Inv w)
            (fun_ext λ q. ground (
              arith,
              count-set q vars i that this ei,
              count-set q (set vars i that) j this that (get-set_other vars i j this that ei ej),
            ))
            inv,
        omega (arith, length-set vars i that, length-set (set vars i that) j this),
      )

      pub assigns-Keeps :
          Keeps
            (length vars + 1)
            (with_two ref unref (assigns i j) vars i j (some this) (some that) w)
      unfolding with_two copy_assign
      assigns-Keeps = elim (Bool-cases (i == j)) [
        | inl same ↦ (
          set vars i this,
          w,
          rw same,
          subst (Inv w) (fun_ext λ q. ground (arith, count-set q vars i this this ei)) inv,
          omega (arith, length-set vars i this),
        )
        | inr apart ↦
            let (w', r, inv') =
              ref_if_lem laws w (referring vars) that inv (held-referring vars j that ej)
                (referring-lt vars that room) in
            let (w'', r', inv'') =
              unref_if_lem laws w' (gain_if (referring vars) that) this inv'
                (ground (arith, held-referring vars i this ei))
                (ground (arith, referring-lt vars this room)) in
            (
              set vars i that,
              w'',
              rw (apart, r, r'),
              subst (Inv w'') (fun_ext λ q. ground (arith, count-set q vars i that this ei)) inv'',
              omega (arith, length-set vars i that),
            )
      ]

      pub move_assigns-Keeps :
          Keeps
            (length vars + 1)
            (with_two ref unref (move_assigns i j) vars i j (some this) (some that) w)
      unfolding with_two move_assign
      move_assigns-Keeps = elim (ℕ_discrete i j) [
        | yes same ↦ (
          set (set vars j that) i this,
          w,
          ground arith,
          subst (Inv w)
              (fun_ext λ q. ground (
                arith,
                count-set q vars j that that ej,
                count-set q (set vars j that) i this that (self same),
                alike same,
              ))
              inv,
          omega (arith, length-set vars j that, length-set (set vars j that) i this),
        )
        | no apart ↦
            let (w', r, inv') =
              unref_if_lem laws w (referring vars) this inv (held-referring vars i this ei)
                (omega (arith, referring-lt vars this room)) in
            (
              set (set vars j 0) i that,
              w',
              ground (arith, r),
              subst (Inv w')
                  (fun_ext λ q. ground (
                    arith,
                    count-set q vars j 0 that ej,
                    count-set q (set vars j 0) i that this (other apart),
                  ))
                  inv',
              omega (arith, length-set vars j 0, length-set (set vars j 0) i that),
            )
      ]
        where
          self : i ≡ j → get_elem? (set vars j that) i ≡ some that
          self same = rw same (get-set_self vars j that that ej)

          alike : i ≡ j → this ≡ that
          alike same = let e : some this ≡ some that = sym ei ∙ ap (get_elem? vars) same ∙ ej in cc

          other : i ≢ j → get_elem? (set vars j 0) i ≡ some this
          other apart = get-set_ne vars j i 0 (λ e. apart (sym e)) ∙ ei

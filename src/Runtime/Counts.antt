-- ===== src/Runtime/Counts.antt =====
-- What an increment and a decrement make of a heap whose counts are the numbers of references.
use uvcc.Prelude.{
  ℕ, ◌+◌, ◌-◌, ◌<◌, ◌≡◌, refl, subst, Option, none, some, arith, ◌==◌, if◌then◌else◌,
}
use uvcc.Utility.RefCount.{inc, dec, long_mod}
use uvcc.Runtime.{World, Instance, Heap, put, done, inc_ref, dec_ref}

-- Neither requests nor buffers change.
abbrev pub SameRest : World → World → Type 0
SameRest w w' = (w'.requests ≡ w.requests) × (w'.buffers ≡ w.buffers)

-- One reference more, one less, to the instance at `p`.
abbrev pub gain : (ℕ → ℕ) → ℕ → ℕ → ℕ
gain own p q = if q == p then own q + 1 else own q

abbrev pub lose : (ℕ → ℕ) → ℕ → ℕ → ℕ
lose own p q = if q == p then own q - 1 else own q

module _ {B : Type 0} where
  -- `n` references are held to what stands at an address: none to a deleted instance, and to another
  -- as many as it counts, at least one.
  abbrev pub CountIs : Option (Instance B) → ℕ → Type 0
  CountIs none n = n ≡ 0
  CountIs (some i) n = (i.refs ≡ n) × (0 < n)

  abbrev pub Counted : Heap B → (ℕ → ℕ) → Type 0
  Counted h own = (p : ℕ) → CountIs (h p) (own p)

  CountIs-live :
      (o : Option (Instance B)) (n : ℕ)
      → CountIs o n
      → 0 < n
      → (i : Instance B) × (o ≡ some i) × (i.refs ≡ n)
  CountIs-live none n c h = absurd (omega arith)
  CountIs-live (some i) n c h = (i, refl, c.0)

  -- The instance that a reference is held to.
  pub Counted-live :
      (h : Heap B) (own : ℕ → ℕ) (p : ℕ)
      → Counted h own
      → 0 < own p
      → (i : Instance B) × (h p ≡ some i) × (i.refs ≡ own p)
  Counted-live h own p c pos = CountIs-live (h p) (own p) (c p) pos

  CountIs-gone : (o : Option (Instance B)) (n : ℕ) → CountIs o n → n ≡ 0 → o ≡ none
  CountIs-gone none n c e = refl
  CountIs-gone (some i) n (refs, pos) e = absurd (omega (arith, pos, e))

  pub Counted-gone : (h : Heap B) (own : ℕ → ℕ) (p : ℕ) → Counted h own → own p ≡ 0 → h p ≡ none
  Counted-gone h own p c e = CountIs-gone (h p) (own p) (c p) e

  pub inc_ref-Counted :
      (h : Heap B) (own : ℕ → ℕ) (p : ℕ) (i : Instance B)
      → Counted h own
      → h p ≡ some i
      → own p + 1 < long_mod
      → (inc_ref h p ≡ done (put h p (some (record i { refs = own p + 1 }))))
        × Counted (put h p (some (record i { refs = own p + 1 }))) (gain own p)
  unfolding inc_ref inc
  inc_ref-Counted h own p i c e room =
      let here : CountIs (some i) (own p) = subst (λ o. CountIs o (own p)) e (c p) in
      (ground (arith, here), λ q. ground (arith, c q, here))

  pub dec_ref-Counted :
      (h : Heap B) (own : ℕ → ℕ) (p : ℕ) (i : Instance B)
      → Counted h own
      → h p ≡ some i
      → own p < long_mod
      → 1 < own p
      → (dec_ref h p ≡ done (own p - 1, put h p (some (record i { refs = own p - 1 }))))
        × Counted (put h p (some (record i { refs = own p - 1 }))) (lose own p)
  unfolding dec_ref dec
  dec_ref-Counted h own p i c e small more =
      let here : CountIs (some i) (own p) = subst (λ o. CountIs o (own p)) e (c p) in
      (ground (arith, here), λ q. ground (arith, c q, here))

  -- The last reference gone, the count is 0; with the instance deleted the counts are right again.
  pub dec_ref-last :
      (h : Heap B) (own : ℕ → ℕ) (p : ℕ) (i : Instance B)
      → Counted h own
      → h p ≡ some i
      → own p ≡ 1
      → (dec_ref h p ≡ done (0, put h p (some (record i { refs = 0 }))))
        × Counted (put (put h p (some (record i { refs = 0 }))) p none) (lose own p)
  unfolding dec_ref dec
  dec_ref-last h own p i c e last =
      let here : CountIs (some i) (own p) = subst (λ o. CountIs o (own p)) e (c p) in
      (ground (arith, here), λ q. ground (arith, c q, here))

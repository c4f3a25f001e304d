-- ===== src/Runtime/Ends.antt =====
-- A run that ends with a result, and what holds of it.
use uvcc.Prelude.{◌≡◌, ap, ◌∙◌}
use uvcc.Runtime.{World, Run, ok, M, and_then}

-- The run has a result, of which `P` holds in the world behind it.
abbrev pub Ends : {A : Type 0} → Run A → (A → World → Type 0) → Type 0
Ends {A} r P = (a : A) × (w : World) × (r ≡ ok a w) × P a w

module _ {A B : Type 0} where
  -- One piece of code behind another.
  pub Ends-then :
      (r : Run A) (f : A → M B) (P : A → World → Type 0) (Q : B → World → Type 0)
      → Ends r P
      → ((a : A) (w : World) → P a w → Ends (f a w) Q)
      → Ends (and_then r f) Q
  Ends-then r f P Q (a, w, e, p) k =
      let (b, w', e', q) = k a w p in (b, w', ap (λ x. and_then x f) e ∙ e', q)

module _ {A : Type 0} where
  pub Ends-weaken :
      (r : Run A) (P Q : A → World → Type 0)
      → Ends r P
      → ((a : A) (w : World) → P a w → Q a w)
      → Ends r Q
  Ends-weaken r P Q (a, w, e, p) k = (a, w, e, k a w p)

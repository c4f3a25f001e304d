-- ===== src/Transfer/Taken.antt =====
-- The references to a handle, a buffer and a request that a request with a buffer takes and gives back.
use uvcc.Prelude.{ℕ, Bool, subst, arith}
use uvcc.Runtime.{World, LibUv, ◌>>◌}
use uvcc.Runtime.Counts.{gain, lose}
use uvcc.Runtime.Ends.{Ends, Ends-then, Ends-weaken}
use uvcc.Loop.Lifetime.{ClosesAll}
use uvcc.Handle
use uvcc.Request
use uvcc.Buffer.Sharing
use uvcc.Buffer.Sharing.{Sink}
use uvcc.Transfer.Counts.{Counts, Held, request_unref_lem, buffer_unref_lem, handle_unref_lem}
use uvcc.Transfer.Balance.{lose-gain}

module _ (others h r b : ℕ → ℕ) (q p c : ℕ) where
  -- The counts with one more reference to each of the three.
  abbrev pub Taken : World → Type 0
  Taken = Counts others (gain h p) (gain r q) (gain b c)

  pub restored :
      (w : World)
      → Counts others (lose (gain h p) p) (lose (gain r q) q) (lose (gain b c) c) w
      → Counts others h r b w
  restored w counts =
      subst (λ o. Counts others o r b w) (lose-gain h p)
        (subst (λ o. Counts others (lose (gain h p) p) o b w) (lose-gain r q)
          (subst (λ o. Counts others (lose (gain h p) p) (lose (gain r q) q) o w) (lose-gain b c)
            counts))

  module _ (held_p : Held h p) (held_q : Held r q) (held_c : Held b c) where
    module _ (uv : LibUv) (uncaught : Bool) (fuel : ℕ) (sink : ℕ → Sink) (shut : ClosesAll uv) where
      pub give_back_lem :
          (w : World)
          → Taken w
          → Ends
              ((do Handle.unref uv uncaught fuel p; Sharing.unref sink c; Request.unref q) w)
              (λ _ w'. Counts others h r b w')
      give_back_lem w counts =
          Ends-then _ _ _ _
            (handle_unref_lem others uv uncaught fuel (gain h p) (gain r q) (gain b c) w p shut
              counts (ground arith) (ground (arith, held_p)))
            λ _ w1 h1.
              Ends-then _ _ _ _
                (buffer_unref_lem others sink (lose (gain h p) p) (gain r q) (gain b c) w1 c h1
                  (ground arith) (ground (arith, held_c)))
                λ _ w2 h2.
                  Ends-weaken _ _ _
                    (request_unref_lem others (lose (gain h p) p) (gain r q) (lose (gain b c) c) w2
                      q h2 (ground arith) (ground (arith, held_q)))
                    λ _ w3 h3. restored w3 h3

-- ===== src/Transfer/Background.antt =====
-- The choice of `run` between a synchronous call and one in the background.
use uvcc.Prelude.{◌≡◌, inl, inr, ℕ, not, ◌&&◌, some, if◌then◌else◌, Bool-cases}
use uvcc.Prelude.Int.{ℤ, is_negative}
use uvcc.Runtime.{World, M, Instance, RequestBody, and_then}
use uvcc.Runtime.Ends.{Ends, Ends-weaken}
use uvcc.Request

-- A request runs on if it has a callback and libuv takes it; this is what it leaves then, and else.
abbrev pub Outcome : (On Off : World → Type 0) → Instance RequestBody → ℤ → World → Type 0
Outcome On Off i ret w' = if i.body.has_request_cb && not (is_negative ret) then On w' else Off w'

module _ (On Off : World → Type 0) (q : ℕ) (w : World) (i : Instance RequestBody) where
  pub choose-Ends :
      (later now : M ℤ)
      → w.requests q ≡ some i
      → Ends (later w) (λ ret w'. if is_negative ret then Off w' else On w')
      → Ends (now w) (λ _ w'. Off w')
      → Ends
          (and_then (Request.load q w) λ j. if j.body.has_request_cb then later else now)
          (Outcome On Off i)
  choose-Ends later now e on off = elim (Bool-cases i.body.has_request_cb) [
    | inl set ↦
        rw (e, set)
          (Ends-weaken _ _ _ on λ ret w3 h3. elim (Bool-cases (is_negative ret)) [
            | inl neg ↦ rw neg (rw neg at h3)
            | inr good ↦ rw good (rw good at h3)
          ])
    | inr unset ↦ rw (e, unset) off
  ]

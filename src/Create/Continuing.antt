-- ===== src/Create/Continuing.antt =====
-- What may follow the booking of the loop in a constructor.
use uvcc.Prelude.{ℕ, ◌<◌, refl, inl, inr, Bool, true, false, not, Bool-cases}
use uvcc.Prelude.Int.{ℤ, is_negative}
use uvcc.Runtime.{World, M, LibUv, Call, ◌>>=◌, when, call, uv_stream_set_blocking}
use uvcc.Runtime.Ends.{Ends, Ends-then, Ends-weaken}
use uvcc.Handle.Observed.{set_status-Shows, call-Shows}
use uvcc.Handle.{load, set_status}
use uvcc.Create.{set_blocking}
use uvcc.Create.Constructors.{lip, Created, OnLoop, Settled, OnLoop-Created, Settled-Created}
use uvcc.Create.Classes.{Initialisers, status_of}

module _ (uv : LibUv) (uncaught : Bool) (fuel : ℕ) (inits : Initialisers) (others own : ℕ → ℕ)
    (l p : ℕ) (nz : 0 < l) where
  -- A step behind the constructor of a handle that has booked its loop.
  abbrev pub Continues : M (Unit {0}) → Type 0
  Continues m =
      (w : World) → OnLoop others own l p w → Ends (m w) (λ _ w'. OnLoop others own l p w')

  pub status-Continues : (c : Call) → Continues (status_of (call uv c) p)
  status-Continues c w h =
      Ends-then _ _ _ _ (call-Shows lip others own p 1 l w uv c h) λ r w1 (_, h1).
        Ends-then _ _ _ _ (set_status-Shows lip others own p 1 l w1 r h1)
          λ _ w2 (_, h2). (tt, w2, refl, h2)

  pub blocking-Continues : (b : Bool) → Continues (set_blocking uv uncaught fuel p b)
  unfolding set_blocking
  blocking-Continues true w h = status-Continues (uv_stream_set_blocking p) w h
  blocking-Continues false w h = (tt, w, refl, h)

  -- What follows a constructor that has not failed.
  pub then-Continues :
      (r : ℤ) (m : M (Unit {0})) (w : World)
      → Continues m
      → Settled others own l p r w
      → Ends (when (not (is_negative r)) m w) (λ _ w'. Created others own l p w')
  then-Continues r m w on (inl (nonneg, h)) =
      rw nonneg (Ends-weaken _ _ _ (on w h) λ _ w' h'. OnLoop-Created others own l p w' h')
  then-Continues r m w on (inr (neg, failed)) =
      rw neg (tt, w, refl, Settled-Created others own l p r w (inr (neg, failed)))

  pub opened-Continues :
      (c : Call) (b : Bool)
      → Continues (do
        r ← call uv c
        _ ← set_status p r
        when (not (is_negative r)) (set_blocking uv uncaught fuel p b))
  opened-Continues c b w h =
      Ends-then _ _ _ _ (call-Shows lip others own p 1 l w uv c h) λ r w1 (_, h1).
        Ends-then _ _ _ _ (set_status-Shows lip others own p 1 l w1 r h1)
          λ _ w2 (_, h2). blocking_unless r w2 h2
    where
      blocking_unless :
          (r : ℤ) (w : World)
          → OnLoop others own l p w
          → Ends
              (when (not (is_negative r)) (set_blocking uv uncaught fuel p b) w)
              (λ _ w'. OnLoop others own l p w')
      blocking_unless r w h = elim (Bool-cases (is_negative r)) [
        | inl neg ↦ rw neg (tt, w, refl, h)
        | inr nonneg ↦ rw nonneg (blocking-Continues b w h)
      ]

  -- The constructors of pipes test the status of the handle that they delegate to.
  pub error-Continues :
      (r : ℤ) (m : M (Unit {0})) (w : World)
      → Continues m
      → Settled others own l p r w
      → Ends
          ((do i ← load p; when (not (is_negative i.uv_error)) m) w)
          (λ _ w'. Created others own l p w')
  error-Continues r m w on (inl (nonneg, (i, inv, e, booked))) =
      elim (Bool-cases (is_negative i.uv_error)) [
        | inl neg ↦ rw (e, neg) (tt, w, refl, OnLoop-Created others own l p w (i, inv, e, booked))
        | inr nonneg ↦
            rw (e, nonneg)
              (Ends-weaken _ _ _ (on w (i, inv, e, booked))
                λ _ w' h'. OnLoop-Created others own l p w' h')
      ]
  error-Continues r m w on (inr (neg, (i, inv, e, unbooked, is))) =
      rw (e, is, neg)
        (tt, w, refl, Settled-Created others own l p r w (inr (neg, (i, inv, e, unbooked, is))))

-- ===== src/Timer/Tests.antt =====
-- Tests of timers.
use uvcc.Prelude.{◌≡◌, refl, true, false, List, [], ◌∷◌, none, arith}
use uvcc.Prelude.Int.{pos}
use uvcc.Runtime.{World, ok, Instance, HandleBody, LibUv, pure, ◌>>=◌, ◌>>◌}
use uvcc.Runtime.Ends.{Ends}
use uvcc.Runtime.Fixtures.{one, owning, agreeable}
use uvcc.Handle.Fixtures.{booked, connected, nobody, connected-Inv}
use uvcc.Timer.State.{Holds, Held}
use uvcc.Timer.{start, stop, timer_cb}
use uvcc.Timer.Repeating.{
  Happening, starts, starts_with, stops, fires, happenings, restart-Balances, happenings-Held,
}
use uvcc.Timer.Fired.{fired-stop-deletes}

-- libuv with a repeat interval, and which accepts everything.
abbrev repeating : LibUv
repeating t c = pos 20

abbrev life : List Happening
life = starts 10 ∷ fires ∷ stops ∷ fires ∷ starts_with 5 ∷ fires ∷ []

happenings-Held_example :
    Ends
      (happenings repeating false 0
        (λ q. do _ ← start repeating false 0 7 q; pure tt)
        life
        1
        connected)
      (λ _ w'. Held nobody (owning 1) 1 0 w')
happenings-Held_example =
    happenings-Held repeating false 0 nobody (owning 1) 1 (omega arith) (omega arith) (λ t. refl)
      (λ q. do _ ← start repeating false 0 7 q; pure tt)
      (restart-Balances repeating false 0 nobody (owning 1) 1 (omega arith) (omega arith) 7) life
      connected (false, (booked, connected-Inv, refl, refl))

-- A timer that libuv has started, which one variable refers to.
abbrev started : Instance HandleBody
started = record booked { refs = 2; body = record booked.body { has_extra_ref = true } }

abbrev ticking : World
ticking = record connected { handles = one started }

ticking-Holds : Holds nobody (owning 1) 1 0 true ticking
ticking-Holds = (
  started,
  (
    1 ∷ [],
    record {
      counted = λ p. ground arith;
      listed = λ p. ground arith;
      booked = λ l. ground arith;
      small = λ l. ground arith;
    },
  ),
  refl,
  refl,
)

fired-stop-deletes_example :
    Ends
      ((do timer_cb agreeable false 0 (λ q w. ok tt w) 1; stop agreeable false 0 1) ticking)
      (λ _ w'. w'.handles 1 ≡ none)
fired-stop-deletes_example =
    fired-stop-deletes agreeable false 0 nobody (owning 1) 1 (λ t. refl) (omega arith) (omega arith)
      (λ q w. ok tt w) ticking (λ t l. refl) refl (λ n s w h. (tt, w, refl, h)) ticking-Holds

-- ===== src/Watch/Tests.antt =====
-- Tests of the handles that are started and stopped.
use uvcc.Prelude.{refl, Bool, true, false, List, [], ◌∷◌, arith}
use uvcc.Prelude.Int.{pos, negsuc}
use uvcc.Runtime.{Opcmd, LibUv}
use uvcc.Runtime.Ends.{Ends}
use uvcc.Runtime.Fixtures.{owning, agreeable}
use uvcc.Handle.Fixtures.{booked, connected, nobody, connected-Inv}
use uvcc.Watch.State.{Watches, Watched}
use uvcc.Watch.Machine.{
  Command, idle_stops, poll_starts, signal_starts_oneshot, signal_stops, fs_event_starts,
  idle_fires, signal_fires, command, reached, command-reaches,
}
use uvcc.Watch.Callbacks.{
  Happening, does, fires, calls, happenings, calls-Behaves, happenings-Watched,
}

idle-Watches : Watches nobody (owning 1) 1 0 Opcmd.unknown connected
idle-Watches = (booked, connected-Inv, refl, refl)

-- libuv that refuses everything.
abbrev reluctant : LibUv
reluctant t c = negsuc 3

command-reaches_example :
    Ends (command reluctant false 0 (poll_starts (pos 1)) 1 connected) (λ a w'.
      Watches nobody
        (owning 1)
        1
        0
        (reached reluctant false 0 nobody
          (owning 1)
          1
          0
          (omega arith)
          (omega arith)
          (poll_starts (pos 1))
          a)
        w')
command-reaches_example =
    command-reaches reluctant false 0 nobody (owning 1) 1 0 (omega arith) (omega arith)
      (poll_starts (pos 1)) Opcmd.unknown connected idle-Watches

-- A callback that restarts the handle for one more signal and stops it otherwise.
abbrev reaction : Bool → List Command
reaction true = signal_starts_oneshot ∷ []
reaction false = idle_stops ∷ []

abbrev life : List Happening
life =
    does signal_starts_oneshot
    ∷ fires signal_fires
    ∷ fires signal_fires
    ∷ does fs_event_starts
    ∷ fires idle_fires
    ∷ does signal_stops
    ∷ []

happenings-Watched_example :
    Ends
      (happenings agreeable false 0 (λ b. calls agreeable false 0 (reaction b)) life 1 connected)
      (λ _ w'. Watched nobody (owning 1) 1 0 w')
happenings-Watched_example =
    happenings-Watched agreeable false 0 nobody (owning 1) 1 (omega arith) (omega arith)
      (λ b. calls agreeable false 0 (reaction b))
      (λ b k few.
        calls-Behaves agreeable false 0 nobody (owning 1) 1 (omega arith) (omega arith) k
          (reaction b) few)
      life connected (Opcmd.unknown, idle-Watches)

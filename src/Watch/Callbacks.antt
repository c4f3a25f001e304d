-- ===== src/Watch/Callbacks.antt =====
-- The callbacks of the classes of Watch.Classes, and any order of commands and callbacks.
use uvcc.Prelude.{
  ℕ, ◌+◌, ◌<◌, ◌≤◌, refl, inl, inr, Bool, true, false, List, [], ◌∷◌, arith, Bool-cases,
}
use uvcc.Prelude.Int.{ℤ}
use uvcc.Utility.RefCount.{long_mod}
use uvcc.Runtime.{World, Opcmd, M, LibUv, pure, ◌>>=◌, ◌>>◌}
use uvcc.Runtime.Ends.{Ends, Ends-then, Ends-weaken}
use uvcc.Handle.{set_status}
use uvcc.Handle.Observed.{recount, set_status-Shows, unref-Shows}
use uvcc.Watch.{is_oneshot, notify}
use uvcc.Watch.State.{
  opcmd, held, Watches, Watched, Behaves, IsQuiet, set_opcmd-Shows, notify_lem, notify_quiet,
}
use uvcc.Watch.Classes.{idle_cb, prepare_cb, check_cb, poll_cb, fs_event_cb, signal_cb}
use uvcc.Watch.Machine.{
  Command, Callback, idle_fires, prepare_fires, check_fires, signal_fires, poll_fires,
  fs_event_fires, command, fire, command-reaches,
}

-- What happens to a handle: the program calls a function, or libuv calls back.
pub data Happening : Type 0 where
  does : Command → Happening
  fires : Callback → Happening

module _ (uv : LibUv) (uncaught : Bool) (fuel : ℕ) where
  -- A callback of the user that calls functions of its handle.
  pub calls : List Command → ℕ → M (Unit {0})
  calls [] p = pure tt
  calls (c ∷ cs) p = do _ ← command uv uncaught fuel c p; calls cs p

  pub happen : (user : Bool → ℕ → M (Unit {0})) → Happening → ℕ → M (Unit {0})
  happen user (does c) p = do _ ← command uv uncaught fuel c p; pure tt
  happen user (fires c) p = fire uv uncaught fuel user c p

  pub happenings : (user : Bool → ℕ → M (Unit {0})) → List Happening → ℕ → M (Unit {0})
  happenings user [] p = pure tt
  happenings user (x ∷ xs) p = do happen user x p; happenings user xs p

module _ (uv : LibUv) (uncaught : Bool) (fuel : ℕ) (others own : ℕ → ℕ) (p : ℕ) (user : 0 < own p)
    (room : own p + 4 < long_mod) where
  -- A callback that starts and stops its handle behaves.
  pub calls-Behaves :
      (k : ℕ) (cs : List Command) → k ≤ 2 → Behaves others own p k (calls uv uncaught fuel cs)
  unfolding calls
  calls-Behaves k [] few w h = (tt, w, refl, h)
  calls-Behaves k (c ∷ cs) few w (s, h) =
      Ends-then _ _ _ _ (command-reaches uv uncaught fuel others own p k user (omega arith) c s w h)
        λ a w1 h1. calls-Behaves k cs few w1 (_, h1)

  module _ (f : Bool → ℕ → M (Unit {0}))
      (behaves : (b : Bool) (k : ℕ) → k ≤ 2 → Behaves others own p k (f b)) where
    plain_lem :
        (w : World)
        → Watched others own p 0 w
        → Ends (notify uv uncaught fuel (f false) p w) (λ _ w'. Watched others own p 0 w')
    plain_lem w h =
        notify_lem uv uncaught fuel others own p 0 user (omega arith) (f false) w
          (behaves false 1 (omega arith)) h

    status_lem :
        (status : ℤ) (w : World)
        → Watched others own p 0 w
        → Ends
            ((do _ ← set_status p status; notify uv uncaught fuel (f false) p) w)
            (λ _ w'. Watched others own p 0 w')
    status_lem status w (s, h) =
        Ends-then _ _ _ _ (set_status-Shows opcmd others own p (held s + 0) s w status h)
          λ _ w1 (_, h1). plain_lem w1 (s, h1)

    signal_cb_lem :
        (w : World)
        → Watched others own p 0 w
        → Ends (signal_cb uv uncaught fuel f p w) (λ _ w'. Watched others own p 0 w')
    unfolding signal_cb
    signal_cb_lem w (s, (i, inv, e, st)) = elim (Bool-cases (is_oneshot s)) [
      | inl once ↦
          rw (e, st, once)
            (Ends-then _ _ _ _
              (set_opcmd-Shows others own p (held s + 0) s Opcmd.unknown w (i, inv, e, st))
              λ _ w1 h1.
                Ends-then _ _ _ _
                  (notify_lem uv uncaught fuel others own p 1 user (omega arith) (f true) w1
                    (behaves true 2 (omega arith))
                    (
                      Opcmd.unknown,
                      recount opcmd others own p Opcmd.unknown w1 (ground (arith, once)) h1,
                    ))
                  λ _ w2 (s2, h2).
                    Ends-weaken _ _ _
                      (unref-Shows opcmd others own p uv uncaught fuel (held s2 + 0) s2 w2
                        (omega arith) (ground arith)
                        (recount opcmd others own p s2 w2 (omega arith) h2))
                      λ _ w3 h3. (s2, h3))
      | inr more ↦ rw (e, st, more) (plain_lem w (s, (i, inv, e, st)))
    ]

    fire-Watched :
        (c : Callback) (w : World)
        → Watched others own p 0 w
        → Ends (fire uv uncaught fuel f c p w) (λ _ w'. Watched others own p 0 w')
    unfolding fire idle_cb prepare_cb check_cb poll_cb fs_event_cb
    fire-Watched idle_fires = plain_lem
    fire-Watched prepare_fires = plain_lem
    fire-Watched check_fires = plain_lem
    fire-Watched signal_fires = signal_cb_lem
    fire-Watched (poll_fires status) = status_lem status
    fire-Watched (fs_event_fires status) = status_lem status

    happen-Watched :
        (x : Happening) (w : World)
        → Watched others own p 0 w
        → Ends (happen uv uncaught fuel f x p w) (λ _ w'. Watched others own p 0 w')
    unfolding happen
    happen-Watched (does c) w (s, h) =
        Ends-then _ _ _ _
          (command-reaches uv uncaught fuel others own p 0 user (omega arith) c s w h)
          λ a w1 h1. (tt, w1, refl, (_, h1))
    happen-Watched (fires c) w h = fire-Watched c w h

    -- Whatever the program calls and libuv calls back, in any order, the run ends, and with it the
    -- counts are right for the state that the handle is in: one reference of its own if it is started
    -- and none otherwise. It is given that a callback of the user ends with the counts right, whatever
    -- it starts and stops, and that the program holds a reference to the handle.
    pub happenings-Watched :
        (xs : List Happening) (w : World)
        → Watched others own p 0 w
        → Ends (happenings uv uncaught fuel f xs p w) (λ _ w'. Watched others own p 0 w')
    unfolding happenings
    happenings-Watched [] w h = (tt, w, refl, h)
    happenings-Watched (x ∷ xs) w h =
        Ends-then _ _ _ _ (happen-Watched x w h) λ _ w1 h1. happenings-Watched xs w1 h1

  -- A signal watched for once gives up its reference behind the first callback: if the callback
  -- leaves the handle alone, the state is UNKNOWN and the counts are those of before the start.
  signal_cb-once :
      (f : Bool → ℕ → M (Unit {0})) (w : World)
      → IsQuiet others own p (f true)
      → Watches others own p 0 Opcmd.start_oneshot w
      → Ends (signal_cb uv uncaught fuel f p w) (λ _ w'. Watches others own p 0 Opcmd.unknown w')
  unfolding signal_cb
  signal_cb-once f w quiet (i, inv, e, st) =
      rw (e, st)
        (Ends-then _ _ _ _
          (set_opcmd-Shows others own p 1 Opcmd.start_oneshot Opcmd.unknown w (i, inv, e, st))
          λ _ w1 h1.
            Ends-then _ _ _ _
              (notify_quiet uv uncaught fuel others own p 1 user (omega arith) (f true)
                Opcmd.unknown w1 quiet h1)
              λ _ w2 h2.
                unref-Shows opcmd others own p uv uncaught fuel 0 Opcmd.unknown w2 (omega arith)
                  (omega arith) h2)

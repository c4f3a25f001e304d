-- ===== src/Watch/Machine.antt =====
-- The classes of Watch.Classes as machines of one kind: whatever is started, stopped and called back,
-- the handle holds a reference to itself in the states START and START_ONESHOT and none in the others.
use uvcc.Prelude.{ℕ, ◌+◌, ◌<◌, ◌≡◌, refl, ◌∙◌, Bool, true, false, if◌then◌else◌}
use uvcc.Prelude.Int.{ℤ}
use uvcc.Utility.RefCount.{long_mod}
use uvcc.Runtime.{
  World, HandleBody, Opcmd, M, LibUv, ◌>>◌, Call, call, uv_idle_start, uv_idle_stop,
  uv_prepare_start, uv_prepare_stop, uv_check_start, uv_check_stop, uv_poll_start, uv_poll_stop,
  uv_signal_start, uv_signal_stop, uv_fs_event_start, uv_fs_event_stop,
}
use uvcc.Runtime.Ends.{Ends, Ends-then, Ends-weaken}
use uvcc.Handle.{update}
use uvcc.Handle.Observed.{set_status-Shows, update-Shows, call-Shows}
use uvcc.Watch.{is_started, set_event_cb, start_as, stop_as}
use uvcc.Watch.State.{opcmd, held, entered, Watches, IsQuiet, start_as_lem, stop_as_lem}
use uvcc.Watch.Classes.{
  leave, set_signum, set_path, idle_start, idle_start_with, idle_stop, idle_cb, prepare_start,
  prepare_start_with, prepare_stop, prepare_cb, check_start, check_start_with, check_stop, check_cb,
  poll_start, poll_start_with, poll_stop, poll_cb, fs_event_start, fs_event_start_with,
  fs_event_start_at, fs_event_stop, fs_event_cb, signal_start_as, signal_start, signal_start_with,
  signal_start_at, signal_start_oneshot, signal_stop, signal_cb,
}

-- A call of one of the functions of the classes.
pub data Command : Type 0 where
  idle_starts idle_starts_with idle_stops : Command
  prepare_starts prepare_starts_with prepare_stops : Command
  check_starts check_starts_with check_stops : Command
  poll_starts poll_starts_with : (events : ℤ) → Command
  poll_stops : Command
  fs_event_starts fs_event_starts_with : Command
  fs_event_starts_at : (path : ℕ) → Command
  fs_event_stops : Command
  signal_starts signal_starts_with signal_starts_oneshot : Command
  signal_starts_at : (signum : ℤ) → Command
  signal_stops : Command

-- A callback from libuv, with the status if it gets one.
pub data Callback : Type 0 where
  idle_fires prepare_fires check_fires signal_fires : Callback
  poll_fires fs_event_fires : (status : ℤ) → Callback

-- The state that a command is to bring the handle to.
abbrev pub target : Command → Opcmd
target idle_stops = Opcmd.stop
target prepare_stops = Opcmd.stop
target check_stops = Opcmd.stop
target poll_stops = Opcmd.stop
target fs_event_stops = Opcmd.stop
target signal_stops = Opcmd.stop
target signal_starts_oneshot = Opcmd.start_oneshot
target c = Opcmd.start

module _ (uv : LibUv) (uncaught : Bool) (fuel : ℕ) where
  pub command : Command → ℕ → M ℤ
  command idle_starts = idle_start uv uncaught fuel
  command idle_starts_with = idle_start_with uv uncaught fuel
  command idle_stops = idle_stop uv uncaught fuel
  command prepare_starts = prepare_start uv uncaught fuel
  command prepare_starts_with = prepare_start_with uv uncaught fuel
  command prepare_stops = prepare_stop uv uncaught fuel
  command check_starts = check_start uv uncaught fuel
  command check_starts_with = check_start_with uv uncaught fuel
  command check_stops = check_stop uv uncaught fuel
  command (poll_starts events) = poll_start uv uncaught fuel events
  command (poll_starts_with events) = poll_start_with uv uncaught fuel events
  command poll_stops = poll_stop uv uncaught fuel
  command fs_event_starts = fs_event_start uv uncaught fuel
  command fs_event_starts_with = fs_event_start_with uv uncaught fuel
  command (fs_event_starts_at path) = fs_event_start_at uv uncaught fuel path
  command fs_event_stops = fs_event_stop uv uncaught fuel
  command signal_starts = signal_start uv uncaught fuel
  command signal_starts_with = signal_start_with uv uncaught fuel
  command signal_starts_oneshot = signal_start_oneshot uv uncaught fuel
  command (signal_starts_at signum) = signal_start_at uv uncaught fuel signum
  command signal_stops = signal_stop uv uncaught fuel

  unfoldable pub fire : (user : Bool → ℕ → M (Unit {0})) → Callback → ℕ → M (Unit {0})
  fire user idle_fires = idle_cb uv uncaught fuel (user false)
  fire user prepare_fires = prepare_cb uv uncaught fuel (user false)
  fire user check_fires = check_cb uv uncaught fuel (user false)
  fire user signal_fires = signal_cb uv uncaught fuel user
  fire user (poll_fires status) = poll_cb uv uncaught fuel (user false) status
  fire user (fs_event_fires status) = fs_event_cb uv uncaught fuel (user false) status

module _ (uv : LibUv) (others own : ℕ → ℕ) (p : ℕ) where
  call-IsQuiet : (c : ℕ → Call) → IsQuiet others own p (λ q. call uv (c q))
  call-IsQuiet c n s w h =
      Ends-weaken _ _ _ (call-Shows opcmd others own p n s w uv (c p) h) λ _ w' (_, h'). h'

module _ (uv : LibUv) (uncaught : Bool) (fuel : ℕ) (others own : ℕ → ℕ) (p k : ℕ) (user : 0 < own p)
    (room : own p + k + 2 < long_mod) where
  abbrev Starts : M ℤ → Opcmd → Type 0
  Starts m s' =
      (s : Opcmd) (w : World)
      → Watches others own p k s w
      → Ends (m w) (λ a w'. Watches others own p k (entered s' a) w')

  abbrev Stops : M ℤ → Type 0
  Stops m =
      (s : Opcmd) (w : World)
      → Watches others own p k s w
      → Ends (m w) (λ _ w'. Watches others own p k Opcmd.stop w')

  Starts-by :
      (c : ℕ → Call) (s' : Opcmd)
      → is_started s' ≡ true
      → Starts (start_as uv uncaught fuel leave (λ q. call uv (c q)) s' p) s'
  Starts-by c s' is s w h =
      start_as_lem uv uncaught fuel others own p k user room leave (λ q. call uv (c q)) s s' w
        (λ n s w h. (tt, w, refl, h)) (call-IsQuiet uv others own p c) is h

  Stops-by : (c : ℕ → Call) → Stops (stop_as uv uncaught fuel (λ q. call uv (c q)) p)
  Stops-by c s w h =
      stop_as_lem uv uncaught fuel others own p k user room (λ q. call uv (c q)) s w
        (call-IsQuiet uv others own p c) h

  -- Properties set before a start.
  Starts-after :
      (f : HandleBody → HandleBody) (m : M ℤ) (s' : Opcmd)
      → ((b : HandleBody) → (f b).loop_instance_ptr ≡ b.loop_instance_ptr)
      → ((b : HandleBody) → (f b).opcmd_state ≡ b.opcmd_state)
      → Starts m s'
      → Starts (do update f p; m) s'
  Starts-after f m s' booked shows starts s w h =
      Ends-then _ _ _ _
        (update-Shows opcmd others own p f (held s + k) s s w booked (λ b e. shows b ∙ e) h)
        λ _ w1 h1. starts s w1 h1

  fs_event_start_lem : Starts (fs_event_start uv uncaught fuel p) Opcmd.start
  unfolding fs_event_start
  fs_event_start_lem s w h =
      start_as_lem uv uncaught fuel others own p k user room _ _ s Opcmd.start w
        (λ n s w h.
          Ends-then _ _ _ _ (call-Shows opcmd others own p n s w uv (uv_fs_event_stop p) h)
            λ r w1 (_, h1).
              Ends-then _ _ _ _ (set_status-Shows opcmd others own p n s w1 r h1)
                λ _ w2 (_, h2). (tt, w2, refl, h2))
        (λ n s w (i, inv, e, st). rw e (
          Ends-weaken _ _ _
            (call-Shows opcmd others own p n s w uv
              (uv_fs_event_start p i.body.path i.body.event_flags) (i, inv, e, st))
            λ _ w' (_, h'). h'))
        refl h

  signal_start_lem :
      (s' : Opcmd) → is_started s' ≡ true → Starts (signal_start_as uv uncaught fuel s' p) s'
  unfolding signal_start_as
  signal_start_lem s' is s w h = rw is (
      start_as_lem uv uncaught fuel others own p k user room leave _ s s' w
        (λ n s w h. (tt, w, refl, h))
        (λ n s w (i, inv, e, st). rw e (
          Ends-weaken _ _ _
            (call-Shows opcmd others own p n s w uv (uv_signal_start p i.body.signum)
              (i, inv, e, st))
            λ _ w' (_, h'). h'))
        is h)

  with_callback : (m : M ℤ) (s' : Opcmd) → Starts m s' → Starts (do set_event_cb true p; m) s'
  unfolding set_event_cb
  with_callback m s' =
      Starts-after (λ b. record b { has_event_cb = true }) m s' (λ b. refl) (λ b. refl)

  -- The state that a command leaves, by its result.
  abbrev pub reached : Command → ℤ → Opcmd
  reached c r = if is_started (target c) then entered (target c) r else target c

  -- Every `start` and every `stop`, of whichever class and from every state, ends; a `start` leaves
  -- the state START (START_ONESHOT) if libuv accepts it and UNKNOWN if not, a `stop` leaves STOP;
  -- and the handle holds a reference to itself in the states START and START_ONESHOT and none in the
  -- others. It is given that the caller holds a reference to the handle.
  pub command-reaches :
      (c : Command) (s : Opcmd) (w : World)
      → Watches others own p k s w
      → Ends (command uv uncaught fuel c p w) (λ a w'. Watches others own p k (reached c a) w')
  unfolding command idle_start idle_start_with idle_stop prepare_start prepare_start_with
      prepare_stop check_start check_start_with check_stop poll_start poll_start_with poll_stop
      fs_event_start_with fs_event_start_at fs_event_stop signal_start signal_start_with
      signal_start_at signal_start_oneshot signal_stop set_path set_signum
  command-reaches idle_starts = Starts-by uv_idle_start Opcmd.start refl
  command-reaches idle_starts_with =
      with_callback _ Opcmd.start (Starts-by uv_idle_start Opcmd.start refl)
  command-reaches idle_stops = Stops-by uv_idle_stop
  command-reaches prepare_starts = Starts-by uv_prepare_start Opcmd.start refl
  command-reaches prepare_starts_with =
      with_callback _ Opcmd.start (Starts-by uv_prepare_start Opcmd.start refl)
  command-reaches prepare_stops = Stops-by uv_prepare_stop
  command-reaches check_starts = Starts-by uv_check_start Opcmd.start refl
  command-reaches check_starts_with =
      with_callback _ Opcmd.start (Starts-by uv_check_start Opcmd.start refl)
  command-reaches check_stops = Stops-by uv_check_stop
  command-reaches (poll_starts events) = Starts-by (λ q. uv_poll_start q events) Opcmd.start refl
  command-reaches (poll_starts_with events) =
      with_callback _ Opcmd.start (Starts-by (λ q. uv_poll_start q events) Opcmd.start refl)
  command-reaches poll_stops = Stops-by uv_poll_stop
  command-reaches fs_event_starts = fs_event_start_lem
  command-reaches fs_event_starts_with = with_callback _ Opcmd.start fs_event_start_lem
  command-reaches (fs_event_starts_at path) =
      Starts-after (λ b. record b { path = path }) _ Opcmd.start (λ b. refl) (λ b. refl)
        (with_callback _ Opcmd.start fs_event_start_lem)
  command-reaches fs_event_stops = Stops-by uv_fs_event_stop
  command-reaches signal_starts = signal_start_lem Opcmd.start refl
  command-reaches signal_starts_with =
      with_callback _ Opcmd.start (signal_start_lem Opcmd.start refl)
  command-reaches signal_starts_oneshot = signal_start_lem Opcmd.start_oneshot refl
  command-reaches (signal_starts_at signum) =
      Starts-after (λ b. record b { signum = signum }) _ Opcmd.start (λ b. refl) (λ b. refl)
        (with_callback _ Opcmd.start (signal_start_lem Opcmd.start refl))
  command-reaches signal_stops = Stops-by uv_signal_stop

-- ===== src/Watch/Classes.antt =====
-- src/include/uvcc/handle-misc.hpp: idle, prepare, check, poll and signal, and handle-fs.hpp: fs_event.
-- The functions that take a callback bind it, so that it is never empty afterwards.
use uvcc.Prelude.{ℕ, Bool, true, false, if◌then◌else◌}
use uvcc.Prelude.Int.{ℤ}
use uvcc.Runtime.{
  Opcmd, throws, M, LibUv, pure, ◌>>=◌, ◌>>◌, call, uv_idle_start, uv_idle_stop, uv_prepare_start,
  uv_prepare_stop, uv_check_start, uv_check_stop, uv_poll_start, uv_poll_stop, uv_signal_start,
  uv_signal_stop, uv_fs_event_start, uv_fs_event_stop,
}
use uvcc.Handle.{load, update, set_status, unref}
use uvcc.Watch.{is_started, is_oneshot, set_opcmd, set_event_cb, start_as, stop_as, notify}

-- Nothing is done for a handle that has been started.
abbrev pub leave : ℕ → M (Unit {0})
leave p = pure tt

unfoldable pub set_signum : ℤ → ℕ → M (Unit {0})
set_signum n = update λ b. record b { signum = n }

unfoldable pub set_path : ℕ → ℕ → M (Unit {0})
set_path path = update λ b. record b { path = path }

module _ (uv : LibUv) (uncaught : Bool) (fuel : ℕ) where
  unfoldable pub idle_start : ℕ → M ℤ
  idle_start = start_as uv uncaught fuel leave (λ p. call uv (uv_idle_start p)) Opcmd.start

  unfoldable pub idle_start_with : ℕ → M ℤ
  idle_start_with p = do set_event_cb true p; idle_start p

  unfoldable pub idle_stop : ℕ → M ℤ
  idle_stop = stop_as uv uncaught fuel (λ p. call uv (uv_idle_stop p))

  unfoldable pub idle_cb : (user : ℕ → M (Unit {0})) → ℕ → M (Unit {0})
  idle_cb user p = notify uv uncaught fuel user p

  unfoldable pub prepare_start : ℕ → M ℤ
  prepare_start = start_as uv uncaught fuel leave (λ p. call uv (uv_prepare_start p)) Opcmd.start

  unfoldable pub prepare_start_with : ℕ → M ℤ
  prepare_start_with p = do set_event_cb true p; prepare_start p

  unfoldable pub prepare_stop : ℕ → M ℤ
  prepare_stop = stop_as uv uncaught fuel (λ p. call uv (uv_prepare_stop p))

  unfoldable pub prepare_cb : (user : ℕ → M (Unit {0})) → ℕ → M (Unit {0})
  prepare_cb user p = notify uv uncaught fuel user p

  unfoldable pub check_start : ℕ → M ℤ
  check_start = start_as uv uncaught fuel leave (λ p. call uv (uv_check_start p)) Opcmd.start

  unfoldable pub check_start_with : ℕ → M ℤ
  check_start_with p = do set_event_cb true p; check_start p

  unfoldable pub check_stop : ℕ → M ℤ
  check_stop = stop_as uv uncaught fuel (λ p. call uv (uv_check_stop p))

  unfoldable pub check_cb : (user : ℕ → M (Unit {0})) → ℕ → M (Unit {0})
  check_cb user p = notify uv uncaught fuel user p

  unfoldable pub poll_start : (events : ℤ) → ℕ → M ℤ
  poll_start events =
      start_as uv uncaught fuel leave (λ p. call uv (uv_poll_start p events)) Opcmd.start

  unfoldable pub poll_start_with : (events : ℤ) → ℕ → M ℤ
  poll_start_with events p = do set_event_cb true p; poll_start events p

  unfoldable pub poll_stop : ℕ → M ℤ
  poll_stop = stop_as uv uncaught fuel (λ p. call uv (uv_poll_stop p))

  unfoldable pub poll_cb : (user : ℕ → M (Unit {0})) (status : ℤ) → ℕ → M (Unit {0})
  poll_cb user status p = do _ ← set_status p status; notify uv uncaught fuel user p

  -- `fs_event::start()` stops a handle that has been started.
  unfoldable pub fs_event_start : ℕ → M ℤ
  fs_event_start =
      start_as uv uncaught fuel
        (λ p. do r ← call uv (uv_fs_event_stop p); _ ← set_status p r; pure tt)
        (λ p. do i ← load p; call uv (uv_fs_event_start p i.body.path i.body.event_flags))
        Opcmd.start

  unfoldable pub fs_event_start_with : ℕ → M ℤ
  fs_event_start_with p = do set_event_cb true p; fs_event_start p

  unfoldable pub fs_event_start_at : (path : ℕ) → ℕ → M ℤ
  fs_event_start_at path p = do set_path path p; set_event_cb true p; fs_event_start p

  unfoldable pub fs_event_stop : ℕ → M ℤ
  fs_event_stop = stop_as uv uncaught fuel (λ p. call uv (uv_fs_event_stop p))

  unfoldable pub fs_event_cb : (user : ℕ → M (Unit {0})) (status : ℤ) → ℕ → M (Unit {0})
  fs_event_cb user status p = do _ ← set_status p status; notify uv uncaught fuel user p

  -- `signal::start(opcmd)`
  unfoldable pub signal_start_as : Opcmd → ℕ → M ℤ
  signal_start_as s p =
      if is_started s
      then start_as uv uncaught fuel leave
          (λ p. do i ← load p; call uv (uv_signal_start p i.body.signum)) s p
      else (λ _. throws)

  unfoldable pub signal_start : ℕ → M ℤ
  signal_start = signal_start_as Opcmd.start

  unfoldable pub signal_start_with : ℕ → M ℤ
  signal_start_with p = do set_event_cb true p; signal_start_as Opcmd.start p

  unfoldable pub signal_start_at : (signum : ℤ) → ℕ → M ℤ
  signal_start_at signum p = do
    set_signum signum p
    set_event_cb true p
    signal_start_as Opcmd.start p

  unfoldable pub signal_start_oneshot : ℕ → M ℤ
  signal_start_oneshot = signal_start_as Opcmd.start_oneshot

  unfoldable pub signal_stop : ℕ → M ℤ
  signal_stop = stop_as uv uncaught fuel (λ p. call uv (uv_signal_stop p))

  -- The callback of the user also gets whether the signal was watched for once.
  unfoldable pub signal_cb : (user : Bool → ℕ → M (Unit {0})) → ℕ → M (Unit {0})
  signal_cb user p = do
    i ← load p
    if is_oneshot i.body.opcmd_state
        then (do
          set_opcmd Opcmd.unknown p
          notify uv uncaught fuel (user true) p
          unref uv uncaught fuel p)
        else notify uv uncaught fuel (user false) p

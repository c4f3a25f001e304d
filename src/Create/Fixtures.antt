-- ===== src/Create/Fixtures.antt =====
-- libuv that initialises handles, for the tests.
use uvcc.Prelude.{ℕ, refl, some}
use uvcc.Prelude.Int.{ℤ, pos}
use uvcc.Runtime.{ok, M, HandleType, put, found}
use uvcc.Create.Constructors.{Initialises}
use uvcc.Create.Kinds.{AllInitialise}
use uvcc.Create.Classes.{Initialisers}

-- An initialiser that puts the handle on the loop, with the type given.
abbrev pub initialise : HandleType → ℕ → ℕ → M ℤ
initialise type l p w = found (w.handles p) λ i. ok (pos 0) (record w {
  handles = put w.handles p (some (record i { body = record i.body { type = type; loop = l } }));
  trace = w.trace;
})

pub initialise_lem : (type : HandleType) (l p : ℕ) → Initialises (initialise type) l p
initialise_lem type l p w i e =
    (pos 0, _, rw e refl, (record i.body { type = type; loop = l }, w.trace, refl, refl, λ _. refl))

abbrev pub libuv : Initialisers
libuv = record {
  uv_async_init = initialise HandleType.async;
  uv_timer_init = initialise HandleType.timer;
  uv_idle_init = initialise HandleType.idle;
  uv_prepare_init = initialise HandleType.prepare;
  uv_check_init = initialise HandleType.check;
  uv_signal_init = initialise HandleType.signal;
  uv_poll_init = λ _. initialise HandleType.poll;
  uv_fs_event_init = initialise HandleType.fs_event;
  uv_tcp_init = initialise HandleType.tcp;
  uv_tcp_init_ex = λ _. initialise HandleType.tcp;
  uv_udp_init = initialise HandleType.udp;
  uv_udp_init_ex = λ _. initialise HandleType.udp;
  uv_pipe_init = λ _. initialise HandleType.named_pipe;
  uv_tty_init = λ _ _. initialise HandleType.tty;
  uv_fs_open = λ _. initialise HandleType.file;
}

pub libuv-AllInitialise : (l p : ℕ) → AllInitialise libuv l p
libuv-AllInitialise l p = record {
  of_async = initialise_lem HandleType.async l p;
  of_timer = initialise_lem HandleType.timer l p;
  of_idle = initialise_lem HandleType.idle l p;
  of_prepare = initialise_lem HandleType.prepare l p;
  of_check = initialise_lem HandleType.check l p;
  of_signal = initialise_lem HandleType.signal l p;
  of_poll = λ _. initialise_lem HandleType.poll l p;
  of_fs_event = initialise_lem HandleType.fs_event l p;
  of_tcp = initialise_lem HandleType.tcp l p;
  of_tcp_ex = λ _. initialise_lem HandleType.tcp l p;
  of_udp = initialise_lem HandleType.udp l p;
  of_udp_ex = λ _. initialise_lem HandleType.udp l p;
  of_pipe = λ _. initialise_lem HandleType.named_pipe l p;
  of_tty = λ _ _. initialise_lem HandleType.tty l p;
  of_file = λ _. initialise_lem HandleType.file l p;
}

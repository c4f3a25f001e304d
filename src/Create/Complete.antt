-- ===== src/Create/Complete.antt =====
-- Each constructor leaves a handle with one reference that has booked its loop, or has failed.
use uvcc.Prelude.{ℕ, ◌<◌, ◌≡◌, refl, ◌∙◌, inl, inr, Bool, false, not, none, Bool-cases}
use uvcc.Prelude.Int.{ℤ, is_negative}
use uvcc.Runtime.{
  World, Instance, HandleBody, M, LibUv, pure, ◌>>=◌, ◌>>◌, when, call, uv_timer_set_repeat,
  uv_tcp_open, uv_udp_open, uv_pipe_open, uv_pipe_bind,
}
use uvcc.Runtime.Ends.{Ends, Ends-then, Ends-weaken}
use uvcc.Handle.Counted.{Inv}
use uvcc.Handle.{load, update, set_status, book_loop}
use uvcc.Create.{fresh, create, create_file, book_if, construct}
use uvcc.Create.Booking.{
  Roomy, Made, create_lem, create_file_lem, status-Made, update-Made, call-Made, book_lem,
}
use uvcc.Create.Constructors.{
  Initialises, Created, Settled, Settled-Created, init-Made, book_if_lem, construct_lem,
}
use uvcc.Create.Kinds.{
  AllInitialise, Constructor, an_async, an_idle, a_prepare, a_check, a_process, a_timer, a_poll,
  a_signal, an_fs_event, a_tcp, a_udp, a_tcp_socket, a_udp_socket, a_pipe, a_named_pipe, a_pipe_fd,
  a_tty, a_file, a_file_fd, discard, build,
}
use uvcc.Create.Continuing.{
  Continues, status-Continues, blocking-Continues, then-Continues, opened-Continues,
  error-Continues,
}
use uvcc.Create.Classes.{
  Initialisers, async_create, timer_create, idle_create, prepare_create, check_create, poll_create,
  signal_create, fs_event_create, process_create, tcp_create, tcp_open, udp_create, udp_open,
  pipe_create, pipe_bind, pipe_open, tty_create, file_open, file_of,
}

module _ (uv : LibUv) (uncaught : Bool) (fuel : ℕ) (inits : Initialisers) (others own : ℕ → ℕ)
    (l p : ℕ) (nz : 0 < l) where
  module _ (does : AllInitialise inits l p) (w : World) (inv : Inv others w own)
      (free : w.handles p ≡ none) (roomy : Roomy others own l p w) where
    discard_lem :
        (m : M ℤ)
        → Ends (m w) (λ a w'. Settled others own l p a w')
        → Ends (discard m w) (λ _ w'. Created others own l p w')
    discard_lem m h =
        Ends-then _ _ _ _ h λ r w1 s. (tt, w1, refl, Settled-Created others own l p r w1 s)

    plain :
        (init : ℕ → ℕ → M ℤ)
        → Initialises init l p
        → Ends (discard (construct uv uncaught fuel init l p) w) (λ _ w'. Created others own l p w')
    plain init does' =
        discard_lem (construct uv uncaught fuel init l p)
          (construct_lem others own l p uv uncaught fuel nz init w does' inv free roomy)

    -- Properties set before the status is looked at.
    with_property :
        (init : ℕ → ℕ → M ℤ) (f : HandleBody → HandleBody)
        → Initialises init l p
        → ((b : HandleBody) → (f b).loop_instance_ptr ≡ b.loop_instance_ptr)
        → ((b : HandleBody) → (f b).loop ≡ b.loop)
        → Ends
            (discard (do create p; ret ← init l p; update f p; book_if uv uncaught fuel p ret) w)
            (λ _ w'. Created others own l p w')
    with_property init f does' same on =
        discard_lem (do create p; ret ← init l p; update f p; book_if uv uncaught fuel p ret)
          (Ends-then _ _ _ _ (create_lem others own l p w inv free roomy) λ _ w1 made.
            Ends-then _ _ _ _ (init-Made others own l p init w1 _ does' made)
              λ r w2 (b, made2, unbooked, sits).
                Ends-then _ _ _ _ (update-Made others own l p f w2 _ (same b) made2) λ _ w3 made3.
                  book_if_lem others own l p uv uncaught fuel nz w3 _ r made3 (same b ∙ unbooked)
                    (λ nonneg. on b ∙ sits nonneg))

    -- A call behind the initialisation of a timer, before it books its loop.
    timer_settles :
        (r : ℤ) (b : HandleBody) (w1 : World) (interval : ℕ)
        → Made others own l p (record fresh { body = b }) w1
        → b.loop_instance_ptr ≡ 0
        → (is_negative r ≡ false → b.loop ≡ l)
        → Ends
            ((do
              _ ← set_status p r
              when
                  (not (is_negative r))
                  (do _ ← call uv (uv_timer_set_repeat p interval); book_loop uv uncaught fuel p)
              pure r)
              w1)
            (λ a w'. Created others own l p w')
    timer_settles r b w1 interval made unbooked on = elim (Bool-cases (is_negative r)) [
      | inl neg ↦ rw neg (
          Ends-then _ _ _ _ (status-Made others own l p w1 _ r made)
            λ _ w2 (_, (inv2, e2, _)). (r, w2, refl, (_, inv2, e2, inr (unbooked, neg))))
      | inr nonneg ↦ rw nonneg (
          Ends-then _ _ _ _ (status-Made others own l p w1 _ r made) λ _ w2 (_, made2).
            Ends-then _ _ _ _
              (call-Made others own l p w2 _ uv (uv_timer_set_repeat p interval) made2)
              λ _ w3 made3.
                Ends-then _ _ _ _
                  (book_lem others own l p uv uncaught fuel w3
                    (record fresh { uv_error = r; body = b }) nz unbooked (on nonneg) made3)
                  λ _ w4 (inv4, e4). (r, w4, refl, (_, inv4, e4, inl refl)))
    ]

    timer_lem :
        (interval : ℕ)
        → Ends
            (timer_create uv uncaught fuel inits interval l p w)
            (λ _ w'. Created others own l p w')
    unfolding timer_create
    timer_lem interval = Ends-then _ _ _ _ (create_lem others own l p w inv free roomy) λ _ w1 made.
        Ends-then _ _ _ _ (init-Made others own l p inits.uv_timer_init w1 _ does.of_timer made)
          λ r w2 (b, made2, unbooked, on). timer_settles r b w2 interval made2 unbooked on

    followed :
        (init : ℕ → ℕ → M ℤ) (m : M (Unit {0}))
        → Initialises init l p
        → Continues uv uncaught fuel inits others own l p nz m
        → Ends
            ((do ret ← construct uv uncaught fuel init l p; when (not (is_negative ret)) m) w)
            (λ _ w'. Created others own l p w')
    followed init m does' on =
        Ends-then _ _ _ _
          (construct_lem others own l p uv uncaught fuel nz init w does' inv free roomy)
          λ r w1 s. then-Continues uv uncaught fuel inits others own l p nz r m w1 on s

    checked :
        (ipc : Bool) (m : M (Unit {0}))
        → Continues uv uncaught fuel inits others own l p nz m
        → Ends
            ((do
              _ ← pipe_create uv uncaught fuel inits ipc l p
              i ← load p
              when (not (is_negative i.uv_error)) m)
              w)
            (λ _ w'. Created others own l p w')
    unfolding pipe_create
    checked ipc m on =
        Ends-then _ _ _ _
          (construct_lem others own l p uv uncaught fuel nz (inits.uv_pipe_init ipc) w
            (does.of_pipe ipc) inv free roomy)
          λ r w1 s. error-Continues uv uncaught fuel inits others own l p nz r m w1 on s

    file_lem :
        (path : ℕ)
        → Ends (file_open uv uncaught fuel inits path l p w) (λ a w'. Settled others own l p a w')
    unfolding file_open
    file_lem path = Ends-then _ _ _ _ (create_file_lem others own l p w inv free roomy) λ _ w1 made.
        Ends-then _ _ _ _
          (init-Made others own l p (inits.uv_fs_open path) w1 _ (does.of_file path) made)
          λ r w2 (b, made2, unbooked, on).
            book_if_lem others own l p uv uncaught fuel nz w2 _ r made2 unbooked on

    -- A constructor that puts the handle on the loop itself.
    placed :
        (m : M (Unit {0})) (i : Instance HandleBody) (f : HandleBody → HandleBody)
        → Ends (m w) (λ _ w'. Made others own l p i w')
        → (f i.body).loop_instance_ptr ≡ i.body.loop_instance_ptr
        → i.body.loop_instance_ptr ≡ 0
        → (f i.body).loop ≡ l
        → Ends
            ((do m; update f p; book_loop uv uncaught fuel p) w)
            (λ _ w'. Created others own l p w')
    placed m i f makes same unbooked on = Ends-then _ _ _ _ makes λ _ w1 made.
        Ends-then _ _ _ _ (update-Made others own l p f w1 i same made) λ _ w2 made2.
          Ends-weaken _ _ _
            (book_lem others own l p uv uncaught fuel w2 (record i { body = f i.body }) nz
              (same ∙ unbooked) on made2)
            λ _ w3 (inv3, e3). (_, inv3, e3, inl refl)

    -- Every constructor ends with a handle that has one reference, the caller's, and that either has
    -- booked the loop, or has booked none and has an error for its status; the references to the loop
    -- count that booking. It is given that libuv initialises handles as documented, that the address
    -- is free, and that the loop is alive with room for one reference more.
    pub build-Created :
        (c : Constructor)
        → Ends (build uv uncaught fuel inits c l p w) (λ _ w'. Created others own l p w')
    unfolding build async_create idle_create prepare_create check_create process_create poll_create
        signal_create fs_event_create tcp_create tcp_open udp_create udp_open pipe_bind pipe_open
        tty_create file_of pipe_create
    build-Created an_async = plain inits.uv_async_init does.of_async
    build-Created an_idle = plain inits.uv_idle_init does.of_idle
    build-Created a_prepare = plain inits.uv_prepare_init does.of_prepare
    build-Created a_check = plain inits.uv_check_init does.of_check
    build-Created a_process =
        placed (create p) _ (λ b. record b { loop = l })
          (create_lem others own l p w inv free roomy) refl refl refl
    build-Created (a_timer interval) =
        Ends-then _ _ _ _ (timer_lem interval) λ _ w1 h. (tt, w1, refl, h)
    build-Created (a_poll fd) = plain (inits.uv_poll_init fd) (does.of_poll fd)
    build-Created (a_signal signum) =
        with_property inits.uv_signal_init (λ b. record b { signum = signum }) does.of_signal
          (λ b. refl) (λ b. refl)
    build-Created (an_fs_event event_flags) =
        with_property inits.uv_fs_event_init (λ b. record b { event_flags = event_flags })
          does.of_fs_event (λ b. refl) (λ b. refl)
    build-Created (a_tcp flags) = plain (inits.uv_tcp_init_ex flags) (does.of_tcp_ex flags)
    build-Created (a_udp flags) = plain (inits.uv_udp_init_ex flags) (does.of_udp_ex flags)
    build-Created (a_tcp_socket socket blocking) =
        followed inits.uv_tcp_init _ does.of_tcp (
          opened-Continues uv uncaught fuel inits others own l p nz (uv_tcp_open p socket) blocking)
    build-Created (a_udp_socket socket) =
        followed inits.uv_udp_init _ does.of_udp
          (status-Continues uv uncaught fuel inits others own l p nz (uv_udp_open p socket))
    build-Created (a_pipe ipc) = plain (inits.uv_pipe_init ipc) (does.of_pipe ipc)
    build-Created (a_named_pipe name ipc) =
        checked ipc _
          (status-Continues uv uncaught fuel inits others own l p nz (uv_pipe_bind p name))
    build-Created (a_pipe_fd fd ipc blocking) =
        checked ipc _
          (opened-Continues uv uncaught fuel inits others own l p nz (uv_pipe_open p fd) blocking)
    build-Created (a_tty fd readable blocking) =
        followed (inits.uv_tty_init fd readable) _ (does.of_tty fd readable)
          (blocking-Continues uv uncaught fuel inits others own l p nz blocking)
    build-Created (a_file path) =
        discard_lem (file_open uv uncaught fuel inits path l p) (file_lem path)
    build-Created (a_file_fd fd path) =
        placed (create_file p) _
          (λ b. record b { loop = l; result = fd; path = path; is_closing = is_negative fd })
          (create_file_lem others own l p w inv free roomy) refl refl refl

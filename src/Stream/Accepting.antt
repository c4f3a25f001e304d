-- ===== src/Stream/Accepting.antt =====
-- What `accept` and `accept_pending_handle` make of the handles.
use uvcc.Prelude.{
  ℕ, ◌<◌, ◌≡◌, refl, inl, inr, ◌⊎◌, Bool, true, false, none, some, arith, ◌==◌, Bool-cases,
}
use uvcc.Prelude.Int.{ℤ, is_negative}
use uvcc.Runtime.{
  World, Instance, HandleBody, HandleType, named_pipe, tcp, tty, M, fault, LibUv, put, when, pure,
  ◌>>=◌, ◌>>◌, uv_accept,
}
use uvcc.Runtime.Counts.{gain, Counted-live}
use uvcc.Runtime.Ends.{Ends, Ends-then}
use uvcc.Handle.Counted.{Inv, modify-Inv, trace-Inv}
use uvcc.Handle.{set_status}
use uvcc.Create.{construct}
use uvcc.Create.Booking.{Roomy}
use uvcc.Create.Constructors.{Initialises, Created, Settled-Created, construct_lem}
use uvcc.Create.Classes.{Initialisers}
use uvcc.Stream.{take, accept_as, accept, accept_pending_as, accept_pending_handle}

module _ (others own : ℕ → ℕ) (l server client : ℕ) (held : 0 < own server)
    (other : (server == client) ≡ false) where
  -- The status of the server leaves the client.
  server_status :
      (w : World) (r : ℤ)
      → Created others own l client w
      → Ends (set_status server r w) (λ _ w'. Created others own l client w')
  unfolding set_status
  server_status w r (i, inv, e, booked) =
      let (j, live, _) =
        Counted-live w.handles (gain own client) server inv.1.counted (ground (arith, other)) in
      (
        r,
        record w { handles = put w.handles server (some (record j { uv_error = r })) },
        ground (arith, live),
        (
          i,
          modify-Inv others w (gain own client) server j (record j { uv_error = r }) inv live refl
              refl,
          ground (arith, e, other),
          booked,
        ),
      )

  -- So does an error that becomes the status of the client.
  client_status :
      (w : World) (r : ℤ)
      → is_negative r ≡ true
      → Created others own l client w
      → Ends (set_status client r w) (λ _ w'. Created others own l client w')
  unfolding set_status
  client_status w r neg (i, inv, e, booked) = (
    r,
    record w { handles = put w.handles client (some (record i { uv_error = r })) },
    ground (arith, e),
    (
      record i { uv_error = r },
      modify-Inv others w (gain own client) client i (record i { uv_error = r }) inv e refl refl,
      ground arith,
      still booked,
    ),
  )
    where
      still :
          ((i.body.loop_instance_ptr ≡ l)
            ⊎ ((i.body.loop_instance_ptr ≡ 0) × (is_negative i.uv_error ≡ true)))
          → (i.body.loop_instance_ptr ≡ l)
            ⊎ ((i.body.loop_instance_ptr ≡ 0) × (is_negative r ≡ true))
      still (inl on) = inl on
      still (inr (off, _)) = inr (off, neg)

  module _ (uv : LibUv) (uncaught : Bool) (fuel : ℕ) where
    client_if :
        (w : World) (r : ℤ)
        → Created others own l client w
        → Ends
            (when (is_negative r) (do _ ← set_status client r; pure tt) w)
            (λ _ w'. Created others own l client w')
    client_if w r h = elim (Bool-cases (is_negative r)) [
      | inl neg ↦ rw neg (
          Ends-then _ _ _ (λ _ w'. Created others own l client w') (client_status w r neg h)
            λ _ w' h'. (tt, w', refl, h'))
      | inr nonneg ↦ rw nonneg (tt, w, refl, h)
    ]

    -- The result of `uv_accept` on both handles.
    both_status :
        (w : World) (r : ℤ)
        → Created others own l client w
        → Ends
            ((do
              _ ← set_status server r
              when (is_negative r) (do _ ← set_status client r; pure tt)
              pure client)
              w)
            (λ c w'. (c ≡ client) × Created others own l client w')
    both_status w r h =
        Ends-then _ _ _ _ (server_status w r h)
          λ _ w1 h1. Ends-then _ _ _ _ (client_if w1 r h1) λ _ w2 h2. (client, w2, refl, (refl, h2))

    take_lem :
        (w : World)
        → Created others own l client w
        → Ends
            (take uv uncaught fuel server client w)
            (λ c w'. (c ≡ client) × Created others own l client w')
    unfolding take
    take_lem w (i, inv, e, booked) = elim (Bool-cases (is_negative i.uv_error)) [
      | inl neg ↦
          rw (e, neg)
            (Ends-then _ _ _ _ (server_status w i.uv_error (i, inv, e, booked))
              λ _ w1 h1. (client, w1, refl, (refl, h1)))
      | inr nonneg ↦
          rw (e, nonneg)
            (both_status _ (uv w.trace (uv_accept server client))
              (i, trace-Inv others w (gain own client) _ inv, e, booked))
    ]

    -- A handle initialised for the client and then accepted.
    made_lem :
        (nz : 0 < l) (init : ℕ → ℕ → M ℤ) (w : World)
        → Initialises init l client
        → Inv others w own
        → w.handles client ≡ none
        → Roomy others own l client w
        → Ends
            ((do _ ← construct uv uncaught fuel init l client; take uv uncaught fuel server client)
              w)
            (λ c w'. (c ≡ client) × Created others own l client w')
    made_lem nz init w does inv free roomy =
        Ends-then _ _ _ _
          (construct_lem others own l client uv uncaught fuel nz init w does inv free roomy)
          λ r w1 s. take_lem w1 (Settled-Created others own l client r w1 s)

-- The types of servers whose clients can be accepted.
pub data Accepts : HandleType → Type 0 where
  of_pipes : Accepts named_pipe
  of_tcp : Accepts tcp

module _ (uv : LibUv) (uncaught : Bool) (fuel : ℕ) (inits : Initialisers) (others own : ℕ → ℕ)
    (l server client : ℕ) (nz : 0 < l) (held : 0 < own server) (other : (server == client) ≡ false)
    (ipc : Bool) (pipe_does : Initialises (inits.uv_pipe_init ipc) l client)
    (tcp_does : Initialises inits.uv_tcp_init l client) where
  -- `accept` on a server that is a pipe or a TCP socket, whatever libuv answers, ends with the variable
  -- of the new client, to which it is the one reference; the client has booked the loop of the server,
  -- or its status is an error. It is given that the caller holds the server, that libuv initialises
  -- handles as documented, and that the loop is alive with room for one reference more.
  pub accept-Created :
      (t : HandleType) (w : World) (i : Instance HandleBody)
      → Accepts t
      → w.handles server ≡ some i
      → i.body.type ≡ t
      → i.body.loop ≡ l
      → Inv others w own
      → w.handles client ≡ none
      → Roomy others own l client w
      → Ends
          (accept uv uncaught fuel inits ipc server client w)
          (λ c w'. (c ≡ client) × Created others own l client w')
  unfolding accept accept_as
  accept-Created t w i of_pipes e type on inv free roomy =
      rw (e, type, on)
        (made_lem others own l server client held other uv uncaught fuel nz (inits.uv_pipe_init ipc)
          w pipe_does inv free roomy)
  accept-Created t w i of_tcp e type on inv free roomy =
      rw (e, type, on)
        (made_lem others own l server client held other uv uncaught fuel nz inits.uv_tcp_init w
          tcp_does inv free roomy)

  -- The same of the handles that a pipe passes.
  pub accept_pending_handle-Created :
      (t : HandleType) (w : World) (i : Instance HandleBody)
      → Accepts t
      → w.handles server ≡ some i
      → i.body.loop ≡ l
      → Inv others w own
      → w.handles client ≡ none
      → Roomy others own l client w
      → Ends
          (accept_pending_handle uv uncaught fuel inits t ipc server client w)
          (λ c w'. (c ≡ client) × Created others own l client w')
  unfolding accept_pending_handle accept_pending_as
  accept_pending_handle-Created t w i of_pipes e on inv free roomy =
      rw (e, on)
        (made_lem others own l server client held other uv uncaught fuel nz (inits.uv_pipe_init ipc)
          w pipe_does inv free roomy)
  accept_pending_handle-Created t w i of_tcp e on inv free roomy =
      rw (e, on)
        (made_lem others own l server client held other uv uncaught fuel nz inits.uv_tcp_init w
          tcp_does inv free roomy)

module _ (uv : LibUv) (uncaught : Bool) (fuel : ℕ) (inits : Initialisers) (ipc : Bool)
    (server client l : ℕ) (w : World) (void : w.handles 0 ≡ none) where
  as-faults :
      (t : HandleType)
      → ¬ Accepts t
      → accept_as uv uncaught fuel inits t ipc l server client w ≡ fault
  unfolding accept_as set_status
  as-faults named_pipe unlike = absurd (unlike of_pipes)
  as-faults tcp unlike = absurd (unlike of_tcp)
  as-faults tty unlike = rw void refl
  as-faults _ unlike = rw void refl

-- `accept` on a server of any other type writes the status of a client that is void, which is
-- undefined behaviour. It is given that no instance stands at the address 0.
accept-faults :
    (uv : LibUv) (uncaught : Bool) (fuel : ℕ) (inits : Initialisers) (ipc : Bool)
    (server client : ℕ) (w : World) (i : Instance HandleBody)
    → w.handles server ≡ some i
    → w.handles 0 ≡ none
    → ¬ Accepts i.body.type
    → accept uv uncaught fuel inits ipc server client w ≡ fault
unfolding accept
accept-faults uv uncaught fuel inits ipc server client w i e void unlike =
    rw e (as-faults uv uncaught fuel inits ipc server client i.body.loop w void i.body.type unlike)

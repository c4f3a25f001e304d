-- ===== src/Process/Slots.antt =====
-- The streams that the containers of a process name are those that its endpoints keep.
use uvcc.Prelude.{
  ltb, ℕ, ◌+◌, ◌-◌, ◌%◌, ◌^◌, ◌<◌, ◌≡◌, refl, sym, inl, inr, Bool, true, false, none, arith, ◌==◌,
  if◌then◌else◌, Bool-cases,
}
use uvcc.Prelude.Int.{ℤ, pos}
use uvcc.Runtime.{World, ok, LibUv, HandleType}
use uvcc.Runtime.Counts.{Counted-live, Counted-gone, lose}
use uvcc.Utility.RefCount.{long_mod}
use uvcc.Runtime.Ends.{Ends, Ends-then, Ends-weaken}
use uvcc.Loop.Lifetime.{ClosesAll}
use uvcc.Handle
use uvcc.Handle.Counted.{Inv}
use uvcc.Handle.Lifetime.{handle_unref_law}
use uvcc.References.{unref_if}
use uvcc.Process.{
  create_pipe, release_endpoints, Container, ignore, inherit_stream, inherit_fd, Stdio, fresh_stdio,
  resized, ensure_stdio_number, container_of, set_container, set_endpoint, choose_container,
  assign_endpoint, inherit_stdio,
}

-- A container that has a stream has that of its endpoint.
abbrev pub Matches : Container → ℕ → Type 0
Matches ignore p = Unit {0}
Matches (inherit_stream x) p = x ≡ p
Matches (inherit_fd fd) p = Unit {0}
Matches (create_pipe readable writable x) p = x ≡ p

-- The vectors have one size, which libuv is told, and the containers match the endpoints.
pub record Kept (s : Stdio) : Type 0 where
  pub told : s.stdio_count ≡ pos s.num_containers
  pub sizes : s.num_endpoints ≡ s.num_containers
  pub matched : (k : ℕ) → Matches (s.stdio_uv_containers k) (s.stdio_uvcc_endpoints k)
  pub beyond : (k : ℕ) → ltb k s.num_containers ≡ false → s.stdio_uvcc_endpoints k ≡ 0

pub fresh-Kept : Kept fresh_stdio
fresh-Kept = record { told = refl; sizes = refl; matched = λ k. tt; beyond = λ k e. refl }

-- The vectors with room for the number.
abbrev pub grown : ℕ → Stdio → Stdio
grown k s = if ltb k s.num_containers then s else record {
  stdio_count = pos (k + 1);
  num_containers = k + 1;
  stdio_uv_containers = resized s.num_containers ignore s.stdio_uv_containers;
  num_endpoints = k + 1;
  stdio_uvcc_endpoints = resized s.num_endpoints 0 s.stdio_uvcc_endpoints;
}

resized-Matches :
    (s : Stdio) (k : ℕ)
    → Kept s
    → Matches
        (resized s.num_containers ignore s.stdio_uv_containers k)
        (resized s.num_containers 0 s.stdio_uvcc_endpoints k)
resized-Matches s k kept = elim (Bool-cases (ltb k s.num_containers)) [
  | inl below ↦ rw below (kept.matched k)
  | inr above ↦ rw above tt
]

pub ensure-Kept : (k : ℕ) (s : Stdio) → Kept s → Kept (grown k s)
ensure-Kept k s kept = elim (Bool-cases (ltb k s.num_containers)) [
  | inl below ↦ rw below kept
  | inr above ↦
      rw (above, kept.sizes)
        (record {
          told = refl;
          sizes = refl;
          matched = λ x. resized-Matches s x kept;
          beyond = λ x e. elim (Bool-cases (ltb x s.num_containers)) [
            | inl below ↦ ground (arith, below, above, e)
            | inr over ↦ rw over refl
          ];
        })
]

-- A container that is set matches the endpoint that is set with it.
set-Kept :
    (k p : ℕ) (c : Container) (s : Stdio)
    → Kept s
    → ltb k s.num_containers ≡ true
    → Matches c p
    → Kept (set_endpoint k p (set_container k c s))
set-Kept k p c s kept room fits = record {
  told = kept.told;
  sizes = kept.sizes;
  matched = λ x. elim (Bool-cases (x == k)) [
    | inl same ↦ rw same fits
    | inr other ↦ rw other (kept.matched x)
  ];
  beyond = λ x e. elim (Bool-cases (x == k)) [
    | inl same ↦ ground (arith, same, room, e)
    | inr other ↦ rw other (kept.beyond x e)
  ];
}

fd-Kept : (k : ℕ) (fd : ℤ) (s : Stdio) → Kept s → Kept (set_container k (inherit_fd fd) s)
fd-Kept k fd s kept = record {
  told = kept.told;
  sizes = kept.sizes;
  matched = λ x. elim (Bool-cases (x == k)) [
    | inl same ↦ rw same tt
    | inr other ↦ rw other (kept.matched x)
  ];
  beyond = kept.beyond;
}

pub ensure-room : (k : ℕ) (s : Stdio) → ltb k (grown k s).num_containers ≡ true
ensure-room k s = elim (Bool-cases (ltb k s.num_containers)) [
  | inl below ↦ rw (below, below) refl
  | inr above ↦ rw above (ground arith)
]

container_of-Matches : (t : HandleType) (p : ℕ) (fd : ℤ) → Matches (container_of t p fd) p
container_of-Matches t p fd = elim t as (λ x. Matches (container_of x p fd) p) [
  | HandleType.named_pipe ↦ refl
  | HandleType.stream ↦ refl
  | HandleType.tcp ↦ refl
  | HandleType.tty ↦ refl
  | _ ↦ tt
]

-- Growing the vectors does not change the endpoints.
ensure-endpoint :
    (k : ℕ) (s : Stdio) → Kept s → (grown k s).stdio_uvcc_endpoints k ≡ s.stdio_uvcc_endpoints k
ensure-endpoint k s kept = elim (Bool-cases (ltb k s.num_containers)) [
  | inl below ↦ rw below refl
  | inr above ↦ rw (above, kept.sizes, above) (sym (kept.beyond k above))
]

-- There is room in both vectors.
pub endpoint-room : (k : ℕ) (s : Stdio) → Kept s → ltb k (grown k s).num_endpoints ≡ true
endpoint-room k s kept = rw (ensure-Kept k s kept).sizes (ensure-room k s)

-- One reference less to what an endpoint keeps, if it keeps a handle.
abbrev pub dropped : (ℕ → ℕ) → ℕ → ℕ → ℕ
dropped own x = if x == 0 then own else lose own x

module _ (others : ℕ → ℕ) (uv : LibUv) (uncaught : Bool) (fuel : ℕ) (shut : ClosesAll uv)
    (own : ℕ → ℕ) where
  -- What the endpoint keeps is held.
  abbrev pub Releasable : ℕ → Type 0
  Releasable x = (x == 0) ≡ false → (0 < own x) × (own x < long_mod)

  unref_if_lem :
      (x : ℕ) (w : World)
      → Inv others w own
      → Releasable x
      → Ends
          (unref_if Handle.ref (Handle.unref uv uncaught fuel) x w)
          (λ _ w'. Inv others w' (dropped own x))
  unfolding unref_if
  unref_if_lem x w inv held = elim (Bool-cases (x == 0)) [
    | inl void ↦ rw void (tt, w, refl, inv)
    | inr set ↦
        let (w', run, inv', same) =
          handle_unref_law others uv uncaught fuel shut w own x inv (held set).0 (held set).1 in
        rw set (tt, w', run, inv')
  ]

  -- The number is small enough for `int`, so the vectors grow.
  pub ensure_lem :
      (k : ℕ) (s : Stdio) (w : World)
      → Kept s
      → k + 1 < 2 ^ 31
      → ensure_stdio_number uv uncaught fuel k s w ≡ ok (grown k s) w
  unfolding ensure_stdio_number release_endpoints
  ensure_lem k s w kept small = elim (Bool-cases (ltb k s.num_containers)) [
    | inl below ↦ rw below refl
    | inr above ↦
        let size : (k + 1) % 2 ^ 32 ≡ k + 1 = omega arith in
        let int : ltb (k + 1) (2 ^ 31) ≡ true = ground arith in
        let none_left : s.num_endpoints - (k + 1) ≡ 0 = ground (arith, above, kept.sizes) in
        rw (above, size, none_left, size, int) refl
  ]

  assign_endpoint_lem :
      (k p : ℕ) (s : Stdio) (w : World)
      → ltb k s.num_endpoints ≡ true
      → Inv others w own
      → Releasable (s.stdio_uvcc_endpoints k)
      → Ends (assign_endpoint uv uncaught fuel k p s w) (λ s' w'.
        (s' ≡ set_endpoint k p s) × Inv others w' (dropped own (s.stdio_uvcc_endpoints k)))
  unfolding assign_endpoint
  assign_endpoint_lem k p s w room inv held = rw room (
      Ends-then _ _ _ _ (unref_if_lem (s.stdio_uvcc_endpoints k) w inv held)
        λ _ w1 h1. (set_endpoint k p s, w1, refl, (refl, h1)))

  choose_container_lem :
      (k p : ℕ) (fd : ℤ) (s : Stdio) (w : World)
      → Inv others w own
      → ltb k s.num_containers ≡ true
      → (p == 0) ≡ false
      → 0 < own p
      → Ends (choose_container k p fd s w) (λ s' w'.
        ((t : HandleType) × (s' ≡ set_container k (container_of t p fd) s)) × Inv others w' own)
  unfolding choose_container
  choose_container_lem k p fd s w inv room nonnull in_p =
      let (i, e, n) = Counted-live w.handles own p inv.1.counted in_p in
      rw (nonnull, e, room) (_, w, refl, ((i.body.type, refl), inv))

  pub assigned_lem :
      (k p : ℕ) (c : Container) (s s' : Stdio) (w : World)
      → Kept s
      → s' ≡ set_container k c (grown k s)
      → Matches c p
      → Inv others w own
      → Releasable (s.stdio_uvcc_endpoints k)
      → Ends (assign_endpoint uv uncaught fuel k p s' w) (λ s'' w'.
        Kept s''
        × (s''.stdio_uvcc_endpoints k ≡ p)
        × Inv others w' (dropped own (s.stdio_uvcc_endpoints k)))
  assigned_lem k p c s s' w kept is fits inv held = rw is (
      Ends-weaken _ _ _
        (assign_endpoint_lem k p (set_container k c (grown k s)) w (endpoint-room k s kept) inv
          (rw (ensure-endpoint k s kept) held))
        λ s2 w2 (e2, inv2). rw e2 (
          set-Kept k p c (grown k s) (ensure-Kept k s kept) (ensure-room k s) fits,
          ground arith,
          (rw (ensure-endpoint k s kept) at inv2),
        ))

  -- Preparing an endpoint for a standard stream of the child keeps what libuv is given alive: every
  -- stream that a container names is the endpoint kept for the same number, the two vectors have one
  -- size, and libuv is told it. The endpoint that was there before is released, and nothing else. It
  -- is given that these hold before, that the number is smaller than 2^31 - 1, that the endpoint is
  -- no void handle and is held, as the one before is, and that libuv closes every loop that is given
  -- up.
  pub inherit_stdio-Kept :
      (k p : ℕ) (fd : ℤ) (s : Stdio) (w : World)
      → Kept s
      → k + 1 < 2 ^ 31
      → Inv others w own
      → (p == 0) ≡ false
      → 0 < own p
      → Releasable (s.stdio_uvcc_endpoints k)
      → Ends (inherit_stdio uv uncaught fuel k p fd s w) (λ s' w'.
        Kept s'
        × (s'.stdio_uvcc_endpoints k ≡ p)
        × Inv others w' (dropped own (s.stdio_uvcc_endpoints k)))
  unfolding inherit_stdio
  inherit_stdio-Kept k p fd s w kept small inv nonnull in_p held =
      rw (ensure_lem k s w kept small) (
        Ends-then _ _ _ _
          (choose_container_lem k p fd (grown k s) w inv (ensure-room k s) nonnull in_p)
          λ s1 w1 ((t, is), inv1).
            assigned_lem k p (container_of t p fd) s s1 w1 kept is (container_of-Matches t p fd)
              inv1 held)

  -- A void handle that is given for the number of a stream releases the endpoint there, but leaves the
  -- container: libuv is still told to hand on a stream that does not exist any more. It is given that
  -- the endpoint held the last reference, and that libuv closes every loop that is given up.
  inherit_stdio-dangles :
      (k x : ℕ) (fd : ℤ) (s : Stdio) (w : World)
      → Inv others w own
      → ltb k s.num_containers ≡ true
      → ltb k s.num_endpoints ≡ true
      → s.stdio_uv_containers k ≡ inherit_stream x
      → s.stdio_uvcc_endpoints k ≡ x
      → (x == 0) ≡ false
      → own x ≡ 1
      → Ends
          (inherit_stdio uv uncaught fuel k 0 fd s w)
          (λ s' w'. (s'.stdio_uv_containers k ≡ inherit_stream x) × (w'.handles x ≡ none))
  unfolding inherit_stdio choose_container ensure_stdio_number
  inherit_stdio-dangles k x fd s w inv room room_e names keeps nonnull last = rw room (
      Ends-weaken _ _ _
        (assign_endpoint_lem k 0 s w room_e inv
          (rw keeps (λ set. (omega (arith, last), omega (arith, last)))))
        λ s2 w2 (e2, inv2).
          let inv3 = rw (keeps, nonnull) at inv2 in
          rw e2
            (names, Counted-gone w2.handles (lose own x) x inv3.1.counted (ground (arith, last))))

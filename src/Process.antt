-- ===== src/Process.antt =====
-- src/include/uvcc/handle-misc.hpp, the class process: the standard streams that are prepared for a
-- child. A vector is its size and its elements by number; the pointer `spawn_options.stdio` is that to
-- the storage of the first vector, and left out.
pub mod Slots
pub mod Options
pub mod Spawn
pub mod Pipe
mod Tests
use uvcc.Prelude.{ltb, ℕ, zero, suc, ◌+◌, ◌-◌, ◌%◌, ◌^◌, Bool, true, false, ◌==◌, if◌then◌else◌}
use uvcc.Prelude.Int.{ℤ, pos, negsuc, is_negative}
use uvcc.Runtime.{M, fault, LibUv, HandleType, pure, ◌>>=◌, ◌>>◌}
use uvcc.Handle
use uvcc.References.{unref_if}
use uvcc.Create.Classes.{Initialisers}
use uvcc.Create.Kinds.{a_pipe, build}

-- `uv_stdio_container_t`, with the stream or the descriptor that goes with its flags.
pub data Container : Type 0 where
  ignore : Container
  inherit_stream : (stream : ℕ) → Container
  inherit_fd : (fd : ℤ) → Container
  create_pipe : (readable writable : Bool) → (stream : ℕ) → Container

-- `properties`: the containers that libuv reads, and the endpoints that keep their handles, 0 for none.
pub record Stdio : Type 0 where
  pub stdio_count : ℤ
  pub num_containers : ℕ
  pub stdio_uv_containers : ℕ → Container
  pub num_endpoints : ℕ
  pub stdio_uvcc_endpoints : ℕ → ℕ

abbrev pub fresh_stdio : Stdio
fresh_stdio = record {
  stdio_count = pos 0;
  num_containers = 0;
  stdio_uv_containers = λ k. ignore;
  num_endpoints = 0;
  stdio_uvcc_endpoints = λ k. 0;
}

-- `resize`: the new elements are made by the default constructor.
abbrev pub resized {ℓ} : {A : Type ℓ} → ℕ → A → (ℕ → A) → ℕ → A
resized old fill elements k = if ltb k old then elements k else fill

abbrev pub assigned {ℓ} : {A : Type ℓ} → ℕ → A → (ℕ → A) → ℕ → A
assigned k x elements j = if j == k then x else elements j

-- A `size_t` as an `int`, of 32 bits.
abbrev pub to_int : ℕ → ℤ
to_int n = if ltb (n % 2 ^ 32) (2 ^ 31) then pos (n % 2 ^ 32) else negsuc (2 ^ 32 - 1 - n % 2 ^ 32)

abbrev pub resize_stdio : ℕ → Stdio → Stdio
resize_stdio size s = record {
  stdio_count = to_int size;
  num_containers = size;
  stdio_uv_containers = resized s.num_containers ignore s.stdio_uv_containers;
  num_endpoints = size;
  stdio_uvcc_endpoints = resized s.num_endpoints 0 s.stdio_uvcc_endpoints;
}

-- The subscript of a vector: behind its end it is undefined.
abbrev pub within : ℕ → ℕ → M (Unit {0})
within k size = if ltb k size then pure tt else (λ _. fault)

-- The `switch` on the type of the endpoint: `fd` is the descriptor of a file.
abbrev pub container_of : HandleType → (p : ℕ) → (fd : ℤ) → Container
container_of HandleType.named_pipe p fd = inherit_stream p
container_of HandleType.stream p fd = inherit_stream p
container_of HandleType.tcp p fd = inherit_stream p
container_of HandleType.tty p fd = inherit_stream p
container_of HandleType.file p fd = inherit_fd fd
container_of t p fd = ignore

abbrev pub set_container : ℕ → Container → Stdio → Stdio
set_container k c s = record s { stdio_uv_containers = assigned k c s.stdio_uv_containers }

abbrev pub set_endpoint : ℕ → ℕ → Stdio → Stdio
set_endpoint k p s = record s { stdio_uvcc_endpoints = assigned k p s.stdio_uvcc_endpoints }

-- `if (_io.id())  switch (_io.type())`
pub choose_container : ℕ → ℕ → ℤ → Stdio → M Stdio
choose_container k p fd s = if p == 0 then pure s else (do
  i ← Handle.load p
  within k s.num_containers
  pure (set_container k (container_of i.body.type p fd) s))

module _ (uv : LibUv) (uncaught : Bool) (fuel : ℕ) where
  -- The destructors of the endpoints that a smaller size cuts off.
  unfoldable pub release_endpoints : (number first : ℕ) → Stdio → M (Unit {0})
  release_endpoints zero first s = pure tt
  release_endpoints (suc n) first s = do
    unref_if Handle.ref (Handle.unref uv uncaught fuel) (s.stdio_uvcc_endpoints first)
    release_endpoints n (first + 1) s

  -- The sum of the number, an `unsigned`, and 1 is 0 for the largest number.
  unfoldable pub ensure_stdio_number : ℕ → Stdio → M Stdio
  ensure_stdio_number k s = if ltb k s.num_containers then pure s else (do
    let size = (k + 1) % 2 ^ 32
    release_endpoints (s.num_endpoints - size) size s
    pure (resize_stdio size s))

  -- The move assignment of the endpoint, which releases the one before.
  pub assign_endpoint : ℕ → ℕ → Stdio → M Stdio
  assign_endpoint k p s = do
    within k s.num_endpoints
    unref_if Handle.ref (Handle.unref uv uncaught fuel) (s.stdio_uvcc_endpoints k)
    pure (set_endpoint k p s)

  -- `inherit_stdio` with a descriptor.
  pub inherit_fd_stdio : ℕ → ℤ → Stdio → M Stdio
  inherit_fd_stdio k fd s = do
    s' ← ensure_stdio_number k s
    within k s'.num_containers
    pure (set_container k (inherit_fd fd) s')

  -- `inherit_stdio` with an endpoint, the variable of which is moved into the vector.
  pub inherit_stdio : ℕ → ℕ → ℤ → Stdio → M Stdio
  inherit_stdio k p fd s = do
    s1 ← ensure_stdio_number k s
    s2 ← choose_container k p fd s1
    assign_endpoint k p s2

  -- `create_stdio_pipe`: the pipe is constructed at the address `p`; `process` is the process itself. A
  -- pipe that fails is destroyed at the end of the function.
  pub create_stdio_pipe :
      Initialisers → (readable writable ipc : Bool) → (process k loop p : ℕ) → Stdio → M (ℤ × Stdio)
  create_stdio_pipe inits readable writable ipc process k l p s = do
    s1 ← ensure_stdio_number k s
    build uv uncaught fuel inits (a_pipe ipc) l p
    i ← Handle.load p
    if is_negative i.uv_error
        then (do
          ret ← Handle.set_status process i.uv_error
          Handle.unref uv uncaught fuel p
          pure (ret, s1))
        else (do
          within k s1.num_containers
          s2 ← assign_endpoint k p (set_container k (create_pipe readable writable p) s1)
          pure (pos 0, s2))

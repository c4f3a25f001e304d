-- ===== src/Runtime/Fixtures.antt =====
-- Small worlds for the tests: at most one instance of each kind, at the address 1.
use uvcc.Prelude.{ℕ, Bool, true, false, [], none, some, ◌==◌, if◌then◌else◌}
use uvcc.Prelude.Int.{pos}
use uvcc.Runtime.{
  World, Heap, Instance, HandleType, HandleBody, RequestType, RequestBody, Rdcmd, Opcmd, LoopBody,
  BufferBody, LibUv,
}

abbrev pub one : {B : Type 0} → Instance B → Heap B
one i p = if p == 1 then some i else none

abbrev pub nothing : {B : Type 0} → Heap B
nothing p = none

-- As many references to the instance at 1.
abbrev pub owning : ℕ → ℕ → ℕ
owning n p = if p == 1 then n else 0

abbrev pub empty : World
empty = record {
  handles = nothing;
  requests = nothing;
  loops = nothing;
  buffers = nothing;
  trace = [];
}

-- libuv that answers 0 to every call.
abbrev pub agreeable : LibUv
agreeable t c = pos 0

abbrev pub a_request : ℕ → Instance RequestBody
a_request n = record {
  refs = n;
  uv_error = pos 0;
  has_destroy_cb = true;
  body = record {
    type = RequestType.write;
    has_request_cb = true;
    handle = 1;
    send_handle = 0;
    uv_buf = 1;
    offset = pos 0;
    pending_size = 0;
    handle_out = 0;
    output_offset = pos 0;
  };
}

abbrev pub a_loop : ℕ → Instance LoopBody
a_loop n = record {
  refs = n;
  uv_error = pos 0;
  has_destroy_cb = true;
  body = record { has_exit_cb = false };
}

abbrev pub a_buffer : ℕ → Bool → Instance BufferBody
a_buffer n sink = record {
  refs = n;
  uv_error = pos 0;
  has_destroy_cb = false;
  body = record { has_sink_cb = sink };
}

-- A handle on the loop 1, which it has booked or not.
abbrev pub a_handle : ℕ → ℕ → HandleType → Rdcmd → Instance HandleBody
a_handle n booked type state = record {
  refs = n;
  uv_error = pos 0;
  has_destroy_cb = true;
  body = record {
    loop_instance_ptr = booked;
    type = type;
    loop = 1;
    result = pos 0;
    rdcmd_state = state;
    rdsize = 0;
    rdoffset = pos 0;
    has_alloc_cb = true;
    has_read_cb = true;
    write_queue_size = 0;
    rd_buf = 0;
    opcmd_state = Opcmd.unknown;
    has_extra_ref = false;
    has_event_cb = true;
    signum = pos 0;
    event_flags = pos 0;
    path = 0;
    is_closing = false;
  };
}

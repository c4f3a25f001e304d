-- ===== src/Output.antt =====
-- src/include/uvcc/request-io.hpp, `output`: the request that is run as a write to a stream, a send
-- over a UDP socket or a write to a file, by the type of the endpoint.
mod Tests
pub mod Balance
use uvcc.Prelude.{ℕ, Bool, true, false, ◌∷◌, Option, none, some, ◌==◌, if◌then◌else◌}
use uvcc.Prelude.Int.{ℤ, negsuc}
use uvcc.Runtime.{
  Instance, HandleType, RequestType, RequestBody, World, Run, ok, M, LibUv, pure, ◌>>=◌, ◌>>◌,
}
use uvcc.Io.{uv_einval}
use uvcc.Handle
use uvcc.Request
use uvcc.Transfer
use uvcc.FileWrite
use uvcc.Buffer.Sharing.{Sink}

-- `UV_EBADF` on Linux.
abbrev pub uv_ebadf : ℤ
uv_ebadf = negsuc 8

-- The kinds of endpoints that the switches tell apart.
pub data Kind : Type 0 where
  streams datagrams files others : Kind

abbrev pub kind : HandleType → Kind
kind HandleType.named_pipe = streams
kind HandleType.tcp = streams
kind HandleType.tty = streams
kind HandleType.udp = datagrams
kind HandleType.file = files
kind t = others

pub set_type : ℕ → RequestType → M (Unit {0})
set_type q t = do
  i ← Request.load q
  Request.store q (record i { body = record i.body { type = t } })

pub set_offset : ℕ → ℤ → M (Unit {0})
set_offset q offset = do
  i ← Request.load q
  Request.store q (record i { body = record i.body { output_offset = offset } })

-- `return uv_status(r)`.
pub answer : ℕ → ℤ → M ℤ
answer q r = do Request.set_status q r; pure r

-- `has_info` says whether `_info`, with the address of the peer, is given.
module _ (uv : LibUv) (uncaught : Bool) (fuel : ℕ) (sink : ℕ → Sink)
    (on_request : ℕ → M (Unit {0})) where
  pub run_as : Kind → ℕ → ℕ → ℕ → ℕ → ℤ → Bool → M ℤ
  run_as streams q p b size offset has_info = do
    set_type q RequestType.write
    set_offset q offset
    Transfer.write uv uncaught fuel sink on_request q p b
  run_as datagrams q p b size offset has_info = do
    set_type q RequestType.udp_send
    set_offset q offset
    if has_info
        then Transfer.udp_send uv uncaught fuel sink on_request q p b
        else answer q uv_einval
  run_as files q p b size offset has_info = do
    set_type q RequestType.fs
    set_offset q offset
    FileWrite.write uv uncaught fuel sink on_request q p b size offset
  run_as others q p b size offset has_info = answer q uv_ebadf

  pub run : ℕ → ℕ → ℕ → ℕ → ℤ → Bool → M ℤ
  run q p b size offset has_info = do
    i ← Handle.load p
    run_as (kind i.body.type) q p b size offset has_info

  pub try_as : Kind → ℕ → ℕ → ℕ → ℤ → Bool → M ℤ
  try_as streams q p b offset has_info = do
    set_type q RequestType.write
    Transfer.try_write uv uncaught fuel sink on_request q p b
  try_as datagrams q p b offset has_info = do
    set_type q RequestType.udp_send
    if has_info
        then Transfer.try_send uv uncaught fuel sink on_request q p b
        else answer q uv_einval
  try_as files q p b offset has_info = do
    set_type q RequestType.fs
    FileWrite.try_write uv uncaught fuel sink on_request q p b offset
  try_as others q p b offset has_info = answer q uv_ebadf

  pub try_output : ℕ → ℕ → ℕ → ℤ → Bool → M ℤ
  try_output q p b offset has_info = do
    i ← Handle.load p
    try_as (kind i.body.type) q p b offset has_info

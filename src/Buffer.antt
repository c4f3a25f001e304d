-- ===== src/Buffer.antt =====
-- src/include/uvcc/buffer.hpp: the memory layout of a buffer instance.
pub mod Layout
pub mod Sharing
mod Tests
use uvcc.Prelude.{
  ℕ, suc, ◌+◌, ◌-◌, ◌*◌, ◌/◌, ◌%◌, ◌^◌, ◌≡◌, ◌≤◌, ◌<◌, Bool, List, [], ◌∷◌, ◌==◌, if◌then◌else◌,
  length,
}

-- What the compiler decides: `sizeof(instance)`, `offsetof(instance, uv_buf_struct)`,
-- `sizeof(uv_t)` and `alignof(std::max_align_t)`.
pub record Abi : Type 0 where
  pub instance_size : ℕ
  pub buf_offset : ℕ
  pub buf_size : ℕ
  pub max_align : ℕ

-- `uv_buf_t`, with 0 for `nullptr`.
pub record Buf : Type 0 where
  pub base : ℕ
  pub len : ℕ

-- An instance, with the address and the number of bytes of its allocation.
pub record Instance : Type 0 where
  pub address : ℕ
  pub allocated : ℕ
  pub buf_count : ℕ
  pub bufs : List Buf

abbrev pub size_mod : ℕ
size_mod = 2 ^ 64

-- `for (auto len : _len_values)  total_buf_len += len;` on `size_t`.
pub total_from : ℕ → List ℕ → ℕ
total_from acc [] = acc
total_from acc (len ∷ lens) = total_from ((acc + len) % size_mod) lens

pub total_len : List ℕ → ℕ
unfolding total_from
total_len lens = total_from 0 lens

-- `(x + a - 1) & ~(a - 1)` for a power of two `a` clears the digits below `a`.
pub round_up : ℕ → ℕ → ℕ
round_up x a = (x + (a - 1)) / a * a

module _ (abi : Abi) where
  pub alignment_padding : ℕ → ℕ
  unfolding round_up
  alignment_padding extra_buf_count =
      let base_size = abi.instance_size + extra_buf_count * abi.buf_size in
      let proper_size = round_up base_size abi.max_align in proper_size - base_size

  -- What `operator new` asks for, a sum on `size_t`.
  pub allocation_size : List ℕ → ℕ
  allocation_size lens =
      let extra_buf_count = length lens - 1 in
      (abi.instance_size
        + extra_buf_count * abi.buf_size
        + alignment_padding extra_buf_count
        + total_len lens)
      % size_mod

  -- The loop `buf[i].base = &buf[i-1].base[buf[i-1].len]`, from the base of the first chunk.
  pub chunks : ℕ → List ℕ → List Buf
  chunks base [] = []
  chunks base (len ∷ lens) = record { base = base; len = len } ∷ chunks (base + len) lens

  pub null_bufs : List ℕ → List Buf
  null_bufs [] = []
  null_bufs (len ∷ lens) = record { base = 0; len = 0 } ∷ null_bufs lens

  -- The address behind the last descriptor, moved up by the padding.
  pub first_base : ℕ → ℕ → ℕ
  unfolding alignment_padding
  first_base address count =
      address + abi.buf_offset + count * abi.buf_size + alignment_padding (count - 1)

  construct_bufs : ℕ → List ℕ → List Buf
  construct_bufs address lens =
      if total_len lens == 0 then null_bufs lens else chunks (first_base address (length lens)) lens

  -- `new(_len_values) instance(_len_values)` at an address that the allocator returns.
  pub create : ℕ → List ℕ → Instance
  unfolding allocation_size
  create address [] = record {
    address = address;
    allocated = allocation_size [];
    buf_count = 1;
    bufs = record { base = 0; len = 0 } ∷ [];
  }
  create address (len ∷ lens) = record {
    address = address;
    allocated = allocation_size (len ∷ lens);
    buf_count = length (len ∷ lens);
    bufs = construct_bufs address (len ∷ lens);
  }

  -- `&uv_buf_struct`, the pointer by which variables hold the instance, and back.
  pub uv_buf : ℕ → ℕ
  uv_buf address = address + abi.buf_offset

  pub instance_from : ℕ → ℕ
  instance_from uv_buf = uv_buf - abi.buf_offset

  -- `instance::uv_buf::from`: the descriptor array, from the base of a chunk.
  pub uv_buf_from : ℕ → ℕ
  unfolding alignment_padding
  uv_buf_from base = base - alignment_padding 0 - abi.buf_size

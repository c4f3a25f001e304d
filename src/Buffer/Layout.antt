-- ===== src/Buffer/Layout.antt =====
-- The chunks of a buffer lie one behind the other within the allocation, behind the descriptors.
use uvcc.Prelude.{
  ℕ, zero, suc, ◌+◌, ◌-◌, ◌*◌, ◌%◌, ◌≤◌, ◌<◌, ◌≡◌, ◌≢◌, refl, sym, subst, List, [], ◌∷◌, arith,
  length,
}
use native.Mathlib.Nat.{add-mod}
use uvcc.Buffer.{
  Abi, Buf, size_mod, total_from, total_len, round_up, alignment_padding, allocation_size, chunks,
  first_base, construct_bufs, create, uv_buf, uv_buf_from,
}

-- The descriptor is the last field of the instance, with no padding behind it, and the alignment is
-- not 0.
pub record IsAbi (abi : Abi) : Type 0 where
  pub last : abi.buf_offset + abi.buf_size ≡ abi.instance_size
  pub aligned : 0 < abi.max_align

round_up-ge : (x a : ℕ) → 0 < a → x ≤ round_up x a
unfolding round_up
round_up-ge x a h = grind arith

round_up-mod : (x a : ℕ) → 0 < a → round_up x a % a ≡ 0
unfolding round_up
round_up-mod x a h = grind arith

round_up-lt : (x a : ℕ) → 0 < a → round_up x a < x + a
unfolding round_up
round_up-lt x a h = grind arith

sum-mod : (a b m : ℕ) → a % m ≡ 0 → b % m ≡ 0 → (a + b) % m ≡ 0
sum-mod a b m p q = rw (add-mod a b m, p, q) (omega arith)

abbrev pub sum_of : List ℕ → ℕ
sum_of [] = 0
sum_of (x ∷ xs) = x + sum_of xs

total_from-sum_of :
    (acc : ℕ) (lens : List ℕ)
    → acc + sum_of lens < size_mod
    → total_from acc lens ≡ acc + sum_of lens
unfolding total_from
total_from-sum_of acc [] h = omega arith
total_from-sum_of acc (len ∷ lens) h =
    let e : (acc + len) % size_mod ≡ acc + len = omega arith in
    rw e (omega (arith, total_from-sum_of (acc + len) lens (omega arith)))

total_len-sum_of : (lens : List ℕ) → sum_of lens < size_mod → total_len lens ≡ sum_of lens
unfolding total_len
total_len-sum_of lens h = omega (arith, total_from-sum_of 0 lens (omega arith))

-- From the address `start` the chunks have the lengths given, each begins where the one before it
-- ends, and the last ends at `end`.
abbrev pub Tiles : ℕ → List Buf → List ℕ → ℕ → Type 0
Tiles start [] [] end = start ≡ end
Tiles start [] (l ∷ ls) end = ⊥
Tiles start (b ∷ bs) [] end = ⊥
Tiles start (b ∷ bs) (l ∷ ls) end = (b.base ≡ start) × (b.len ≡ l) × Tiles (start + l) bs ls end

chunks-Tiles :
    (abi : Abi) (start : ℕ) (lens : List ℕ) (end : ℕ)
    → start + sum_of lens ≡ end
    → Tiles start (chunks abi start lens) lens end
unfolding chunks
chunks-Tiles abi start [] end e = omega arith
chunks-Tiles abi start (len ∷ lens) end e =
    (refl, refl, chunks-Tiles abi (start + len) lens end (omega arith))

module _ (abi : Abi) (is : IsAbi abi) where
  alignment_padding-lt : (n : ℕ) → alignment_padding abi n < abi.max_align
  unfolding alignment_padding
  alignment_padding-lt n = omega (
    arith,
    round_up-lt (abi.instance_size + n * abi.buf_size) abi.max_align is.aligned,
    is.aligned,
  )

  padding_to_boundary :
      (n : ℕ) → (abi.instance_size + n * abi.buf_size + alignment_padding abi n) % abi.max_align ≡ 0
  unfolding alignment_padding
  padding_to_boundary n =
      let base = abi.instance_size + n * abi.buf_size in
      let e : base + (round_up base abi.max_align - base) ≡ round_up base abi.max_align =
        omega (arith, round_up-ge base abi.max_align is.aligned) in
      rw e (round_up-mod base abi.max_align is.aligned)

  -- The first chunk begins at a multiple of the alignment, behind all the descriptors.
  first_base-end :
      (address m : ℕ)
      → first_base abi address (suc m)
        ≡ address + (abi.instance_size + m * abi.buf_size + alignment_padding abi m)
  unfolding first_base
  first_base-end address m = let e : suc m - 1 ≡ m = omega arith in rw e (omega (arith, is.last))

  -- What a buffer takes: the instance, the descriptors behind its own, the padding and the chunks.
  abbrev pub needed : List ℕ → ℕ
  needed lens =
      abi.instance_size
      + (length lens - 1) * abi.buf_size
      + alignment_padding abi (length lens - 1)
      + sum_of lens

  allocation_end :
      (address len : ℕ) (lens : List ℕ)
      → total_len (len ∷ lens) ≡ sum_of (len ∷ lens)
      → needed (len ∷ lens) < size_mod
      → first_base abi address (suc (length lens)) + sum_of (len ∷ lens)
        ≡ address + allocation_size abi (len ∷ lens)
  unfolding allocation_size
  allocation_end address len lens total small =
      let e : suc (length lens) - 1 ≡ length lens = omega arith in
      let fits = rw e at small in
      rw e (omega (arith, first_base-end address (length lens), total, fits))

  construct_bufs-chunks :
      (address : ℕ) (lens : List ℕ)
      → total_len lens ≡ sum_of lens
      → sum_of lens ≢ 0
      → construct_bufs abi address lens ≡ chunks abi (first_base abi address (length lens)) lens
  unfolding construct_bufs
  construct_bufs-chunks address lens e h = ground arith

  -- A buffer whose lengths are not all zero, and that with its instance, descriptors and padding is
  -- smaller than 2^64 bytes, in an allocation aligned as the allocator aligns: the chunks lie behind
  -- the descriptors from a multiple of the alignment on, each where the one before it ends, with the
  -- lengths asked for, and the last ends with the allocation.
  pub create-Tiles :
      (address len : ℕ) (lens : List ℕ)
      → address % abi.max_align ≡ 0
      → needed (len ∷ lens) < size_mod
      → sum_of (len ∷ lens) ≢ 0
      → let i = create abi address (len ∷ lens) in
        (i.buf_count ≡ length (len ∷ lens))
        × Tiles (first_base abi address i.buf_count) i.bufs (len ∷ lens) (address + i.allocated)
        × (uv_buf abi address + i.buf_count * abi.buf_size ≤ first_base abi address i.buf_count)
        × (first_base abi address i.buf_count % abi.max_align ≡ 0)
  unfolding create uv_buf
  create-Tiles address len lens at small some_len =
      let n = length lens in
      let total = total_len-sum_of (len ∷ lens) (omega (arith, small)) in
      let start = first_base-end address n in
      (
        refl,
        subst
            (λ bufs.
              Tiles (first_base abi address (suc n)) bufs (len ∷ lens)
                (address + allocation_size abi (len ∷ lens)))
            (sym (construct_bufs-chunks address (len ∷ lens) total some_len))
            (chunks-Tiles abi _ (len ∷ lens) _ (allocation_end address len lens total small)),
        behind n,
        rw start (sum-mod address _ abi.max_align at (padding_to_boundary n)),
      )
    where
      behind : (n : ℕ) → uv_buf abi address + suc n * abi.buf_size ≤ first_base abi address (suc n)
      behind n = omega (arith, first_base-end address n, is.last)

  -- The descriptor is found from the base of a chunk if the buffer has one chunk.
  pub uv_buf_from-single :
      (address : ℕ) → uv_buf_from abi (first_base abi address 1) ≡ uv_buf abi address
  unfolding uv_buf_from first_base uv_buf
  uv_buf_from-single address = omega arith

  -- It is not found from the first chunk of a buffer that has more, where a descriptor is at least
  -- as long as the alignment.
  uv_buf_from-several :
      (address n : ℕ)
      → 2 ≤ n
      → abi.max_align ≤ abi.buf_size
      → uv_buf abi address < uv_buf_from abi (first_base abi address n)
  unfolding uv_buf_from first_base uv_buf
  uv_buf_from-several address zero more wide = absurd (omega arith)
  uv_buf_from-several address (suc zero) more wide = absurd (omega arith)
  uv_buf_from-several address (suc (suc n)) more wide = omega (arith, alignment_padding-lt 0)

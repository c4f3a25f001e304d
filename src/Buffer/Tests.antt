-- ===== src/Buffer/Tests.antt =====
-- Tests of the buffers' layout.
use uvcc.Prelude.{◌+◌, ◌*◌, ◌%◌, ◌≡◌, ◌≤◌, refl, [], ◌∷◌, arith}
use uvcc.Buffer.{Abi, alignment_padding, create, uv_buf, first_base}
use uvcc.Buffer.Layout.{IsAbi, Tiles, create-Tiles}

-- As on x86-64.
abbrev x64 : Abi
x64 = record { instance_size = 80; buf_offset = 64; buf_size = 16; max_align = 16 }

x64-IsAbi : IsAbi x64
x64-IsAbi = record { last = refl; aligned = omega arith }

create-Tiles_example :
    ((create x64 160 (10 ∷ 0 ∷ 7 ∷ [])).buf_count ≡ 3)
    × Tiles
        (first_base x64 160 3)
        (create x64 160 (10 ∷ 0 ∷ 7 ∷ [])).bufs
        (10 ∷ 0 ∷ 7 ∷ [])
        (160 + (create x64 160 (10 ∷ 0 ∷ 7 ∷ [])).allocated)
    × (uv_buf x64 160 + 3 * 16 ≤ first_base x64 160 3)
    × (first_base x64 160 3 % 16 ≡ 0)
unfolding create alignment_padding
create-Tiles_example =
    create-Tiles x64 x64-IsAbi 160 10 (0 ∷ 7 ∷ []) refl (omega arith) (λ e. omega (arith, e))

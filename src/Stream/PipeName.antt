-- ===== src/Stream/PipeName.antt =====
-- src/include/uvcc/handle-stream.hpp, the names of pipes: `getsockname` and `getpeername`, which are
-- one text but for the call of libuv. A string is the list of its characters, 0 for the null
-- character.
use uvcc.Prelude.{
  ℕ, zero, suc, ◌-◌, ◌≤◌, ◌<◌, ◌≡◌, refl, ap, Bool, false, List, [], ◌∷◌, ◌++◌, length, Option,
  none, some, leb, ◌==◌, ◌&&◌, arith, if◌then◌else◌, Bool-cases, inl, inr,
}
use uvcc.Prelude.Int.{ℤ, pos, negsuc, is_negative}

-- `UV_ENOBUFS` on Linux.
abbrev pub uv_enobufs : ℤ
uv_enobufs = negsuc 104

abbrev pub is_enobufs : ℤ → Bool
is_enobufs (negsuc n) = n == 104
is_enobufs (pos n) = false

-- What `uv_pipe_getsockname` gives for a buffer of a size: its result, the size that it stores, and
-- what it writes to the front of the buffer.
pub record Answer : Type 0 where
  pub status : ℤ
  pub size : ℕ
  pub written : List ℕ

-- `name.resize(len, '\0')`
pub resize : ℕ → List ℕ → List ℕ
resize zero name = []
resize (suc n) [] = 0 ∷ resize n []
resize (suc n) (c ∷ name) = c ∷ resize n name

overwrite : List ℕ → List ℕ → List ℕ
overwrite [] name = name
overwrite (c ∷ cs) [] = c ∷ cs
overwrite (c ∷ cs) (d ∷ name) = c ∷ overwrite cs name

-- The loop, with the status that is set last.
pub ask_name : ℕ → (ℕ → Answer) → ℕ → List ℕ → Option (ℤ × List ℕ)
ask_name zero ask len name = none
ask_name (suc fuel) ask len name =
    let a = ask len in
    let name' = overwrite a.written name in
    let rest = ask_name fuel ask a.size (resize a.size name') in
    if is_negative a.status && is_enobufs a.status then rest else some (a.status, name')

pub pipe_name : ℕ → (ℕ → Answer) → Option (ℤ × List ℕ)
pipe_name fuel ask = ask_name fuel ask 108 (resize 108 [])

-- What libuv documents, of a pipe with a name: it fills a buffer of the size needed, and asks for
-- this size where the buffer is too small.
pub record IsNamed (name : List ℕ) (need : ℕ) (ask : ℕ → Answer) : Type 0 where
  pub fits : length name ≤ need
  pub enough :
      (len : ℕ)
      → need ≤ len
      → ask len ≡ record { status = pos 0; size = length name; written = name }
  pub short :
      (len : ℕ) → len < need → ask len ≡ record { status = uv_enobufs; size = need; written = [] }

resize-twice : (m k : ℕ) → resize m (resize k []) ≡ resize m []
unfolding resize
resize-twice zero k = refl
resize-twice (suc m) zero = refl
resize-twice (suc m) (suc k) = ap (λ t. 0 ∷ t) (resize-twice m k)

overwrite-resize :
    (name : List ℕ) (n : ℕ)
    → length name ≤ n
    → overwrite name (resize n []) ≡ name ++ resize (n - length name) []
unfolding overwrite resize
overwrite-resize [] n fits = let same : n - 0 ≡ n = omega arith in rw same refl
overwrite-resize (c ∷ name) zero fits = absurd (omega (arith, fits))
overwrite-resize (c ∷ name) (suc n) fits =
    let same : suc n - suc (length name) ≡ n - length name = omega arith in
    rw (same, overwrite-resize name n (omega (arith, fits))) refl

module _ (name : List ℕ) (need : ℕ) (ask : ℕ → Answer) (named : IsNamed name need ask) where
  enough_lem :
      (fuel len : ℕ)
      → need ≤ len
      → ask_name (suc fuel) ask len (resize len [])
        ≡ some (pos 0, name ++ resize (len - length name) [])
  unfolding ask_name
  enough_lem fuel len more =
      rw (named.enough len more, overwrite-resize name len (omega (arith, named.fits, more))) refl

  short_lem :
      (fuel len : ℕ)
      → len < need
      → ask_name (suc (suc fuel)) ask len (resize len [])
        ≡ some (pos 0, name ++ resize (need - length name) [])
  unfolding ask_name overwrite
  short_lem fuel len less =
      rw (named.short len less, resize-twice need len) (enough_lem fuel need (omega arith))

  -- The name of a pipe is found in at most two rounds, and is followed by null characters up to the
  -- size of the buffer, which is 108 or else what libuv needs. It is given that libuv answers as
  -- documented.
  pub pipe_name-pads :
      (fuel : ℕ)
      → pipe_name (suc (suc fuel)) ask
        ≡ some (pos 0, name ++ resize ((if leb need 108 then 108 else need) - length name) [])
  unfolding pipe_name
  pipe_name-pads fuel = elim (Bool-cases (leb need 108)) [
    | inl small ↦ rw small (enough_lem (suc fuel) 108 (ground (arith, small)))
    | inr large ↦ rw large (short_lem fuel 108 (ground (arith, large)))
  ]

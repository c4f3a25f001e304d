-- ===== src/References.antt =====
-- The variables of the classes handle, request, loop and buffer: each holds a pointer to a counted
-- instance, 0 where it is void. The special member functions are the same text in the four classes;
-- here they are over the two operations on the instance, `ref` and `unref`. A member function that
-- changes a variable returns the variable's new value.
pub mod Places
pub mod Steps
pub mod Programs
use uvcc.Prelude.{
  ℕ, suc, Bool, true, false, not, List, [], ◌∷◌, Option, none, some, get_elem?, set, ◌==◌,
  if◌then◌else◌,
}
use uvcc.Runtime.{M, pure, ◌>>=◌, ◌>>◌, when}

module _ (ref unref : ℕ → M (Unit {0})) where
  -- `if (p)  instance::from(p)->ref();`
  pub ref_if : ℕ → M (Unit {0})
  ref_if p = when (not (p == 0)) (ref p)

  unfoldable pub unref_if : ℕ → M (Unit {0})
  unref_if p = when (not (p == 0)) (unref p)

  -- The constructor from a pointer, and through it the copy constructor.
  unfoldable pub copy_construct : ℕ → M ℕ
  copy_construct that = do ref_if that; pure that

  -- The destructor.
  unfoldable pub destruct : ℕ → M (Unit {0})
  destruct this = unref_if this

  -- `operator =(const T&)`; `same` is `this == &_that`.
  unfoldable pub copy_assign : (same : Bool) → ℕ → ℕ → M ℕ
  copy_assign same this that = if same then pure this else do ref_if that; unref_if this; pure that

  -- The move constructor: the new variable, and what `_that` is left as.
  unfoldable pub move_construct : ℕ → M (ℕ × ℕ)
  move_construct that = pure (that, 0)

  -- `operator =(T&&)`: both variables.
  unfoldable pub move_assign : (same : Bool) → ℕ → ℕ → M (ℕ × ℕ)
  move_assign same this that = if same then pure (this, that) else do unref_if this; pure (that, 0)

  unfoldable pub swap : ℕ → ℕ → M (ℕ × ℕ)
  swap this that = pure (that, this)

-- What a program does with its variables, which it names by their places in a list.
pub data Operation : Type 0 where
  copies : ℕ → Operation
  moves : ℕ → Operation
  assigns : ℕ → ℕ → Operation
  move_assigns : ℕ → ℕ → Operation
  swaps : ℕ → ℕ → Operation
  drops : ℕ → Operation

module _ (ref unref : ℕ → M (Unit {0})) where
  -- One variable: a copy in front of the list, a move there, or the end of its life, after which
  -- its place is void.
  pub with_one : Operation → List ℕ → ℕ → Option ℕ → M (List ℕ)
  with_one op vars i none = pure vars
  with_one (copies _) vars i (some v) = do v' ← copy_construct ref unref v; pure (v' ∷ vars)
  with_one (moves _) vars i (some v) = do
    (new, old) ← move_construct ref unref v
    pure (new ∷ set vars i old)
  with_one (drops _) vars i (some v) = do destruct ref unref v; pure (set vars i 0)
  with_one op vars i (some v) = pure vars

  -- Two variables, at the places `i` and `j`.
  pub with_two : Operation → List ℕ → ℕ → ℕ → Option ℕ → Option ℕ → M (List ℕ)
  with_two op vars i j none that = pure vars
  with_two op vars i j (some this) none = pure vars
  with_two (assigns _ _) vars i j (some this) (some that) = do
    v ← copy_assign ref unref (i == j) this that
    pure (set vars i v)
  with_two (move_assigns _ _) vars i j (some this) (some that) = do
    (v, left) ← move_assign ref unref (i == j) this that
    pure (set (set vars j left) i v)
  with_two (swaps _ _) vars i j (some this) (some that) = do
    (v, u) ← swap ref unref this that
    pure (set (set vars i v) j u)
  with_two op vars i j (some this) (some that) = pure vars

  -- An operation on a variable that is not there does nothing.
  pub perform : Operation → List ℕ → M (List ℕ)
  unfolding with_one with_two
  perform (copies i) vars = with_one (copies i) vars i (get_elem? vars i)
  perform (moves i) vars = with_one (moves i) vars i (get_elem? vars i)
  perform (drops i) vars = with_one (drops i) vars i (get_elem? vars i)
  perform (assigns i j) vars = with_two (assigns i j) vars i j (get_elem? vars i) (get_elem? vars j)
  perform (move_assigns i j) vars =
      with_two (move_assigns i j) vars i j (get_elem? vars i) (get_elem? vars j)
  perform (swaps i j) vars = with_two (swaps i j) vars i j (get_elem? vars i) (get_elem? vars j)

  pub run : List Operation → List ℕ → M (List ℕ)
  unfolding perform
  run [] vars = pure vars
  run (op ∷ ops) vars = do vars' ← perform op vars; run ops vars'

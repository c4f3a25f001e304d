-- ===== src/References/Programs.antt =====
-- Every program over such variables keeps each count equal to the number of variables that refer to
-- the instance, given the laws of `ref` and `unref` for one instance.
use uvcc.Prelude.{
  ℕ, ◌+◌, ◌<◌, ◌≡◌, refl, List, [], ◌∷◌, Option, none, some, arith, get_elem?, length,
}
use uvcc.Utility.RefCount.{long_mod}
use uvcc.Runtime.{World, ok, M}
use uvcc.References.Places.{referring}
use uvcc.References.{
  Operation, copies, moves, assigns, move_assigns, swaps, drops, with_one, with_two, perform, run,
}
use uvcc.References.Steps.{
  Counting, Keeps, copies-Keeps, moves-Keeps, drops-Keeps, swaps-Keeps, assigns-Keeps,
  move_assigns-Keeps,
}

module _ {ref unref : ℕ → M (Unit {0})} {Inv : World → (ℕ → ℕ) → Type 0}
    (laws : Counting ref unref Inv) where
  unchanged-Keeps :
      (w : World) (vars : List ℕ)
      → Inv w (referring vars)
      → Keeps laws (length vars + 1) (ok vars w)
  unchanged-Keeps w vars inv = (vars, w, refl, inv, omega arith)

  module _ (w : World) (vars : List ℕ) (inv : Inv w (referring vars))
      (room : length vars + 1 < long_mod) (op : Operation) where
    at_one :
        (i : ℕ)
        → ((v : ℕ)
            → get_elem? vars i ≡ some v
            → Keeps laws (length vars + 1) (with_one ref unref op vars i (some v) w))
        → (o : Option ℕ) → get_elem? vars i ≡ o
        → Keeps laws (length vars + 1) (with_one ref unref op vars i o w)
    unfolding with_one
    at_one i case none e = unchanged-Keeps w vars inv
    at_one i case (some v) e = case v e

    at_two :
        (i j : ℕ)
        → ((this that : ℕ)
            → get_elem? vars i ≡ some this
            → get_elem? vars j ≡ some that
            → Keeps laws
                (length vars + 1)
                (with_two ref unref op vars i j (some this) (some that) w))
        → (o o' : Option ℕ) → get_elem? vars i ≡ o
        → get_elem? vars j ≡ o'
        → Keeps laws (length vars + 1) (with_two ref unref op vars i j o o' w)
    unfolding with_two
    at_two i j case none o' e e' = unchanged-Keeps w vars inv
    at_two i j case (some this) none e e' = unchanged-Keeps w vars inv
    at_two i j case (some this) (some that) e e' = case this that e e'

  perform-Keeps :
      (w : World) (vars : List ℕ) (op : Operation)
      → Inv w (referring vars)
      → length vars + 1 < long_mod
      → Keeps laws (length vars + 1) (perform ref unref op vars w)
  unfolding perform
  perform-Keeps w vars (copies i) inv room =
      at_one w vars inv room (copies i) i (λ v e. copies-Keeps laws w vars inv room i v e)
        (get_elem? vars i) refl
  perform-Keeps w vars (moves i) inv room =
      at_one w vars inv room (moves i) i (λ v e. moves-Keeps laws w vars inv room i v e)
        (get_elem? vars i) refl
  perform-Keeps w vars (drops i) inv room =
      at_one w vars inv room (drops i) i (λ v e. drops-Keeps laws w vars inv room i v e)
        (get_elem? vars i) refl
  perform-Keeps w vars (assigns i j) inv room =
      at_two w vars inv room (assigns i j) i j (assigns-Keeps laws w vars inv room i j)
        (get_elem? vars i) (get_elem? vars j) refl refl
  perform-Keeps w vars (move_assigns i j) inv room =
      at_two w vars inv room (move_assigns i j) i j (move_assigns-Keeps laws w vars inv room i j)
        (get_elem? vars i) (get_elem? vars j) refl refl
  perform-Keeps w vars (swaps i j) inv room =
      at_two w vars inv room (swaps i j) i j (swaps-Keeps laws w vars inv room i j)
        (get_elem? vars i) (get_elem? vars j) refl refl

  -- From variables that the counts agree with, as many copies, moves, assignments, swaps and
  -- destructions as there are run to the end with no use of a deleted instance and no exception,
  -- and the counts agree with the variables again: an instance is alive just as long as a variable
  -- refers to it.
  pub run-Keeps :
      (ops : List Operation) (w : World) (vars : List ℕ)
      → Inv w (referring vars)
      → length vars + length ops < long_mod
      → Keeps laws (length vars + length ops) (run ref unref ops vars w)
  unfolding run
  run-Keeps [] w vars inv room = (vars, w, refl, inv, omega arith)
  run-Keeps (op ∷ ops) w vars inv room =
      let (vars', w', r, inv', n') = perform-Keeps w vars op inv (omega arith) in
      let (vars'', w'', r', inv'', n'') = run-Keeps ops w' vars' inv' (omega arith) in
      (vars'', w'', rw r r', inv'', omega arith)

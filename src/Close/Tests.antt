-- ===== src/Close/Tests.antt =====
-- Tests of the request that closes a file.
use uvcc.Prelude.{ℕ, ◌≡◌, refl, none, false, true, arith, [], ◌∷◌, ◌==◌, if◌then◌else◌}
use uvcc.Prelude.Int.{pos}
use uvcc.Runtime.{
  World, Instance, RequestBody, HandleType, Rdcmd, M, pure, ◌>>=◌, uv_fs_close, uv_fs_close_file,
}
use uvcc.Runtime.Counts.{gain}
use uvcc.Runtime.Ends.{Ends}
use uvcc.Runtime.Fixtures.{one, owning, a_handle, a_request, agreeable}
use uvcc.Transfer.Counts.{Counts, Held}
use uvcc.Transfer.Completion.{Harmless}
use uvcc.Transfer.Fixtures.{nobody, ready, nothing_saved, idle}
use uvcc.Close.{close}
use uvcc.Close.Steps.{stopped}
use uvcc.Close.Again.{Among, close-again}
use uvcc.Handle
use uvcc.Handle.Counted.{Inv}
use uvcc.Close.Balance.{complete_close, close-completes}

idle-Harmless : Harmless nobody idle
idle-Harmless h r b w q counts = (tt, w, refl, counts)

held_again : Held (gain (owning 1) 1) 1
held_again = (omega arith, omega arith)

abbrev no_buffer : ℕ → ℕ → M ℕ
no_buffer p size = pure 0

-- A file that is read: one variable and the file itself refer to it.
abbrev reading : World
reading = record ready { handles = one (a_handle 2 1 HandleType.file Rdcmd.start) }

abbrev twice : ℕ → ℕ
twice p = if p == 1 then 2 else 0

reading-Counts : Counts nobody twice (owning 1) (owning 1) reading
reading-Counts = (
  (
    1 ∷ [],
    record {
      counted = λ p. ground arith;
      listed = λ p. ground arith;
      booked = λ l. ground arith;
      small = λ l. ground arith;
    },
  ),
  λ q. ground arith,
  λ c. ground arith,
  λ c i e. ground (arith, e),
)

close-completes_example :
    Ends
      ((close agreeable false 0 nothing_saved no_buffer idle 1 1
          >>= complete_close nobody agreeable false 0 nothing_saved no_buffer idle
              (λ t l. refl)
              idle-Harmless
              twice
              (owning 1)
              (owning 1)
              1
              1
              Rdcmd.start
              (omega arith)
              held_again
              (omega arith)
              (omega arith)
              (omega arith)
              true
              (pos 0))
        reading)
      (λ _ w'. Counts nobody (stopped twice 1 Rdcmd.start) (owning 1) (owning 1) w')
close-completes_example =
    close-completes nobody agreeable false 0 nothing_saved no_buffer idle (λ t l. refl)
      idle-Harmless twice (owning 1) (owning 1) 1 1 Rdcmd.start (omega arith) held_again
      (omega arith) (omega arith) (omega arith) reading (a_request 1) (pos 0) reading-Counts
      (_, refl, refl) refl

-- A file that is open and not read, and a request without a callback.
abbrev silent : Instance RequestBody
silent = record (a_request 1) { body = record ((a_request 1).body) { has_request_cb = false } }

abbrev quiet : World
quiet = record ready {
  handles = one (a_handle 1 1 HandleType.file Rdcmd.stop);
  requests = one silent;
}

quiet-Inv : Inv nobody quiet (owning 1)
quiet-Inv = (
  1 ∷ [],
  record {
    counted = λ p. ground arith;
    listed = λ p. ground arith;
    booked = λ l. ground arith;
    small = λ l. ground arith;
  },
)

close-again_example : Ends (close agreeable false 0 nothing_saved no_buffer idle 1 1 quiet) (λ _ w1.
    Ends (Handle.unref agreeable false 0 1 w1) (λ _ w2. w2.handles 1 ≡ none)
    × (w2 : World) × (Handle.unref agreeable false 0 1 w1 ≡ Handle.delete agreeable false 0 1 w2)
    × (Among (uv_fs_close_file 1 1) w2.trace × Among (uv_fs_close (pos 0)) w2.trace))
close-again_example =
    close-again nobody (owning 1) 1 1 agreeable false 0 nothing_saved no_buffer idle
      (a_handle 1 1 HandleType.file Rdcmd.stop) silent refl (λ t l. refl) quiet quiet-Inv refl refl
      refl refl refl refl

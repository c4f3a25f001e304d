-- ===== src/File/Chain.antt =====
-- When the chain of reads goes on, ends, or uses a deleted file.
use uvcc.Prelude.{leb, ℕ, suc, ◌+◌, ◌<◌, ◌≡◌, ◌∷◌, refl, Bool, true, false, some, arith}
use uvcc.Prelude.Int.{ℤ, pos}
use uvcc.Utility.RefCount.{long_mod}
use uvcc.Runtime.{
  World, M, Instance, HandleBody, Rdcmd, LibUv, ok, called, and_then, uv_fs_read_cleanup, call,
}
use uvcc.Runtime.Ends.{Ends}
use uvcc.Buffer.Sharing.{Sink}
use uvcc.Io.{is_reading}
use uvcc.Io.State.{State}
use uvcc.Io.Callbacks.{io_read_cb}
use uvcc.Io.Callbacks.Dangling.{Leaves, io_read_cb-keeps}
use uvcc.File.{drop_buffer, read_on, file_read_cb}

-- The world behind the cleanup of the request of the file `p`.
abbrev pub cleaned : ℕ → LibUv → World → World
cleaned p uv w = record w {
  trace = called (uv_fs_read_cleanup p) (uv w.trace (uv_fs_read_cleanup p)) ∷ w.trace;
}

module _ (others own : ℕ → ℕ) (p : ℕ) (uv : LibUv) (uncaught : Bool) (fuel : ℕ) (sink : ℕ → Sink)
    (alloc_cb : ℕ → ℕ → M ℕ) (read_cb : ℕ → ℤ → ℕ → ℤ → M (Unit {0})) where
  module _ (n : ℕ) (s s' : Rdcmd) (w : World) (i : Instance HandleBody) (size : ℕ)
      (h : State others own p n s w) (e : w.handles p ≡ some i) (set : i.body.has_read_cb ≡ true)
      (held : 0 < own p + n) (room : own p + n + 2 < long_mod) where
    -- The data of a read is delivered first.
    deliver :
        file_read_cb uv uncaught fuel sink alloc_cb read_cb p (pos (suc size)) w
        ≡ and_then (io_read_cb uv uncaught fuel read_cb p (pos (suc size)) i.body.rd_buf w) λ _ w'.
          and_then (call uv (uv_fs_read_cleanup p) w') λ _. read_on uv uncaught fuel sink alloc_cb p
    unfolding file_read_cb drop_buffer
    deliver = let some_read : leb (suc size) 0 ≡ false = ground arith in rw (some_read, e) refl

    read_on-idle :
        (m : ℕ) (w' : World)
        → is_reading s' ≡ false
        → State others own p m s' w'
        → read_on uv uncaught fuel sink alloc_cb p w' ≡ ok tt w'
    unfolding read_on
    read_on-idle m w' idle (j, inv, ej, st) = rw (ej, st, idle) refl

    -- A read of data from a file ends the chain of reads if the user's callback leaves the file in a
    -- state in which it does not read: `io_read_cb` runs to its end, and in the world that it leaves
    -- the only thing that is still done is the cleanup of the request, so that no further read is
    -- issued and no buffer asked for. The references and the state are those that the callback has
    -- left. It is given that the callback leaves another reference than that of its parameter.
    pub file_read_cb-ends :
        (n' : ℕ)
        → Leaves others own p uv uncaught fuel read_cb
            (suc n)
            s
            (pos (suc size))
            i.body.rd_buf
            (suc n')
            s'
        → is_reading s' ≡ false
        → 0 < own p + n'
        → own p + suc n' < long_mod
        → Ends (io_read_cb uv uncaught fuel read_cb p (pos (suc size)) i.body.rd_buf w) (λ _ w1.
          (file_read_cb uv uncaught fuel sink alloc_cb read_cb p (pos (suc size)) w
            ≡ ok tt (cleaned p uv w1))
          × State others own p n' s' (cleaned p uv w1))
    file_read_cb-ends n' user idle left small =
        let (_, w1, e1, (j, inv, ej, st)) =
          io_read_cb-keeps others own p uv uncaught fuel read_cb n s s' w i (pos (suc size))
            i.body.rd_buf h e set held room n' user left small in
        let h2 : State others own p n' s' (cleaned p uv w1) = (
          j,
          (
            inv.0,
            record {
              counted = inv.1.counted;
              listed = inv.1.listed;
              booked = inv.1.booked;
              small = inv.1.small;
            },
          ),
          ej,
          st,
        ) in
        (tt, w1, e1, (rw (deliver, e1) (read_on-idle n' (cleaned p uv w1) idle h2), h2))

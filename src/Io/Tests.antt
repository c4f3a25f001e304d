-- ===== src/Io/Tests.antt =====
-- Tests of the reading commands.
use uvcc.Prelude.{ℕ, refl, false, true, List, [], ◌∷◌, ◌++◌, arith}
use uvcc.Prelude.Int.{pos, negsuc}
use uvcc.Runtime.{World, Instance, HandleBody, HandleType, Rdcmd, stop}
use uvcc.Runtime.Ends.{Ends}
use uvcc.Runtime.Fixtures.{one, owning, empty, a_loop, a_handle, agreeable}
use uvcc.Io.{
  stream_interface, udp_interface, Command, starts, starts_with, stops, pauses, resumes, command,
}
use uvcc.Io.Commands.{Reads}
use uvcc.Io.Interfaces.{stream-Quiet, udp-Quiet}
use uvcc.Io.Table.{Stepped, commands, command-Step, commands-balance}

-- A stream that one variable refers to.
abbrev idle : Instance HandleBody
idle = a_handle 1 1 HandleType.tcp Rdcmd.stop

abbrev connected : World
connected = record empty { handles = one idle; loops = one (a_loop 1) }

abbrev nobody : ℕ → ℕ
nobody l = 0

idle-Reads : Reads nobody (owning 1) 1 stop connected
idle-Reads = (
  idle,
  (
    1 ∷ [],
    record {
      counted = λ p. ground arith;
      listed = λ p. ground arith;
      booked = λ l. ground arith;
      small = λ l. ground arith;
    },
  ),
  refl,
  refl,
)

command-Step_example :
    Ends (command agreeable false 0 (stream_interface agreeable) (starts 10 (pos 5)) 1 connected) (
      Stepped agreeable false 0
        (stream_interface agreeable)
        nobody
        (owning 1)
        1
        (stream-Quiet agreeable nobody (owning 1) 1)
        (omega arith)
        (omega arith)
        (starts 10 (pos 5))
        stop)
command-Step_example =
    command-Step agreeable false 0 (stream_interface agreeable) nobody (owning 1) 1
      (stream-Quiet agreeable nobody (owning 1) 1) (omega arith) (omega arith) (starts 10 (pos 5))
      stop connected idle-Reads

abbrev orders : List Command
orders =
    starts 10 (pos 5)
    ∷ pauses true
    ∷ resumes true
    ∷ starts_with true false 0 (negsuc 0)
    ∷ starts_with true true 0 (negsuc 0)
    ∷ []

commands-balance_example :
    Ends
      (commands agreeable false 0
        (udp_interface agreeable)
        nobody
        (owning 1)
        1
        (udp-Quiet agreeable nobody (owning 1) 1)
        (omega arith)
        (omega arith)
        (orders ++ (stops ∷ []))
        connected)
      (λ _ w'. Reads nobody (owning 1) 1 stop w')
commands-balance_example =
    commands-balance agreeable false 0 (udp_interface agreeable) nobody (owning 1) 1
      (udp-Quiet agreeable nobody (owning 1) 1) (omega arith) (omega arith) orders stop connected
      idle-Reads

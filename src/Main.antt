-- ===== src/Main.antt =====
-- src/main.cpp: the wire server's program. The command line is parsed by TCLAP: its values are an
-- argument.
pub mod Script
pub mod Reached
pub mod Exit
mod Tests
use cucumber_cpp.Base.{
  ℕ, ◌%◌, ◌^◌, Bool, true, false, not, Option, none, some, List, [], ◌∷◌, ◌++◌, if◌then◌else◌,
  is_empty, Text, codes,
}
use cucumber_cpp.Commands.{CukeCommands, World, Outcome, destroy}
use cucumber_cpp.Wire.Json.{Json}
use cucumber_cpp.Wire.Handler.{Program}
use cucumber_cpp.Wire.Server.{
  Platform, Process, Ended, finished, failed, aborted, no_fuel, Action, ◌>>◌, go_on, pass,
  tcp_endpoint, make_address, call, tcp_listen, unix_listen, listen_endpoint, destroy_unix_server,
  accept_once,
}

-- The values of the command line; the port is an `int` by its bits.
pub record Arguments : Type 0 where
  pub listen_host : Text
  pub port : ℕ
  pub unix_path : Text
  pub verbose : Bool

-- `port_type` is `unsigned short`.
abbrev pub port_limit : ℕ
port_limit = 2 ^ 16

-- The exit code; `none` if the process is aborted.
abbrev pub exit_code : Ended → Option ℕ
exit_code finished = some 0
exit_code (failed what) = some 1
exit_code aborted = none
exit_code no_fuel = none

module _ {U : Type 0} where
  -- An object on the stack is destroyed however the block ends; an exception of its destructor ends
  -- the process.
  abbrev pub or_abort : Ended → Ended × Process U → Ended × Process U
  or_abort e (finished, s) = (e, s)
  or_abort e (failed what, s) = (aborted, s)
  or_abort e (aborted, s) = (aborted, s)
  or_abort e (no_fuel, s) = (no_fuel, s)

  abbrev pub leave_block : Action U → Ended × Process U → Ended × Process U
  leave_block destructor (aborted, s) = (aborted, s)
  leave_block destructor (no_fuel, s) = (no_fuel, s)
  leave_block destructor (finished, s) = or_abort finished (destructor s)
  leave_block destructor (failed what, s) = or_abort (failed what) (destructor s)

  abbrev pub destroyed : Process U → Outcome U Unit → Ended × Process U
  destroyed s (Outcome.done u c) = (finished, record s { commands = c })
  destroyed s (Outcome.escaped t c) = (failed [], record s { commands = c })

  -- The end of the engine, which holds the commands.
  unfoldable pub destroy_engine : Program U → Action U
  unfolding destroy
  destroy_engine p s = destroyed s (destroy p.hooks s.commands)

  module _ (platform : Platform) (json : Json) (p : Program U) where
    unfoldable pub report : Bool → Action U
    unfolding listen_endpoint
    report verbose s = if verbose then listen_endpoint platform s else pass s

    unfoldable pub serve_unix : Arguments → Action U
    unfolding unix_listen destroy_unix_server report accept_once
    serve_unix a s =
        leave_block (destroy_unix_server platform)
          ((unix_listen platform a.unix_path >> report a.verbose >> accept_once platform json p) s)

    unfoldable pub serve_tcp : Arguments → Action U
    unfolding call tcp_listen report accept_once
    serve_tcp a =
        call platform (make_address a.listen_host)
        >> tcp_listen platform (tcp_endpoint a.listen_host (a.port % port_limit))
        >> report a.verbose
        >> accept_once platform json p

    unfoldable pub accept_wire_protocol : Arguments → Action U
    unfolding serve_unix serve_tcp destroy_engine
    accept_wire_protocol a s =
        leave_block (destroy_engine p)
          (if not (is_empty a.unix_path) then serve_unix a s else serve_tcp a s)

    unfoldable pub main : Arguments → Process U → Option ℕ × Process U
    unfolding accept_wire_protocol
    main a s = let (e, s') = accept_wire_protocol a s in (exit_code e, s')

-- ===== src/Wire/Server.antt =====
-- src/connectors/wire/WireServer.cpp and its header: the servers over asio's acceptors and the file
-- system. What asio and the file system do is an argument: each call may fail, by the calls before
-- it. `processStream` stands in Wire/Handler.
use cucumber_cpp.Base.{
  ℕ, Bool, true, Option, none, some, List, [], ◌∷◌, ◌++◌, if◌then◌else◌, Text, codes,
}
use cucumber_cpp.Commands.{CukeCommands}
use cucumber_cpp.Wire.Json.{Json}
use cucumber_cpp.Wire.Handler.{Program, process_stream}

pub data Endpoint : Type 0 where
  tcp_endpoint : Text → ℕ → Endpoint
  unix_endpoint : Text → Endpoint

-- The calls that can fail.
pub data Call : Type 0 where
  make_address status remove : Text → Call
  open_acceptor bind : Endpoint → Call
  listen : ℕ → Call
  set_reuse_address set_no_delay accept local_endpoint : Call

-- What the calls give, by the calls before: the text of an error, if any; whether a path is a
-- socket; the path of the bound socket; and the lines that the accepted client sends.
pub record Platform : Type 0 where
  pub fails : List Call → Call → Option Text
  pub is_socket : List Call → Text → Bool
  pub local_path : List Call → Text
  pub requests : List Text
  pub already_open : Text

-- The acceptor's `is_open()`, the calls so far, the lines written to the client, and the engine's
-- state.
pub record Process (U : Type 0) : Type 0 where
  pub is_open : Bool
  pub calls : List Call
  pub written : List Text
  pub commands : CukeCommands U

-- How a part of the program ends: it returns, throws an exception with a text, or ends the process
-- by an exception in a destructor; or a chain of hooks runs out of fuel.
pub data Ended : Type 0 where
  finished : Ended
  failed : Text → Ended
  aborted no_fuel : Ended

abbrev pub Action : Type 0 → Type 0
Action U = Process U → Ended × Process U

abbrev pub go_on : {U : Type 0} → Ended × Process U → Action U → Ended × Process U
go_on (finished, s) next = next s
go_on (failed what, s) next = (failed what, s)
go_on (aborted, s) next = (aborted, s)
go_on (no_fuel, s) next = (no_fuel, s)

-- Statements in a row.
infixr 4 ◌>>◌
abbrev pub ◌>>◌ : {U : Type 0} → Action U → Action U → Action U
first >> next = λ s. go_on (first s) next

-- An open acceptor stays open.
abbrev pub opens : Call → Bool → Bool
opens (open_acceptor endpoint) is_open = true
opens (make_address host) is_open = is_open
opens (status path) is_open = is_open
opens (remove path) is_open = is_open
opens (bind endpoint) is_open = is_open
opens (listen backlog) is_open = is_open
opens set_reuse_address is_open = is_open
opens set_no_delay is_open = is_open
opens accept is_open = is_open
opens local_endpoint is_open = is_open

module _ {U : Type 0} where
  abbrev pub pass : Action U
  pass s = (finished, s)

  module _ (platform : Platform) where
    abbrev pub call_end : Call → Process U → Option Text → Ended × Process U
    call_end c s none =
        (finished, record s { is_open = opens c s.is_open; calls = s.calls ++ c ∷ [] })
    call_end c s (some what) = (failed what, record s { calls = s.calls ++ c ∷ [] })

    unfoldable pub call : Call → Action U
    call c s = call_end c s (platform.fails s.calls c)

    -- `doListen`.
    unfoldable pub do_listen : Endpoint → Action U
    unfolding call
    do_listen endpoint s =
        if s.is_open
        then (failed platform.already_open, s)
        else (call (open_acceptor endpoint)
              >> call set_reuse_address
              >> call (bind endpoint)
              >> call (listen 1))
            s

    -- `TCPSocketServer::listen`, for an endpoint and for a port.
    unfoldable pub tcp_listen : Endpoint → Action U
    unfolding do_listen
    tcp_listen endpoint = do_listen endpoint >> call set_no_delay

    unfoldable pub tcp_listen_port : ℕ → Action U
    unfolding tcp_listen
    tcp_listen_port port = tcp_listen (tcp_endpoint (codes "0.0.0.0") port)

    -- `UnixSocketServer::listen`: a socket that is left over is removed.
    unfoldable pub remove_socket : Text → Action U
    unfolding call
    remove_socket path s = if platform.is_socket s.calls path then call (remove path) s else pass s

    unfoldable pub unix_listen : Text → Action U
    unfolding remove_socket do_listen
    unix_listen path = call (status path) >> remove_socket path >> do_listen (unix_endpoint path)

    unfoldable pub listen_endpoint : Action U
    unfolding call
    listen_endpoint = call local_endpoint

    -- `~UnixSocketServer`.
    unfoldable pub remove_path : Action U
    unfolding call
    remove_path s = call (remove (platform.local_path s.calls)) s

    unfoldable pub destroy_unix_server : Action U
    unfolding remove_path
    destroy_unix_server s = if s.is_open then (call local_endpoint >> remove_path) s else pass s

    module _ (json : Json) (p : Program U) where
      unfoldable pub serve : Action U
      unfolding process_stream
      serve s = elim (process_stream json p platform.requests s.commands) [
        | none ↦ (no_fuel, s)
        | some (lines, c) ↦ (finished, record s { written = s.written ++ lines; commands = c })
      ]

      -- `doAcceptOnce`, which both servers call.
      unfoldable pub accept_once : Action U
      unfolding serve
      accept_once = call accept >> serve

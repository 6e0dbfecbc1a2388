-- ===== src/Main/Tests.antt =====
-- The program on a TCP port, and on a path whose bind fails.
use cucumber_cpp.Base.{◌≡◌, refl, true, false, Option, none, some, [], ◌∷◌, Text, codes}
use cucumber_cpp.Wire.Server.{
  Call, bind, unix_endpoint, tcp_endpoint, make_address, status, remove, open_acceptor, listen,
  set_reuse_address, set_no_delay, accept, local_endpoint, Platform,
}
use cucumber_cpp.Wire.Tests.{json, program, idle, line}
use cucumber_cpp.Main.{Arguments, main}
use cucumber_cpp.Main.Script.{tcp_calls}
use cucumber_cpp.Main.Reached.{Ends, reached, cleaned_up, all_unix_calls, fresh}
use cucumber_cpp.Main.Exit.{main-tcp_calls, main-unix_calls}

-- Only the bind of a path fails.
abbrev bind_fails : Call → Option Text
bind_fails (bind (unix_endpoint path)) = some (codes "Address already in use")
bind_fails c = none

abbrev platform : Platform
platform = record {
  fails = λ before c. bind_fails c;
  is_socket = λ before path. true;
  local_path = λ before. [];
  requests = line ∷ codes "junk" ∷ [];
  already_open = codes "Already open";
}

-- The port 65539 is taken as 3.
abbrev arguments : Text → Arguments
arguments path = record {
  listen_host = codes "127.0.0.1";
  port = 65539;
  unix_path = path;
  verbose = true;
}

port_example :
    (reached platform [] false (tcp_calls (arguments []))).calls
    ≡ make_address (codes "127.0.0.1")
      ∷ open_acceptor (tcp_endpoint (codes "127.0.0.1") 3)
      ∷ set_reuse_address
      ∷ bind (tcp_endpoint (codes "127.0.0.1") 3)
      ∷ listen 1
      ∷ set_no_delay
      ∷ local_endpoint
      ∷ accept
      ∷ []
port_example = refl

main-tcp_calls_example :
    let r = reached platform [] false (tcp_calls (arguments [])) in
    Ends json program platform.requests idle r.error none r.calls
      (main platform json program (arguments []) (fresh idle))
main-tcp_calls_example = main-tcp_calls platform json program (arguments []) idle refl

-- The path of the Unix server.
abbrev path : Text
path = codes "/tmp/cuke"

unix_calls_example :
    (cleaned_up platform
      (reached platform [] false (all_unix_calls platform (arguments path)))).calls
    ≡ status path
      ∷ remove path
      ∷ open_acceptor (unix_endpoint path)
      ∷ set_reuse_address
      ∷ bind (unix_endpoint path)
      ∷ local_endpoint
      ∷ remove []
      ∷ []
unix_calls_example = refl

main-unix_calls_example :
    let r = reached platform [] false (all_unix_calls platform (arguments path)) in
    let q = cleaned_up platform r in
    Ends json program platform.requests idle r.error q.error q.calls
      (main platform json program (arguments path) (fresh idle))
main-unix_calls_example = main-unix_calls platform json program (arguments path) idle refl

-- ===== src/Main/Script.antt =====
-- The servers as scripts: rows of calls that end at the first one that fails.
use cucumber_cpp.Base.{
  ◌%◌, ◌≡◌, refl, ap, ◌∙◌, Bool, true, false, List, [], ◌∷◌, ◌++◌, if◌then◌else◌, Option-cases, inl,
  inr,
}
use cucumber_cpp.Wire.Json.{Json}
use cucumber_cpp.Wire.Handler.{Program}
use cucumber_cpp.Wire.Server.{
  Endpoint, tcp_endpoint, unix_endpoint, Call, make_address, status, remove, open_acceptor, bind,
  listen, set_reuse_address, set_no_delay, accept, local_endpoint, Platform, Process, Ended,
  finished, failed, aborted, no_fuel, Action, ◌>>◌, go_on, opens, pass, call, do_listen, tcp_listen,
  remove_socket, unix_listen, listen_endpoint, serve, accept_once,
}
use cucumber_cpp.Main.{Arguments, port_limit, report, serve_tcp}

-- The calls of `doListen`.
abbrev pub listen_calls : Endpoint → List Call
listen_calls endpoint = open_acceptor endpoint ∷ set_reuse_address ∷ bind endpoint ∷ listen 1 ∷ []

-- The calls of `listenEndpoint`, if wanted, and of `acceptOnce`.
abbrev pub accept_calls : Bool → List Call
accept_calls true = local_endpoint ∷ accept ∷ []
accept_calls false = accept ∷ []

-- The calls of a TCP server, and of a Unix server with a socket left over or without.
abbrev pub tcp_calls : Arguments → List Call
tcp_calls a =
    make_address a.listen_host
    ∷ (listen_calls (tcp_endpoint a.listen_host (a.port % port_limit))
        ++ set_no_delay ∷ accept_calls a.verbose)

abbrev pub unix_calls : Bool → Arguments → List Call
unix_calls left_over a =
    (if left_over then remove a.unix_path ∷ [] else [])
    ++ (listen_calls (unix_endpoint a.unix_path) ++ accept_calls a.verbose)

module _ {U : Type 0} where
  go_on_assoc : (x : Ended × Process U) (f g : Action U) → go_on (go_on x f) g ≡ go_on x (f >> g)
  go_on_assoc (finished, s) f g = refl
  go_on_assoc (failed what, s) f g = refl
  go_on_assoc (aborted, s) f g = refl
  go_on_assoc (no_fuel, s) f g = refl

  go_on_cong :
      (x : Ended × Process U) {f g : Action U}
      → ((s : Process U) → f s ≡ g s)
      → go_on x f ≡ go_on x g
  go_on_cong x h = λ i. go_on x (λ s. h s i)

  module _ (platform : Platform) where
    -- The calls in a row, and what follows them.
    abbrev pub run_script : List Call → Action U → Action U
    run_script [] next = next
    run_script (c ∷ calls) next = call platform c >> run_script calls next

    listening : Endpoint → Action U
    listening endpoint =
        call platform (open_acceptor endpoint)
        >> call platform set_reuse_address
        >> call platform (bind endpoint)
        >> call platform (listen 1)

    do_listen_closed :
        (endpoint : Endpoint) (s : Process U)
        → s.is_open ≡ false
        → do_listen platform endpoint s ≡ listening endpoint s
    unfolding do_listen listening
    do_listen_closed endpoint s closed =
        ap (λ b. if b then (failed platform.already_open, s) else listening endpoint s) closed

    listening_lem :
        (endpoint : Endpoint) (next : Action U) (s : Process U)
        → go_on (listening endpoint s) next ≡ run_script (listen_calls endpoint) next s
    unfolding listening
    listening_lem endpoint next s =
        go_on_assoc (call platform (open_acceptor endpoint) s) _ next
        ∙ go_on_cong (call platform (open_acceptor endpoint) s) λ s1.
          go_on_assoc (call platform set_reuse_address s1) _ next
          ∙ go_on_cong (call platform set_reuse_address s1)
              λ s2. go_on_assoc (call platform (bind endpoint) s2) (call platform (listen 1)) next

    do_listen_lem :
        (endpoint : Endpoint) (next : Action U) (s : Process U)
        → s.is_open ≡ false
        → go_on (do_listen platform endpoint s) next ≡ run_script (listen_calls endpoint) next s
    do_listen_lem endpoint next s closed =
        ap (λ x. go_on x next) (do_listen_closed endpoint s closed) ∙ listening_lem endpoint next s

    -- A call that does not open the acceptor leaves it closed.
    IsClosed-call :
        (c : Call) (s : Process U) (f g : Action U)
        → opens c s.is_open ≡ false
        → ((s' : Process U) → s'.is_open ≡ false → f s' ≡ g s')
        → go_on (call platform c s) f ≡ go_on (call platform c s) g
    unfolding call
    IsClosed-call c s f g closed h = elim (Option-cases (platform.fails s.calls c)) [
      | inl e ↦ rw (e, call) (h _ closed)
      | inr (what, e) ↦ rw (e, call) refl
    ]

    module _ (json : Json) (p : Program U) where
      -- The endpoint is told if wanted, and a client is accepted and served.
      accept_lem :
          (verbose : Bool) (s : Process U)
          → (report platform json p verbose >> accept_once platform json p) s
            ≡ run_script (accept_calls verbose) (serve platform json p) s
      unfolding report listen_endpoint accept_once
      accept_lem true s = refl
      accept_lem false s = refl

      accept_path :
          (verbose : Bool)
          → Path
              (Action U)
              (report platform json p verbose >> accept_once platform json p)
              (run_script (accept_calls verbose) (serve platform json p))
      accept_path verbose = λ i s. accept_lem verbose s i

      tcp_lem :
          (a : Arguments) (s : Process U)
          → s.is_open ≡ false
          → go_on
              (tcp_listen platform (tcp_endpoint a.listen_host (a.port % port_limit)) s)
              (report platform json p a.verbose >> accept_once platform json p)
            ≡ run_script
                (listen_calls (tcp_endpoint a.listen_host (a.port % port_limit))
                  ++ set_no_delay ∷ accept_calls a.verbose)
                (serve platform json p)
                s
      unfolding tcp_listen
      tcp_lem a s closed =
          let endpoint = tcp_endpoint a.listen_host (a.port % port_limit) in
          go_on_assoc (do_listen platform endpoint s) (call platform set_no_delay) _
          ∙ do_listen_lem endpoint _ s closed
          ∙ (λ i.
              run_script (listen_calls endpoint)
                (call platform set_no_delay >> accept_path a.verbose i) s)

      -- With a closed acceptor, the TCP server is its script, and serves the client.
      pub serve_tcp-run_script :
          (a : Arguments) (s : Process U)
          → s.is_open ≡ false
          → serve_tcp platform json p a s ≡ run_script (tcp_calls a) (serve platform json p) s
      unfolding serve_tcp
      serve_tcp-run_script a s closed =
          IsClosed-call (make_address a.listen_host) s _ _ closed λ s' closed'. tcp_lem a s' closed'

      unix_lem :
          (a : Arguments) (s : Process U)
          → s.is_open ≡ false
          → go_on
              (go_on
                (remove_socket platform a.unix_path s)
                (do_listen platform (unix_endpoint a.unix_path)))
              (report platform json p a.verbose >> accept_once platform json p)
            ≡ run_script
                (unix_calls (platform.is_socket s.calls a.unix_path) a)
                (serve platform json p)
                s
      unfolding remove_socket
      unix_lem a s closed =
          go_on_assoc (remove_socket platform a.unix_path s)
            (do_listen platform (unix_endpoint a.unix_path)) _
          ∙ elim (platform.is_socket s.calls a.unix_path)
              as (λ b.
                go_on (if b then call platform (remove a.unix_path) s else pass s) (
                  do_listen platform (unix_endpoint a.unix_path)
                  >> report platform json p a.verbose
                  >> accept_once platform json p)
                ≡ run_script (unix_calls b a) (serve platform json p) s) [
                  | true ↦ IsClosed-call (remove a.unix_path) s _ _ closed listens
                  | false ↦ listens s closed
                ]
        where
          listens :
              (s' : Process U)
              → s'.is_open ≡ false
              → go_on
                  (do_listen platform (unix_endpoint a.unix_path) s')
                  (report platform json p a.verbose >> accept_once platform json p)
                ≡ run_script
                    (listen_calls (unix_endpoint a.unix_path) ++ accept_calls a.verbose)
                    (serve platform json p)
                    s'
          listens s' closed' = do_listen_lem (unix_endpoint a.unix_path) _ s' closed' ∙ (λ i.
              run_script (listen_calls (unix_endpoint a.unix_path)) (accept_path a.verbose i) s')

      -- So is the Unix server behind the look at its path, which tells whether a socket is removed.
      pub unix_listen-run_script :
          (a : Arguments) (s : Process U)
          → s.is_open ≡ false
          → (unix_listen platform a.unix_path
                >> report platform json p a.verbose
                >> accept_once platform json p)
              s
            ≡ go_on (call platform (status a.unix_path) s) λ s'.
              run_script
                (unix_calls (platform.is_socket s'.calls a.unix_path) a)
                (serve platform json p)
                s'
      unfolding unix_listen
      unix_listen-run_script a s closed =
          go_on_assoc (call platform (status a.unix_path) s) _ _
          ∙ IsClosed-call (status a.unix_path) s _ _ closed λ s' closed'. unix_lem a s' closed'

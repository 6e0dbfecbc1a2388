-- ===== src/Main/Exit.antt =====
-- How the program ends: by which calls, with which exit code, and what the client has read.
use cucumber_cpp.Base.{
  ℕ, ◌≡◌, refl, sym, ap, subst, ◌∙◌, Bool, true, false, not, Option, none, some, List, [], ◌∷◌,
  ◌++◌, if◌then◌else◌, length, is_empty, Text, Option-cases, inl, inr,
}
use cucumber_cpp.Step.Body.{Exit, returns, throws}
use cucumber_cpp.Hook.Registrar.{exec_after_all_hooks}
use cucumber_cpp.Commands.{CukeCommands, World, destroy}
use cucumber_cpp.Wire.Json.{Json}
use cucumber_cpp.Wire.Handler.{Program, process_stream}
use cucumber_cpp.Wire.Answers.{process_stream-AnswersEach}
use cucumber_cpp.Wire.Server.{
  status, remove, local_endpoint, Platform, Process, Ended, finished, failed, aborted, no_fuel,
  ◌>>◌, go_on, pass, call, remove_path, unix_listen, accept_once, destroy_unix_server, serve,
}
use cucumber_cpp.Main.{
  Arguments, or_abort, leave_block, destroy_engine, report, serve_tcp, serve_unix,
  accept_wire_protocol, exit_code, main,
}
use cucumber_cpp.Main.Script.{run_script, tcp_calls, serve_tcp-run_script, unix_listen-run_script}
use cucumber_cpp.Main.Reached.{
  reached, fresh, all_unix_calls, cleaned_up, Destroys, not_started, hooks_return, hooks_throw,
  Serves, Ends, at, stopped, run_script-reached,
}

module _ {U : Type 0} where
  module _ (platform : Platform) where
    module _ (json : Json) (p : Program U) where
      -- A client is served to the end.
      serve_lem :
          (s : Process U)
          → s.written ≡ []
          → (lines : List Text) × (c : CukeCommands U) × (serve platform json p s
              ≡ (finished, record s { written = lines; commands = c }))
            × (process_stream json p platform.requests s.commands ≡ some (lines, c))
            × (length lines ≡ length platform.requests)
      unfolding serve
      serve_lem s empty =
          let (lines, c, e, n) = process_stream-AnswersEach p json platform.requests s.commands in
          (lines, c, rw (e, serve, empty) refl, e, n)

      -- How the destructor ends, by whether a hook has thrown.
      abbrev destroyed_by : Bool → Ended
      destroyed_by thrown = if thrown then failed [] else finished

      abbrev EngineEnds : Process U → Type 0
      EngineEnds s =
          (thrown : Bool) × (c : CukeCommands U) × Destroys p s.commands thrown c
          × (destroy_engine p s ≡ (destroyed_by thrown, record s { commands = c }))

      destroy_engine_lem : (s : Process U) → EngineEnds s
      unfolding destroy_engine destroy
      destroy_engine_lem s =
          elim s.commands.has_started
            as (λ b. EngineEnds (record s { commands = record s.commands { has_started = b } })) [
              | false ↦ (false, _, not_started refl, refl)
              | true ↦ ran (exec_after_all_hooks p.hooks s.commands.world) refl
            ]
        where
          ran :
              (e : Exit (World U))
              → exec_after_all_hooks p.hooks s.commands.world ≡ e
              → EngineEnds (record s { commands = record s.commands { has_started = true } })
          ran (returns w) e = (false, _, hooks_return w refl e, rw e refl)
          ran (throws t w) e = (true, _, hooks_throw t w refl e, rw e refl)

      -- What `main` makes of the end of the server's block.
      abbrev ending : Ended × Process U → Option ℕ × Process U
      ending x = let (e, s) = leave_block (destroy_engine p) x in (exit_code e, s)

      abbrev ended_by : Option Text → Ended
      ended_by none = finished
      ended_by (some what) = failed what

      -- The end of `main`, behind the destructor of the engine.
      abbrev behind : Option Text → Ended × Process U → Option ℕ × Process U
      behind error x = let (e, s) = or_abort (ended_by error) x in (exit_code e, s)

      -- The end of the process, behind the server's destructor.
      Ends-destroyed :
          (error : Option Text) (s : Process U) (c : CukeCommands U)
          → Serves json p platform.requests error c s.written s.commands
          → Ends json p platform.requests c error none s.calls (behind error (destroy_engine p s))
      Ends-destroyed error s c served =
          let (thrown, d, r, f) = destroy_engine_lem s in
          subst (λ x. Ends json p platform.requests c error none s.calls (behind error x)) (sym f)
            (by_thrown error served thrown d r)
        where
          by_thrown :
              (error : Option Text)
              → Serves json p platform.requests error c s.written s.commands
              → (thrown : Bool) (d : CukeCommands U) → Destroys p s.commands thrown d
              → Ends json p platform.requests c error none s.calls
                  (behind error (destroyed_by thrown, record s { commands = d }))
          by_thrown none served false d r = record {
            left = s.commands;
            served = served;
            exits = (false, r, refl);
            made = refl;
          }
          by_thrown (some what) served false d r = record {
            left = s.commands;
            served = served;
            exits = (false, r, refl);
            made = refl;
          }
          by_thrown none served true d r = record {
            left = s.commands;
            served = served;
            exits = (true, r, refl);
            made = refl;
          }
          by_thrown (some what) served true d r = record {
            left = s.commands;
            served = served;
            exits = (true, r, refl);
            made = refl;
          }

      Ends-left :
          (error clean_up : Option Text) (s : Process U) (c : CukeCommands U)
          → Serves json p platform.requests error c s.written s.commands
          → Ends json p platform.requests c error clean_up s.calls
              (ending (or_abort (ended_by error) (stopped clean_up pass s)))
      Ends-left none none s c served = Ends-destroyed none s c served
      Ends-left (some what) none s c served = Ends-destroyed (some what) s c served
      Ends-left error (some what) s c served = record {
        left = s.commands;
        served = served;
        exits = (refl, refl);
        made = refl;
      }

      Ends-stopped :
          (error : Option Text) (s : Process U)
          → s.written ≡ []
          → Ends json p platform.requests s.commands error none s.calls
              (ending (stopped error (serve platform json p) s))
      Ends-stopped none s empty =
          let (lines, c, e, r, n) = serve_lem s empty in
          rw e (Ends-destroyed none (record s { written = lines; commands = c }) s.commands (r, n))
      Ends-stopped (some what) s empty = Ends-destroyed (some what) s s.commands (empty, refl)

      -- Unless there is a path, the program makes the calls of a TCP server up to the first one that
      -- fails. If none fails, it answers each request of the client with one line; otherwise it
      -- writes nothing to a client. Then, if a scenario has begun, the after-all hooks run on the
      -- world that the client has left: if they throw, the process is aborted, and if not, the exit
      -- code is 0 without a failed call and 1 with one.
      pub main-tcp_calls :
          (a : Arguments) (c : CukeCommands U)
          → is_empty a.unix_path ≡ true
          → let r = reached platform [] false (tcp_calls a) in
            Ends json p platform.requests c r.error none r.calls (main platform json p a (fresh c))
      unfolding main accept_wire_protocol
      main-tcp_calls a c no_path =
          let r = reached platform [] false (tcp_calls a) in
          let served =
            serve_tcp-run_script platform json p a (fresh c) refl
            ∙ run_script-reached platform (tcp_calls a) (serve platform json p) (fresh c) in
          let chosen =
            ap
              (λ b. ending (
                if not b
                then serve_unix platform json p a (fresh c)
                else serve_tcp platform json p a (fresh c)))
              no_path in
          subst (Ends json p platform.requests c r.error none r.calls)
            (sym (chosen ∙ ap ending served)) (Ends-stopped r.error (at (fresh c) r) refl)

      go_on-pass : (x : Ended × Process U) → go_on x pass ≡ x
      go_on-pass (finished, s) = refl
      go_on-pass (failed what, s) = refl
      go_on-pass (aborted, s) = refl
      go_on-pass (no_fuel, s) = refl

      remove_path_lem :
          (s : Process U)
          → let r =
              reached platform s.calls s.is_open (remove (platform.local_path s.calls) ∷ []) in
            remove_path platform s ≡ stopped r.error pass (at s r)
      unfolding remove_path
      remove_path_lem s =
          sym (go_on-pass (call platform (remove (platform.local_path s.calls)) s))
          ∙ run_script-reached platform (remove (platform.local_path s.calls) ∷ []) pass s

      -- The destructor of a Unix server makes its calls if the acceptor is open.
      destroy_unix_server_lem :
          (error : Option Text) (s : Process U)
          → let q =
              cleaned_up platform
                (record { error = error; calls = s.calls; is_open = s.is_open }) in
            destroy_unix_server platform s ≡ stopped q.error pass (at s q)
      unfolding destroy_unix_server remove_path call
      destroy_unix_server_lem error s =
          elim s.is_open
            as (λ b.
              let s' : Process U = record s { is_open = b } in
              let q =
                cleaned_up platform (record { error = error; calls = s.calls; is_open = b }) in
              destroy_unix_server platform s' ≡ stopped q.error pass (at s' q)) [
                | false ↦ refl
                | true ↦ elim (Option-cases (platform.fails s.calls local_endpoint)) [
                  | inr (what, e) ↦ rw (e, call, reached) refl
                  | inl e ↦
                      rw (e, call, reached)
                        (remove_path_lem
                          (record s { is_open = true; calls = s.calls ++ local_endpoint ∷ [] }))
                ]
              ]

      -- What the Unix server leaves, behind its destructor.
      Ends-unix :
          (error : Option Text) (s : Process U)
          → s.written ≡ []
          → let q =
              cleaned_up platform
                (record { error = error; calls = s.calls; is_open = s.is_open }) in
            Ends json p platform.requests s.commands error q.error q.calls (
              ending (
                leave_block
                  (destroy_unix_server platform)
                  (stopped error (serve platform json p) s)))
      Ends-unix none s empty =
          let (lines, c, e, r, n) = serve_lem s empty in
          let s' : Process U = record s { written = lines; commands = c } in
          let q =
            cleaned_up platform (record { error = none; calls = s.calls; is_open = s.is_open }) in
          rw e (
            rw (destroy_unix_server_lem none s')
              (Ends-left none q.error (at s' q) s.commands (r, n)))
      Ends-unix (some what) s empty =
          let q =
            cleaned_up platform
              (record { error = some what; calls = s.calls; is_open = s.is_open }) in
          rw (destroy_unix_server_lem (some what) s)
            (Ends-left (some what) q.error (at s q) s.commands (empty, refl))

      -- The Unix server, with the look at its path as the first call of its script.
      unix_script_lem :
          (a : Arguments) (c : CukeCommands U)
          → (unix_listen platform a.unix_path
                >> report platform json p a.verbose
                >> accept_once platform json p)
              (fresh c)
            ≡ run_script platform (all_unix_calls platform a) (serve platform json p) (fresh c)
      unfolding call
      unix_script_lem a c =
          unix_listen-run_script platform json p a (fresh c) refl
          ∙ (elim (Option-cases (platform.fails [] (status a.unix_path))) [
            | inl e ↦ rw (e, call) refl
            | inr (what, e) ↦ rw (e, call) refl
          ])

      -- With a path, the program makes the calls of a Unix server up to the first one that fails,
      -- and those of the server's destructor if the acceptor was opened. If no call before the
      -- destructor's fails, it answers each request of the client with one line; otherwise it writes
      -- nothing to a client. If a call of the destructor fails, the process is aborted and no
      -- after-all hook runs. Otherwise, if a scenario has begun, the after-all hooks run on the world
      -- that the client has left: if they throw, the process is aborted, and if not, the exit code is
      -- 0 without a failed call and 1 with one.
      pub main-unix_calls :
          (a : Arguments) (c : CukeCommands U)
          → is_empty a.unix_path ≡ false
          → let r = reached platform [] false (all_unix_calls platform a) in
            let q = cleaned_up platform r in
            Ends json p platform.requests c r.error q.error q.calls
              (main platform json p a (fresh c))
      unfolding main accept_wire_protocol serve_unix
      main-unix_calls a c path =
          let r = reached platform [] false (all_unix_calls platform a) in
          let q = cleaned_up platform r in
          let served =
            unix_script_lem a c
            ∙ run_script-reached platform (all_unix_calls platform a) (serve platform json p)
                (fresh c) in
          let chosen =
            ap
              (λ b. ending (
                if not b
                then serve_unix platform json p a (fresh c)
                else serve_tcp platform json p a (fresh c)))
              path in
          subst (Ends json p platform.requests c r.error q.error q.calls)
            (sym (chosen ∙ ap (λ x. ending (leave_block (destroy_unix_server platform) x)) served))
            (Ends-unix r.error (at (fresh c) r) refl)

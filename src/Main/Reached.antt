-- ===== src/Main/Reached.antt =====
-- How far a script comes, and what is expected of the end of the program.
use cucumber_cpp.Base.{
  ℕ, ◌≡◌, refl, Bool, true, false, Option, none, some, List, [], ◌∷◌, ◌++◌, if◌then◌else◌, length,
  Text, Option-cases, inl, inr,
}
use cucumber_cpp.Step.Body.{returns, throws, Thrown}
use cucumber_cpp.Hook.Registrar.{exec_after_all_hooks}
use cucumber_cpp.Commands.{CukeCommands, World}
use cucumber_cpp.Wire.Json.{Json}
use cucumber_cpp.Wire.Handler.{Program, process_stream}
use cucumber_cpp.Wire.Server.{
  Call, status, remove, local_endpoint, Platform, Process, Ended, failed, Action, opens, call,
}
use cucumber_cpp.Main.{Arguments}
use cucumber_cpp.Main.Script.{run_script, unix_calls}

-- How far a row of calls comes: the error, if one fails; the calls made, the failing one included;
-- and whether the acceptor is open.
pub record Reached : Type 0 where
  pub error : Option Text
  pub calls : List Call
  pub is_open : Bool

abbrev pub reached : Platform → List Call → Bool → List Call → Reached
reached platform before is_open [] = record { error = none; calls = before; is_open = is_open }
reached platform before is_open (c ∷ calls) = elim (platform.fails before c) [
  | none ↦ reached platform (before ++ c ∷ []) (opens c is_open) calls
  | some what ↦ record { error = some what; calls = before ++ c ∷ []; is_open = is_open }
]

-- The program before `main`.
abbrev pub fresh : {U : Type 0} → CukeCommands U → Process U
fresh c = record { is_open = false; calls = []; written = []; commands = c }

-- The calls of a Unix server, whose first one tells whether a socket is left over; and those of its
-- destructor.
abbrev pub all_unix_calls : Platform → Arguments → List Call
all_unix_calls platform a =
    status a.unix_path ∷ unix_calls (platform.is_socket (status a.unix_path ∷ []) a.unix_path) a

abbrev pub clean_up_calls : Platform → List Call → List Call
clean_up_calls platform before =
    local_endpoint ∷ remove (platform.local_path (before ++ local_endpoint ∷ [])) ∷ []

abbrev pub cleaned_up : Platform → Reached → Reached
cleaned_up platform r =
    if r.is_open
    then reached platform r.calls true (clean_up_calls platform r.calls)
    else record { error = none; calls = r.calls; is_open = false }

-- The exit code, by the error of the calls and that of the destructor's.
abbrev pub code : Option Text → Option Text → Option ℕ
code error (some what) = none
code none none = some 0
code (some what) none = some 1

-- What the destructor of the engine leaves of the commands: nothing is done before the first
-- scenario; behind one the after-all hooks run, and may throw.
pub data Destroys {U : Type 0} (p : Program U) (left : CukeCommands U)
    : Bool → CukeCommands U → Type 0 where
  not_started : left.has_started ≡ false → Destroys p left false left
  hooks_return :
      (w : World U)
      → left.has_started ≡ true
      → exec_after_all_hooks p.hooks left.world ≡ returns w
      → Destroys p left false (record left { world = w })
  hooks_throw :
      (t : Thrown) (w : World U)
      → left.has_started ≡ true
      → exec_after_all_hooks p.hooks left.world ≡ throws t w
      → Destroys p left true (record left { world = w })

module _ {U : Type 0} (json : Json) (p : Program U) (requests : List Text) where
  -- Without an error, the requests are answered, each with a line; with one, nothing is written.
  abbrev pub Serves : Option Text → CukeCommands U → List Text → CukeCommands U → Type 0
  Serves none c lines left =
      (process_stream json p requests c ≡ some (lines, left)) × (length lines ≡ length requests)
  Serves (some what) c lines left = (lines ≡ []) × (left ≡ c)

  -- Behind the server, the engine is destroyed, and an exception of its hooks aborts the process;
  -- an error of the server's destructor has aborted it before.
  abbrev pub Exits : Option Text → Option Text → CukeCommands U → Option ℕ → CukeCommands U → Type 0
  Exits error none left exit behind =
      (thrown : Bool) × Destroys p left thrown behind
      × (exit ≡ (if thrown then none else code error none))
  Exits error (some what) left exit behind = (exit ≡ none) × (behind ≡ left)

  -- How the program ends, which begins with the commands `c`.
  pub record Ends (c : CukeCommands U) (error clean_up : Option Text) (calls : List Call)
      (m : Option ℕ × Process U) : Type 0 where
    pub left : CukeCommands U
    pub served : Serves error c m.1.written left
    pub exits : Exits error clean_up left m.0 m.1.commands
    pub made : m.1.calls ≡ calls

module _ {U : Type 0} where
  abbrev pub at : Process U → Reached → Process U
  at s r = record s { is_open = r.is_open; calls = r.calls }

  abbrev pub stopped : Option Text → Action U → Process U → Ended × Process U
  stopped none next s = next s
  stopped (some what) next s = (failed what, s)

  module _ (platform : Platform) where
    pub run_script-reached :
        (calls : List Call) (next : Action U) (s : Process U)
        → let r = reached platform s.calls s.is_open calls in
          run_script platform calls next s ≡ stopped r.error next (at s r)
    unfolding call
    run_script-reached [] next s = refl
    run_script-reached (c ∷ calls) next s = elim (Option-cases (platform.fails s.calls c)) [
      | inr (what, e) ↦ rw (e, call, reached) refl
      | inl e ↦
          let ih =
            run_script-reached calls next
              (record s { is_open = opens c s.is_open; calls = s.calls ++ c ∷ [] }) in
          rw (e, call, reached) ih
    ]

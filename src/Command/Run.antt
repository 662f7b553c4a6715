-- ===== src/Command/Run.antt =====
-- cmd/providerapi/main.go: main, and the commands behind its choice. What the package of flags makes of the
-- arguments is given, with the application that `serve` runs.
use providerapi.Prelude.{ℕ, String, ◌≡◌, refl, Option, none, some, List, [], ◌∷◌, ◌⊎◌, inl, inr}
use providerapi.Text.{◌<>◌}
use providerapi.Json.{Json}
use providerapi.Command.{
  Command, serve, fetch, trace, help, unknown, no_command, command_of, Ask, Fetched, admin_get,
}
use providerapi.Command.Print.{cmd_trace}

-- The values of the flags, and the arguments behind them.
pub record Flags : Type 0 where
  pub config : String
  pub admin : String
  pub admin_token : String
  pub args : List String

-- The flags, or the status with which their package ends the process.
pub data Flagged : Type 0 where
  flagged : Flags → Flagged
  exited : ℕ → Flagged

-- What main leaves: the lines on the two outputs, and the status.
pub record Exit : Type 0 where
  pub out : List String
  pub err : List String
  pub status : ℕ

abbrev pub usage : List String
usage =
    "providerapi" ∷ "" ∷ "Usage:" ∷ "  providerapi serve -c config.yaml" ∷ "  providerapi models"
    ∷ "  providerapi plugins" ∷ "  providerapi requests" ∷ "  providerapi trace <request-id>" ∷ []

-- the end of main, from what the command printed or its error
abbrev pub ending_of : List String ⊎ String → Exit
ending_of (inl lines) = record { out = lines; err = []; status = 0 }
ending_of (inr e) = record { out = []; err = ("error: " <> e) ∷ []; status = 1 }

abbrev pub served : Option String → List String ⊎ String
served none = inl []
served (some e) = inr e

-- A run that fails leaves nothing on the output.
abbrev pub IsQuiet : Exit → Type 0
IsQuiet x = (x.out ≡ []) ⊎ (x.status ≡ 0)

-- cmdServe, cmdGet or cmdTrace, whose errors of flags end the process
abbrev pub with_flags : Flagged → (Flags → List String ⊎ String) → Exit
with_flags (exited status) run = record { out = []; err = []; status = status }
with_flags (flagged f) run = ending_of (run f)

with_flags-IsQuiet : (x : Flagged) (run : Flags → List String ⊎ String) → IsQuiet (with_flags x run)
with_flags-IsQuiet (exited status) run = inl refl
with_flags-IsQuiet (flagged f) run = elim (run f) as (λ r. IsQuiet (ending_of r)) [
  | inl lines ↦ inr refl
  | inr e ↦ inl refl
]

-- `app` is app.Serve on the path of a configuration; the other functions ask, decode and print.
module _ (flags : List String → Flagged) (app : String → Option String) (http : Ask → Fetched)
    (parse : String → Option Json) (show : Option Json → String)
    (seconds : Option Json → String) where
  -- cmdGet behind the flags
  unfoldable pub cmd_get : String → Flags → List String ⊎ String
  unfolding admin_get
  cmd_get path f = elim (admin_get http f.admin f.admin_token path) [
    | inl body ↦ inl (body ∷ [])
    | inr e ↦ inr e
  ]

  unfoldable run_command : Command → List String → Exit
  unfolding cmd_get cmd_trace
  run_command no_command args = record { out = []; err = usage; status = 2 }
  run_command (unknown cmd) args = record {
    out = [];
    err = ("unknown command: " <> cmd) ∷ usage;
    status = 2;
  }
  run_command help args = record { out = []; err = usage; status = 0 }
  run_command serve args = with_flags (flags args) (λ f. served (app f.config))
  run_command (fetch path) args = with_flags (flags args) (cmd_get path)
  run_command trace args =
      with_flags (flags args) (λ f. cmd_trace parse show seconds http f.admin f.admin_token f.args)

  abbrev rest_of : List String → List String
  rest_of [] = []
  rest_of (cmd ∷ args) = args

  -- main, on the arguments behind the program's name
  unfoldable pub main : List String → Exit
  unfolding command_of run_command
  main args = run_command (command_of args) (rest_of args)

  run_command-IsQuiet : (c : Command) (args : List String) → IsQuiet (run_command c args)
  unfolding run_command
  run_command-IsQuiet no_command args = inl refl
  run_command-IsQuiet (unknown cmd) args = inl refl
  run_command-IsQuiet help args = inl refl
  run_command-IsQuiet serve args = with_flags-IsQuiet (flags args) _
  run_command-IsQuiet (fetch path) args = with_flags-IsQuiet (flags args) _
  run_command-IsQuiet trace args = with_flags-IsQuiet (flags args) _

  -- Whatever the arguments are, a run of the program that prints anything on its output exits with 0.
  main-IsQuiet : (args : List String) → IsQuiet (main args)
  unfolding main
  main-IsQuiet args = run_command-IsQuiet (command_of args) (rest_of args)

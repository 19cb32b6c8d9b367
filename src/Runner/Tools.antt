-- ===== src/Runner/Tools.antt =====
-- The programs that the runner calls for their output or their exit alone, as bytes and not line
-- by line, and the results of a handler that returns Go's `error`, with `none` for nil.
use egovframe_launcher.Base.{String, ◌<>◌, Bool, true, false, Option, none, some, List}
use egovframe_launcher.Base.Text.{trim_space}
use egovframe_launcher.Prog.{Prog, ret, ◌>>=◌}
use egovframe_launcher.Runner.Host.{Host, Cmd}
use egovframe_launcher.Runner.Sys.{Sys}

pub record Tools (h : Host) : Type 0 where
  -- `exec.LookPath`, with its error.
  pub look_path : String → h.World → Option String
  -- `cmd.Run`, `cmd.Output` and `cmd.CombinedOutput`; the output stands beside the error.
  pub run_cmd : Cmd → h.World → Option String × h.World
  pub stdout : Cmd → h.World → (String × Option String) × h.World
  pub combined : Cmd → h.World → (String × Option String) × h.World
  -- `cmd.Run` with the text as its standard input, and its combined output.
  pub with_stdin : Cmd → String → h.World → (String × Option String) × h.World

abbrev pub no_error : Option String → Bool
no_error none = true
no_error (some e) = false

-- `exec.Command(name, args...)`
abbrev pub cmd_of : String → List String → Cmd
cmd_of name args = record { name = name; args = args; dir = ""; env = none }

-- `fmt.Errorf("…: %w (%s)", err, out)`, where there is an error.
abbrev pub wrapped : String → String × Option String → Option String
wrapped what (out, none) = none
wrapped what (out, some e) = some (what <> ": " <> e <> " (" <> trim_space out <> ")")

module _ {h : Host} where
  -- `if err := first; err != nil { return err }`
  abbrev pub go_on : Prog (Sys h) (Option String) → Option String → Prog (Sys h) (Option String)
  go_on next none = next
  go_on next (some e) = ret (some e)

  abbrev pub and_then :
      Prog (Sys h) (Option String) → Prog (Sys h) (Option String) → Prog (Sys h) (Option String)
  and_then first next = first >>= go_on next

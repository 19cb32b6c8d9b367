-- ===== src/Runner/Exec.antt =====
-- Runner.exec in launcher/internal/runner/runner.go, and the loop over commands that stops at the
-- first error, which runSteps, runClone, runLongWithPort, runWAR, setupRSP and setupDB share.
-- The output of a command is appended to the log when the command has ended; in the program it
-- comes line by line while the command runs.
use egovframe_launcher.Base.{String, ◌<>◌, Option, none, some, List, [], ◌∷◌, str_eq, if◌then◌else◌}
use egovframe_launcher.Base.Text.{join}
use egovframe_launcher.Catalog.{Target, Command}
use egovframe_launcher.Prog.{Prog, ret, quit, ◌>>=◌, ◌>>◌, skip}
use egovframe_launcher.Runner.Host.{Host, Started, proc, refused}
use egovframe_launcher.Runner.Types.{error}
use egovframe_launcher.Runner.Sys.{Sys, ask, log, log_each, set}
use egovframe_launcher.Runner.Command.{command, maven_args}

module _ (h : Host) where
  -- `cmd.Wait()` of a process that was started, its output piped into the log.
  unfoldable pub finish : Target → Started → Prog (Sys h) (Option String)
  unfolding ◌>>=◌
  finish t (refused e) = ret (some e)
  finish t (proc p) = do ended ← ask (h.wait p); log_each t.id ended.output; ret ended.err

  unfoldable pub prepared : Target → Command → Prog (Sys h) Command
  unfolding ◌>>=◌
  prepared t c =
      if str_eq c.name "mvn"
      then (do args ← maven_args h t c.args; ret (record c { args = args }))
      else ret c

  -- `Runner.exec`: `none` is a nil error.
  unfoldable pub exec : Target → Command → Prog (Sys h) (Option String)
  unfolding ◌>>=◌
  exec t c = do
    c' ← prepared t c
    log t.id ("$ " <> c'.name <> " " <> join c'.args " ")
    cmd ← command h t c'
    started ← ask (h.start cmd)
    finish t started

  -- What the loops do on an error: report it, set the status and return.
  unfoldable pub stop_on : Target → Option String → Prog (Sys h) (Unit {0})
  unfolding ◌>>=◌
  stop_on t none = skip
  stop_on t (some e) = do log t.id ("[error] " <> e); set t.id error e; quit

  unfoldable pub exec_all : Target → List Command → Prog (Sys h) (Unit {0})
  unfolding ◌>>=◌
  exec_all t [] = skip
  exec_all t (c ∷ cs) = do err ← exec t c; stop_on t err; exec_all t cs

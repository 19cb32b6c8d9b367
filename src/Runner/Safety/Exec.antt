-- ===== src/Runner/Safety/Exec.antt =====
-- The steps that run a command keep the invariant of the job map: exec and command of
-- launcher/internal/runner/runner.go.
use egovframe_launcher.Base.{String, Option, none, some, List, [], ◌∷◌, ◌<>◌}
use egovframe_launcher.Base.Text.{join}
use egovframe_launcher.Catalog.{Target, Command}
use egovframe_launcher.Prog.Kept.{Kept-bind, Kept-then, Kept-if, Kept-ret, Kept-quit}
use egovframe_launcher.Runner.Host.{Host, Started, proc, refused}
use egovframe_launcher.Runner.Types.{error}
use egovframe_launcher.Runner.Command.{command, maven_args}
use egovframe_launcher.Runner.Exec.{finish, prepared, exec, exec_all, stop_on}
use egovframe_launcher.Runner.Safety.{
  safe_steps, Safe, ask-Safe, reads-Safe, log-Safe, log_each-Safe, set-Safe, dir-Safe,
  read_job-Safe,
}

module _ (h : Host) where
  pub finish-Safe : (t : Target) (st : Started) → Safe h (finish h t st)
  unfolding finish
  finish-Safe t (refused e) = Kept-ret _
  finish-Safe t (proc p) =
      Kept-bind _ _ (ask-Safe h (h.wait p))
        (λ ended. Kept-then (log_each-Safe h t.id ended.output) (Kept-ret ended.err))

  pub command-Safe : (t : Target) (c : Command) → Safe h (command h t c)
  unfolding command
  command-Safe t c = Kept-bind _ _ (dir-Safe h t.id) (λ ws.
      Kept-bind _ _ (read_job-Safe h t.id (λ j. j.port)) (λ port.
        Kept-bind _ _ (reads-Safe h (λ s. s.java_home))
          (λ jh. Kept-bind _ _ (reads-Safe h (λ s. s.world)) (λ w. Kept-ret _))))

  maven_args-Safe : (t : Target) (args : List String) → Safe h (maven_args h t args)
  unfolding maven_args
  maven_args-Safe t args = Kept-bind _ _ (dir-Safe h t.id) (λ ws. search (safe_steps, reads-Safe))

  prepared-Safe : (t : Target) (c : Command) → Safe h (prepared h t c)
  unfolding prepared
  prepared-Safe t c =
      Kept-if _ _ _ (Kept-bind _ _ (maven_args-Safe t c.args) (λ _. Kept-ret _)) (Kept-ret c)

  pub exec-Safe : (t : Target) (c : Command) → Safe h (exec h t c)
  unfolding exec
  exec-Safe t c = Kept-bind _ _ (prepared-Safe t c) (λ c'.
      Kept-then (log-Safe h t.id ("$ " <> c'.name <> " " <> join c'.args " ")) (
        Kept-bind _ _ (command-Safe t c')
          (λ cmd. Kept-bind _ _ (ask-Safe h (h.start cmd)) (λ started. finish-Safe t started))))

  stop_on-Safe : (t : Target) (e : Option String) → Safe h (stop_on h t e)
  unfolding stop_on
  stop_on-Safe t none = Kept-ret tt
  stop_on-Safe t (some e) =
      Kept-then (log-Safe h t.id _) (Kept-then (set-Safe h t.id error e) (Kept-quit _))

  pub exec_all-Safe : (t : Target) (cs : List Command) → Safe h (exec_all h t cs)
  unfolding exec_all
  exec_all-Safe t [] = Kept-ret tt
  exec_all-Safe t (c ∷ cs) =
      Kept-bind _ _ (exec-Safe t c) (λ e. Kept-then (stop_on-Safe t e) (exec_all-Safe t cs))

-- ===== src/Runner/Chain/Environment.antt =====
-- The environment of the dependency services in launcher/internal/runner/runner.go.
use egovframe_launcher.Base.{
  String, ◌<>◌, starts_with, ◌≡◌, ◌∙◌, ap, Bool, not, ◌==◌, List, [], ◌∷◌, ◌++◌, arith,
  if◌then◌else◌, any, keep, keep-append, keep-keep, keep-keep-not,
}
use text.Mathlib.TextPositions.{starts_with-append}
use egovframe_launcher.Base.Int.{pos}
use egovframe_launcher.Base.Text.{itoa}
use egovframe_launcher.Catalog.{Target, Command}
use egovframe_launcher.Runner.Host.{Cmd}
use egovframe_launcher.Runner.Command.{env_or, set_env_without}
use egovframe_launcher.Runner.Chain.{dep_cmd, dep_env}

-- A variable that would tell a service its port.
abbrev pub is_port_var : String → Bool
is_port_var e = any (λ p. starts_with e p) ("SERVER_PORT=" ∷ "PORT=" ∷ [])

-- The port of an entry, under both names, if it has one.
abbrev pub own_ports : Command → List String
own_ports c =
    if c.port == 0
    then []
    else ("SERVER_PORT=" <> itoa (pos c.port)) ∷ ("PORT=" <> itoa (pos c.port)) ∷ []

own_ports-keep : (c : Command) → keep is_port_var (own_ports c) ≡ own_ports c
own_ports-keep c =
    let port = itoa (pos c.port) in
    ground (arith, starts_with-append "SERVER_PORT=" port, starts_with-append "PORT=" port)

own_ports-drop : (c : Command) → keep (λ e. not (is_port_var e)) (own_ports c) ≡ []
own_ports-drop c =
    let port = itoa (pos c.port) in
    ground (arith, starts_with-append "SERVER_PORT=" port, starts_with-append "PORT=" port)

dep_env-own : (t : Target) (c : Command) → dep_env t c ≡ own_ports c ++ t.run_env
dep_env-own t c = ground arith

-- The variables with SERVER_PORT= or PORT= in front that a dependency service sees are the port of
-- its own entry under both names, if it has one, and what the target itself sets: none that it would
-- inherit. Its other variables are those it inherits, then those of the target.
pub dep_cmd_lem :
    (inherited : List String) (t : Target) (c : Command) (cmd : Cmd)
    → let env = env_or [] (dep_cmd inherited t c cmd).env in
      (keep is_port_var env ≡ own_ports c ++ keep is_port_var t.run_env)
      × (keep (λ e. not (is_port_var e)) env
          ≡ keep (λ e. not (is_port_var e)) (env_or inherited cmd.env)
            ++ keep (λ e. not (is_port_var e)) t.run_env)
unfolding dep_cmd set_env_without
dep_cmd_lem inherited t c cmd =
    let base = env_or inherited cmd.env in
    let other : String → Bool = λ e. not (is_port_var e) in
    rw (dep_env-own t c) (
      keep-append is_port_var (keep other base) (own_ports c ++ t.run_env)
          ∙ ap (λ es. es ++ keep is_port_var (own_ports c ++ t.run_env))
              (keep-keep-not is_port_var base)
          ∙ keep-append is_port_var (own_ports c) t.run_env
          ∙ ap (λ es. es ++ keep is_port_var t.run_env) (own_ports-keep c),
      keep-append other (keep other base) (own_ports c ++ t.run_env)
          ∙ ap (λ es. es ++ keep other (own_ports c ++ t.run_env)) (keep-keep other base)
          ∙ ap (λ es. keep other base ++ es) (keep-append other (own_ports c) t.run_env)
          ∙ ap (λ es. keep other base ++ (es ++ keep other t.run_env)) (own_ports-drop c),
    )

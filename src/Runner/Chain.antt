-- ===== src/Runner/Chain.antt =====
-- The second half of runLongWithPort in launcher/internal/runner/runner.go: the port, the chain of
-- dependency services, the process that stays, and what follows its end. The output of a
-- dependency service reaches the log while other steps run, and is left out here.
pub mod Environment
use egovframe_launcher.Base.{
  ℕ, zero, suc, ◌+◌, ◌-◌, String, ◌<>◌, Bool, true, false, not, ◌&&◌, ◌||◌, Option, none, some,
  List, [], ◌∷◌, ◌++◌, str_eq, length, if◌then◌else◌,
}
use egovframe_launcher.Base.Dict.{lookup}
use egovframe_launcher.Base.Int.{ℤ, pos, is_pos, is_zero, eq_ℤ}
use egovframe_launcher.Base.Text.{itoa, join, contains}
use egovframe_launcher.Catalog.{Target, Command, targets, find_id}
use egovframe_launcher.Prog.{Prog, ret, quit, step, ◌>>=◌, ◌>>◌, skip, reads, change}
use egovframe_launcher.Runner.Host.{Host, Cmd, Started, proc, refused, Ended}
use egovframe_launcher.Runner.Types.{Status, building, running, stopped, error, done, Job, JobView}
use egovframe_launcher.Runner.Sys.{
  Sys, ask, look, tell, log, log_each, set, edit, with_job, read_job, state,
}
use egovframe_launcher.Runner.Command.{command, append_env, set_env_without}
use egovframe_launcher.Runner.Ports.{find_available_port, wait_for_port, free_port}
use egovframe_launcher.Runner.Exec.{exec}
use egovframe_launcher.Runner.Prepare.{resolve_cmds, install_deps, build_jars}

-- The port that is asked for: the target's, or one that the request names.
abbrev pub base_port : Target → ℤ → ℤ
base_port t custom = if is_pos custom then custom else pos t.port

-- `cmds[:len(cmds)-1]` and `cmds[len(cmds)-1]`.
unfoldable pub all_but_last : Command → List Command → List Command
all_but_last c [] = []
all_but_last c (d ∷ ds) = c ∷ all_but_last d ds

unfoldable pub last_of : Command → List Command → Command
last_of c [] = c
last_of c (d ∷ ds) = last_of d ds

abbrev pub is_service : Command → Bool
is_service c = str_eq c.name "java" || contains (join c.args " ") ".jar"

-- The variables that a dependency service gets: its own port, or none.
abbrev pub dep_env : Target → Command → List String
dep_env t c =
    (if is_pos (pos c.port)
      then ("SERVER_PORT=" <> itoa (pos c.port)) ∷ ("PORT=" <> itoa (pos c.port)) ∷ []
      else [])
    ++ t.run_env

abbrev pub port_vars : List String
port_vars = "SERVER_PORT=" ∷ "PORT=" ∷ []

abbrev starts_run : List String → Bool
starts_run [] = false
starts_run (a ∷ more) = str_eq a "run"

abbrev pub is_npm_run : Command → Bool
is_npm_run c = str_eq c.name "npm" && starts_run c.args

abbrev counted : ℕ → ℕ → String
counted i n = itoa (pos (i + 1)) <> "/" <> itoa (pos n)

abbrev is_running : Status → Bool
is_running running = true
is_running _ = false

abbrev port_of : Option Target → ℤ
port_of none = pos 0
port_of (some b) = pos b.port

-- The port of the backend to send API calls to: the live one, or the catalog's.
abbrev backend_port : JobView → Option Target → ℤ
backend_port v b = if is_running v.status && is_pos v.port then v.port else port_of b

abbrev proxy_env : ℤ → List String
proxy_env port =
    ("VITE_APP_API_PROXY_TARGET=http://localhost:" <> itoa port)
    ∷ ("VITE_APP_EGOV_CONTEXT_URL=localhost:" <> itoa port)
    ∷ []

-- The locked group of writes when the process has ended.
abbrev pub ended_status : Bool → Option String → Job → Job
ended_status true err j = record j { cmd = none; dep_cmds = []; status = stopped }
ended_status false none j = record j { cmd = none; dep_cmds = []; status = done }
ended_status false (some e) j = record j { cmd = none; dep_cmds = []; status = error; err = e }

abbrev pub end_job : Option String → Job → Job
end_job err j = ended_status j.stopping err j

abbrev pub deps_of : Option Job → List ℕ
deps_of none = []
deps_of (some j) = j.dep_cmds

-- The locked group of writes before the chain.
abbrev pub claim_port : ℤ → Job → Job
claim_port port j = record j { port = port; stopping = false; dep_cmds = [] }

-- The process of a dependency service: without the port variables it was to inherit.
unfoldable pub dep_cmd : List String → Target → Command → Cmd → Cmd
unfolding set_env_without
dep_cmd inherited t c cmd = set_env_without inherited port_vars (dep_env t c) cmd

abbrev with_proxy : List String → ℤ → Cmd → Cmd
with_proxy inherited bp cmd = if is_pos bp then append_env inherited (proxy_env bp) cmd else cmd

abbrev with_run_env : List String → List String → Cmd → Cmd
with_run_env inherited [] cmd = cmd
with_run_env inherited (kv ∷ more) cmd = append_env inherited (kv ∷ more) cmd

-- The last process, with the environment that `command` gave it and what is appended.
unfoldable pub main_cmd : List String → Target → ℤ → Cmd → Cmd
unfolding append_env
main_cmd inherited t bp cmd = with_run_env inherited t.run_env (with_proxy inherited bp cmd)

module _ (h : Host) where
  unfoldable pub choose_port : Target → ℤ → Prog (Sys h) ℤ
  unfolding ◌>>=◌
  choose_port t custom = do
    let base = base_port t custom
    port ← find_available_port h base
    if eq_ℤ port base
        then skip
        else log t.id ("[warn] 요청 포트 " <> itoa base <> " 사용 중 → " <> itoa port <> " 포트로 기동합니다")
    ret port

  unfoldable pub wait_for_dep : Target → Command → Prog (Sys h) (Unit {0})
  unfolding ◌>>=◌
  wait_for_dep t c =
      if is_pos (pos c.port)
      then (do
        ready ← wait_for_port h (pos c.port) 20000
        if ready
            then log t.id ("[success] 선행 서비스 (포트 " <> itoa (pos c.port) <> ") 준비 완료")
            else log t.id ("[warn] 선행 서비스 포트(" <> itoa (pos c.port) <> ") 대기 시간 초과, 계속 진행합니다"))
      else tell (h.sleep 2000)

  unfoldable pub started_dep : Target → Command → Started → Prog (Sys h) (Unit {0})
  unfolding ◌>>=◌
  started_dep t c (refused e) = log t.id ("[warn] 선행 서비스 기동 실패: " <> e)
  started_dep t c (proc p) = do
    edit t.id (λ j. record j { dep_cmds = j.dep_cmds ++ p ∷ [] })
    wait_for_dep t c

  unfoldable pub start_dep : Target → ℕ → ℕ → Command → Prog (Sys h) (Unit {0})
  unfolding ◌>>=◌
  start_dep t i n c = do
    if is_pos (pos c.port)
        then (free_port h (pos c.port)
            >> log t.id (
                "[info] 선행 dependency 서비스 기동 ("
                <> counted i n
                <> ", 포트 "
                <> itoa (pos c.port)
                <> " 대기): "
                <> c.name
                <> " "
                <> join c.args " "))
        else log t.id
            ("[info] 선행 서브 서비스 기동 (" <> counted i n <> "): " <> c.name <> " " <> join c.args " ")
    cmd ← command h t c
    inherited ← look h.environ
    started ← ask (h.start (dep_cmd inherited t c cmd))
    started_dep t c started

  abbrev pub stop_step : Target → Option String → Prog (Sys h) (Unit {0})
  stop_step t none = skip
  stop_step t (some e) = set t.id error e >> quit

  -- The loop over the commands before the last.
  unfoldable pub start_deps : Target → ℕ → ℕ → List Command → Prog (Sys h) (Unit {0})
  unfolding ◌>>=◌
  start_deps t i n [] = skip
  start_deps t i n (c ∷ cs) = do
    if is_service c then start_dep t i n c else (exec h t c >>= stop_step t)
    start_deps t (i + 1) n cs

  -- Reaps the dependency services when the process has ended.
  unfoldable pub kill_each : List ℕ → Prog (Sys h) (Unit {0})
  unfolding ◌>>=◌
  kill_each [] = skip
  kill_each (p ∷ ps) = do _ ← ask (h.kill p); kill_each ps

  unfoldable pub reap : Target → List ℕ → Prog (Sys h) (Unit {0})
  unfolding ◌>>=◌
  reap t [] = skip
  reap t (p ∷ ps) = do
    log t.id ("[info] 선행 서비스 " <> itoa (pos (length (p ∷ ps))) <> "개 종료")
    kill_each (p ∷ ps)

  -- From `cmd.Start()` on.
  unfoldable pub run_main : Target → Started → Prog (Sys h) (Unit {0})
  unfolding ◌>>=◌
  run_main t (refused e) = set t.id error e >> quit
  run_main t (proc p) = do
    edit t.id (λ j. record j { cmd = some p; status = running })
    ended ← ask (h.wait p)
    log_each t.id ended.output
    deps ← step (with_job t.id (end_job ended.err)) (λ s. ret (deps_of (lookup t.id s.jobs)))
    reap t deps

  unfoldable pub aim_args : Target → ℤ → Command → Prog (Sys h) Command
  unfolding ◌>>=◌
  aim_args t port c =
      if str_eq t.deploy_type "react"
      then (do
        log t.id ("[info] dev 서버 포트 지정: --port " <> itoa port)
        ret (record c { args = c.args ++ "--" ∷ "--port" ∷ itoa port ∷ "--strictPort" ∷ [] }))
      else do log t.id ("[info] dev 서버 포트 지정(PORT env): " <> itoa port); ret c

  -- The arguments of the last command, and the port of the backend; 0 where there is none.
  unfoldable pub aim_main : Target → ℤ → Command → Prog (Sys h) (Command × ℤ)
  unfolding ◌>>=◌
  aim_main t port c = if not (is_npm_run c) then ret (c, pos 0) else do
    c' ← aim_args t port c
    if str_eq t.backend_id "" then ret (c', pos 0) else (do
      v ← state t.backend_id
      let bp = backend_port v (find_id t.backend_id targets)
      log t.id (
          if is_running v.status && is_pos v.port
          then "[info] 백엔드("
            <> t.backend_id
            <> ") 실행 감지 — API 프록시 대상 반영: http://localhost:"
            <> itoa bp
          else "[info] 백엔드(" <> t.backend_id <> ") 미실행 — 기본 포트(" <> itoa bp <> ") 기준으로 프록시 대상 설정")
      ret (c', bp))

  unfoldable pub run_last : Target → ℤ → Command → Prog (Sys h) (Unit {0})
  unfolding ◌>>=◌
  run_last t port c = do
    (c', bp) ← aim_main t port c
    cmd ← command h t c'
    inherited ← look h.environ
    started ← ask (h.start (main_cmd inherited t bp cmd))
    run_main t started

  unfoldable pub run_chain : Target → ℤ → List Command → Prog (Sys h) (Unit {0})
  unfolding ◌>>=◌
  run_chain t custom [] = skip
  run_chain t custom (c ∷ cs) = do
    port ← choose_port t custom
    edit t.id (claim_port port)
    set t.id building ""
    start_deps t 0 (length cs) (all_but_last c cs)
    run_last t port (last_of c cs)

  -- `Runner.runLongWithPort`
  unfoldable pub run_long_with_port : Target → List Command → ℤ → Prog (Sys h) (Unit {0})
  unfolding ◌>>=◌
  run_long_with_port t given custom = do
    cmds ← resolve_cmds h t given
    install_deps h t cmds
    build_jars h t cmds
    run_chain t custom cmds

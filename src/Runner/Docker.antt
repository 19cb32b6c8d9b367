-- ===== src/Runner/Docker.antt =====
-- The Docker containers of launcher/internal/runner/runner.go: containerSpec and
-- ensureDockerContainer. The log is the one of the job `id`.
pub mod Services
pub mod Data
pub mod Polling
use egovframe_launcher.Base.{
  ℕ, zero, suc, ◌+◌, ◌/◌, String, ◌<>◌, str_eq, Bool, true, false, not, ◌&&◌, Option, none, some,
  List, [], ◌∷◌, ltb, if◌then◌else◌,
}
use egovframe_launcher.Base.Int.{ℤ, is_pos}
use egovframe_launcher.Base.Text.{itoa, trim_space}
use egovframe_launcher.Prog.{Prog, ret, step, ◌>>=◌, ◌>>◌, skip}
use egovframe_launcher.Runner.Host.{Host, Cmd}
use egovframe_launcher.Runner.Sys.{Sys, ask, look, tell, log}
use egovframe_launcher.Runner.Ports.{port_listening}
use egovframe_launcher.Runner.Tools.{Tools, cmd_of, wrapped, go_on, and_then}

-- `containerSpec`, with times in milliseconds; an `after_start` of `none` is Go's nil.
pub record ContainerSpec (h : Host) : Type 0 where
  pub name : String
  pub display_name : String
  pub image : String
  pub run_args : List String
  pub ready : Prog (Sys h) Bool
  pub timeout : ℕ
  pub poll_interval : ℕ
  pub not_ready_err : String
  pub host_port : ℤ
  pub recreate_on_crash : Bool
  pub after_start : Option (Prog (Sys h) (Option String))

abbrev pub docker : List String → Cmd
docker args = cmd_of "docker" args

abbrev pub inspect : String → String → Cmd
inspect what name = docker ("inspect" ∷ "-f" ∷ what ∷ name ∷ [])

abbrev pub remove : String → Cmd
remove name = docker ("rm" ∷ "-f" ∷ "-v" ∷ name ∷ [])

module _ {h : Host} where
  -- The loop that waits for the service, with `fuel` rounds at most.
  unfoldable pub poll_ready : ℕ → ContainerSpec h → ℕ → Prog (Sys h) Bool
  unfolding ◌>>=◌
  poll_ready zero spec deadline = ret false
  poll_ready (suc fuel) spec deadline = do
    now ← look h.now
    if ltb now deadline
        then (do
          up ← spec.ready
          if up
              then ret true
              else (tell (h.sleep spec.poll_interval) >> poll_ready fuel spec deadline))
        else ret false

  -- One round for each interval of the wait, and two more.
  abbrev pub rounds : ContainerSpec h → ℕ
  rounds spec = suc (suc (spec.timeout / spec.poll_interval))

  abbrev pub report_ready : String → ContainerSpec h → Bool → Prog (Sys h) (Option String)
  report_ready id spec true = log id ("[success] " <> spec.display_name <> " 준비 완료") >> ret none
  report_ready id spec false = ret (some spec.not_ready_err)

  abbrev warn_after : String → ContainerSpec h → Option String → Prog (Sys h) (Unit {0})
  warn_after id spec none = skip
  warn_after id spec (some e) = log id ("[warn] " <> spec.display_name <> " afterStart: " <> e)

  abbrev pub run_after_start :
      String → ContainerSpec h → Option (Prog (Sys h) (Option String)) → Prog (Sys h) (Unit {0})
  run_after_start id spec none = skip
  run_after_start id spec (some fix) = fix >>= warn_after id spec

  -- The deadline, and the loop up to it.
  unfoldable pub poll_out : String → ContainerSpec h → Prog (Sys h) (Option String)
  unfolding ◌>>=◌
  poll_out id spec = do
    now ← look h.now
    up ← poll_ready (rounds spec) spec (now + spec.timeout)
    report_ready id spec up

  -- `spec.afterStart`, and the wait for `spec.ready`.
  unfoldable pub await_ready : String → ContainerSpec h → Prog (Sys h) (Option String)
  unfolding ◌>>=◌
  await_ready id spec = do
    run_after_start id spec spec.after_start
    log id ("[info] " <> spec.display_name <> " 준비 대기 중...")
    poll_out id spec

  abbrev pub reuse_line : ContainerSpec h → String
  reuse_line spec = "[info] 기존 " <> spec.display_name <> " 컨테이너 재사용: " <> spec.name

  -- The error of a container whose port another process holds.
  abbrev pub port_err : ContainerSpec h → String
  port_err spec =
      "호스트 포트 "
      <> itoa spec.host_port
      <> "를 다른 프로세스가 사용 중입니다. 로컬 "
      <> spec.display_name
      <> " 서비스 등을 중지한 뒤 다시 시도하세요"

module _ {h : Host} (tools : Tools h) where
  unfoldable pub create_fresh : String → ContainerSpec h → Prog (Sys h) (Option String)
  unfolding ◌>>=◌
  create_fresh id spec = do
    log id ("[info] " <> spec.display_name <> " 컨테이너를 새로 생성합니다 (" <> spec.image <> ")")
    made ← ask (tools.combined (docker spec.run_args))
    ret (wrapped (spec.display_name <> " 컨테이너 생성 실패") made)

  unfoldable pub replace : String → ContainerSpec h → String → Prog (Sys h) (Option String)
  unfolding ◌>>=◌
  replace id spec line = do
    log id line
    _ ← ask (tools.run_cmd (remove spec.name))
    create_fresh id spec

  unfoldable pub restart : String → ContainerSpec h → Prog (Sys h) (Option String)
  unfolding ◌>>=◌
  restart id spec = do
    log id ("[info] 정지된 " <> spec.display_name <> " 컨테이너를 재시작합니다")
    started ← ask (tools.combined (docker ("start" ∷ spec.name ∷ [])))
    ret (wrapped (spec.display_name <> " 컨테이너 재시작 실패") started)

  unfoldable pub is_crashed : ContainerSpec h → Prog (Sys h) Bool
  unfolding ◌>>=◌
  is_crashed spec =
      if spec.recreate_on_crash
      then (do
        code ← ask (tools.stdout (inspect "{{.State.ExitCode}}" spec.name))
        ret (not (str_eq (trim_space code.0) "0")))
      else ret false

  -- A container that ran before and stands still.
  unfoldable pub revive : String → ContainerSpec h → Prog (Sys h) (Option String)
  unfolding ◌>>=◌
  revive id spec = do
    crashed ← is_crashed spec
    if crashed
        then replace id spec ("[warn] " <> spec.display_name <> " 컨테이너가 비정상 종료 상태입니다 — 새로 생성합니다")
        else restart id spec

  -- The branches on the container's status.
  abbrev pub by_status : String → ContainerSpec h → String → Prog (Sys h) (Option String)
  by_status id spec status =
      if str_eq status ""
      then create_fresh id spec
      else if str_eq status "created"
      then replace id spec ("[warn] 기동된 적 없는 " <> spec.display_name <> " 컨테이너가 남아 있습니다 — 새로 생성합니다")
      else revive id spec

  unfoldable pub port_taken : ContainerSpec h → Prog (Sys h) Bool
  port_taken spec = if is_pos spec.host_port then port_listening h spec.host_port 500 else ret false

  unfoldable pub bring_up : String → ContainerSpec h → Prog (Sys h) (Option String)
  unfolding ◌>>=◌
  bring_up id spec = do
    taken ← port_taken spec
    if taken then ret (some (port_err spec)) else (do
      status ← ask (tools.stdout (inspect "{{.State.Status}}" spec.name))
      by_status id spec (trim_space status.0))

  -- The container runs after this, or there is an error.
  unfoldable pub start_or_reuse : String → ContainerSpec h → Prog (Sys h) (Option String)
  unfolding ◌>>=◌
  start_or_reuse id spec = do
    running ← ask (tools.stdout (inspect "{{.State.Running}}" spec.name))
    if str_eq (trim_space running.0) "true"
        then (do log id (reuse_line spec); ret none)
        else bring_up id spec

  abbrev pub found_docker : Option String → Prog (Sys h) (Option String)
  found_docker none = ret none
  found_docker (some e) = ret (some "Docker가 설치되어 있지 않습니다")

  abbrev pub daemon_runs : Option String → Option String
  daemon_runs none = none
  daemon_runs (some e) = some "Docker 데몬이 실행 중이지 않습니다 (Docker Desktop을 실행하세요)"

  -- `exec.LookPath` and `docker info`
  unfoldable pub check_docker : Prog (Sys h) (Option String)
  unfolding ◌>>=◌
  check_docker = do
    absent ← look (tools.look_path "docker")
    and_then (found_docker absent)
        (do down ← ask (tools.run_cmd (docker ("info" ∷ []))); ret (daemon_runs down))

  -- `ensureDockerContainer`
  unfoldable pub ensure_docker_container : String → ContainerSpec h → Prog (Sys h) (Option String)
  unfolding ◌>>=◌
  ensure_docker_container id spec = do
    unusable ← check_docker
    go_on (start_or_reuse id spec >>= go_on (await_ready id spec)) unusable

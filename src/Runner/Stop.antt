-- ===== src/Runner/Stop.antt =====
-- Runner.Stop in launcher/internal/runner/runner.go. The goroutine that tells the RSP backend of
-- the stop is left out: it only writes to the log.
pub mod Laws
use egovframe_launcher.Base.{
  ℕ, String, ◌<>◌, Bool, true, false, not, Option, none, some, List, [], ◌∷◌, str_eq, if◌then◌else◌,
}
use egovframe_launcher.Base.Dict.{lookup}
use egovframe_launcher.Base.Int.{ℤ, pos, is_zero}
use egovframe_launcher.Base.Text.{itoa}
use egovframe_launcher.Catalog.{Target}
use egovframe_launcher.Prog.{Prog, ret, quit, step, ◌>>=◌, ◌>>◌, skip}
use egovframe_launcher.Runner.Host.{Host}
use egovframe_launcher.Runner.Types.{stopped, error, Job}
use egovframe_launcher.Runner.Sys.{
  Sys, ask, log, edit, with_job, or_quit, read_job, job_for, load_settings,
}
use egovframe_launcher.Runner.Chain.{reap}
use egovframe_launcher.Runner.Rsp.{
  mark_stopped, stop_all_rsp_managed_jobs, stop_tomcat_catalina, port_closed,
}

-- What the first locked part decides.
pub data StopPlan : Type 0 where
  kill_main : ℕ → StopPlan
  kill_deps : ℕ → List ℕ → StopPlan
  stop_shared : StopPlan
  nothing : StopPlan

abbrev pub plan_for : Option ℕ → Bool → List ℕ → StopPlan
plan_for (some p) managed deps = kill_main p
plan_for none true deps = stop_shared
plan_for none false [] = nothing
plan_for none false (p ∷ ps) = kill_deps p ps

unfoldable pub stop_plan : Job → StopPlan
stop_plan j = plan_for j.cmd j.rsp_managed j.dep_cmds

abbrev pub stopped_by : StopPlan → Job → Job
stopped_by (kill_main p) j = record j { status = stopped; stopping = true }
stopped_by (kill_deps p ps) j = record j { dep_cmds = []; status = stopped; stopping = true }
stopped_by stop_shared j = j
stopped_by nothing j = j

-- What the first locked part writes.
unfoldable pub stop_job : Job → Job
unfolding stop_plan
stop_job j = stopped_by (stop_plan j) j

-- The port that is watched: the job's, the target's, or 8080.
abbrev pub watched_port : Target → ℤ → ℤ
watched_port t port =
    if is_zero port then (if is_zero (pos t.port) then pos 8080 else pos t.port) else port

module _ (h : Host) where
  unfoldable pub settle_stop : String → ℤ → Bool → Prog (Sys h) (Option String)
  unfolding ◌>>=◌
  settle_stop id port true = do
    log id "[success] Tomcat 정지 확인됨"
    edit id mark_stopped
    stop_all_rsp_managed_jobs h id
    ret none
  settle_stop id port false = do
    log id ("[error] Tomcat 정지 실패: 포트 " <> itoa port <> "가 여전히 응답 중입니다")
    edit id
        (λ j. record j { status = error; err = "Tomcat 정지 실패 (포트 " <> itoa port <> "가 여전히 응답 중)" })
    ret (some ("Tomcat 정지 실패 (포트 " <> itoa port <> "가 여전히 응답 중)"))

  abbrev pub warn_on : String → Option String → Prog (Sys h) (Unit {0})
  warn_on id none = skip
  warn_on id (some e) = log id ("[warn] Tomcat 정지 중 경고: " <> e)

  unfoldable pub stop_shared_tomcat : Target → Prog (Sys h) (Option String)
  unfolding ◌>>=◌
  stop_shared_tomcat t = do
    cfg ← load_settings
    if str_eq cfg.tomcat_path ""
        then (do edit t.id mark_stopped; stop_all_rsp_managed_jobs h t.id; ret none)
        else (do
          err ← stop_tomcat_catalina h t.id cfg.tomcat_path
          warn_on t.id err
          port ← read_job t.id (λ j. watched_port t j.port)
          closed ← port_closed h 8 port
          settle_stop t.id port closed)

  unfoldable pub carry_out : Target → StopPlan → Prog (Sys h) (Option String)
  unfolding ◌>>=◌
  carry_out t (kill_main p) = ask (h.kill p)
  carry_out t (kill_deps p ps) = reap h t (p ∷ ps) >> ret none
  carry_out t stop_shared = stop_shared_tomcat t
  carry_out t nothing = ret none

  unfoldable pub stop_target : String → Option Target → Prog (Sys h) (Option String)
  unfolding ◌>>=◌
  stop_target id none = ret (some ("unknown target: " <> id))
  stop_target id (some t) = do
    plan ← step (with_job t.id stop_job) (λ s. or_quit stop_plan (lookup t.id s.jobs))
    carry_out t plan

  -- `Runner.Stop`: `none` is a nil error.
  unfoldable pub stop : String → Prog (Sys h) (Option String)
  unfolding ◌>>=◌
  stop id = do found ← job_for id; stop_target id found

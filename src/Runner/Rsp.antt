-- ===== src/Runner/Rsp.antt =====
-- The jobs that share one Tomcat through the RSP backend, in launcher/internal/runner/runner.go:
-- forEachRSPManagedJob and what is built on it, and the commands that stop the shared Tomcat.
use egovframe_launcher.Base.{
  ℕ, zero, suc, String, ◌<>◌, Bool, true, false, not, Option, some, List, [], ◌∷◌, ◌++◌, str_eq,
  if◌then◌else◌,
}
use egovframe_launcher.Base.Int.{ℤ, pos}
use egovframe_launcher.Base.Text.{join, trim_space}
use egovframe_launcher.Prog.{Prog, ret, ◌>>=◌, ◌>>◌, skip, reads}
use egovframe_launcher.Runner.Host.{Host, Cmd}
use egovframe_launcher.Runner.Types.{Status, running, stopped, Job}
use egovframe_launcher.Runner.Sys.{Sys, ask, look, tell, log, edit, append_log}

abbrev is_running : Status → Bool
is_running running = true
is_running _ = false

-- `markStopped`
abbrev pub mark_stopped : Job → Job
mark_stopped j = record j { status = stopped; port = pos 0; open_path = ""; rsp_managed = false }

abbrev pub if_managed : (Job → Job) → Job → Job
if_managed f j = if j.rsp_managed then f j else j

abbrev pub stop_managed : Job → Job
stop_managed j = append_log "[info] 공유 Tomcat 정지로 인해 상태가 정지됨으로 동기화되었습니다." (mark_stopped j)

abbrev pub sync_port : ℤ → Job → Job
sync_port port j = if is_running j.status then record j { port = port } else j

abbrev pub keys {ℓ} : {V : Type ℓ} → List (String × V) → List String
keys [] = []
keys ((k, v) ∷ m) = k ∷ keys m

module _ (h : Host) where
  -- The loop over the map; each job is changed under its own lock.
  unfoldable pub edit_managed : String → (Job → Job) → List String → Prog (Sys h) (Unit {0})
  unfolding ◌>>=◌
  edit_managed except f [] = skip
  edit_managed except f (id ∷ ids) = do
    if str_eq id except then skip else edit id (if_managed f)
    edit_managed except f ids

  -- `forEachRSPManagedJob`
  unfoldable pub for_each_rsp_managed_job : String → (Job → Job) → Prog (Sys h) (Unit {0})
  unfolding ◌>>=◌
  for_each_rsp_managed_job except f = do ids ← reads (λ s. keys s.jobs); edit_managed except f ids

  unfoldable pub stop_all_rsp_managed_jobs : String → Prog (Sys h) (Unit {0})
  stop_all_rsp_managed_jobs except = for_each_rsp_managed_job except stop_managed

  unfoldable pub sync_rsp_jobs_port : String → ℤ → Prog (Sys h) (Unit {0})
  sync_rsp_jobs_port active port = for_each_rsp_managed_job active (sync_port port)

  -- `tomcatCatalina`
  abbrev pub catalina : String → String
  catalina home = h.join (home ∷ "bin" ∷ (if h.windows then "catalina.bat" else "catalina.sh") ∷ [])

  abbrev pub catalina_stop : String → List String → Cmd
  catalina_stop home env = record {
    name = catalina home;
    args = "stop" ∷ "10" ∷ "-force" ∷ [];
    dir = "";
    env = some (env ++ ("CATALINA_HOME=" <> home) ∷ ("CATALINA_BASE=" <> home) ∷ []);
  }

  -- `stopTomcatCatalina`
  unfoldable pub stop_tomcat_catalina : String → String → Prog (Sys h) (Option String)
  unfolding ◌>>=◌
  stop_tomcat_catalina id home = do
    env ← look h.environ
    ended ← ask (h.output (catalina_stop home env))
    log id ("[info] catalina stop: " <> trim_space (join ended.output "\n"))
    ret ended.err

  -- The loop that waits until the port no longer answers, by the rounds left.
  unfoldable pub port_closed : ℕ → ℤ → Prog (Sys h) Bool
  unfolding ◌>>=◌
  port_closed zero port = ret false
  port_closed (suc left) port = do
    up ← ask (h.dial port 300)
    if not up then ret true else (tell (h.sleep 500) >> port_closed left port)

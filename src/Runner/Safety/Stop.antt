-- ===== src/Runner/Safety/Stop.antt =====
-- Stop and the jobs of the shared Tomcat keep the invariant of the job map:
-- launcher/internal/runner/runner.go.
use egovframe_launcher.Base.{
  ℕ, zero, suc, ◌≡◌, refl, String, str_eq, Bool, true, false, not, if◌then◌else◌, ◌<>◌, Option,
  none, some, List, [], ◌∷◌,
}
use egovframe_launcher.Base.Int.{ℤ}
use egovframe_launcher.Base.Text.{join, trim_space}
use egovframe_launcher.Catalog.{Target}
use egovframe_launcher.Prog.Kept.{Kept-bind, Kept-then, Kept-if, Kept-ret}
use egovframe_launcher.Runner.Host.{Host}
use egovframe_launcher.Runner.Types.{Job}
use egovframe_launcher.Runner.Sys.{edit, or_quit}
use egovframe_launcher.Runner.Rsp.{
  mark_stopped, if_managed, stop_managed, edit_managed, for_each_rsp_managed_job,
  stop_all_rsp_managed_jobs, stop_tomcat_catalina, port_closed, keys, catalina_stop,
}
use egovframe_launcher.Runner.Stop.{
  StopPlan, kill_main, kill_deps, stop_shared, nothing, stop_plan, stopped_by, stop_job,
  settle_stop, warn_on, watched_port, stop_shared_tomcat, carry_out, stop_target, stop,
}
use egovframe_launcher.Runner.Safety.{
  JobOk, Safe, append_log-JobOk, edit-Safe, ask-Safe, look-Safe, reads-Safe, tell-Safe, log-Safe,
  same-Safe, edit_read-Safe, or_quit-Safe, read_job-Safe, job_for-Safe, load_settings-Safe,
}
use egovframe_launcher.Runner.Safety.Chain.{reap-Safe}

mark_stopped-JobOk : {id : String} {j : Job} → JobOk id j → JobOk id (mark_stopped j)
mark_stopped-JobOk v = record {
  keyed = v.keyed;
  listed = v.listed;
  logged = v.logged;
  bounded = v.bounded;
}

stop_managed-JobOk :
    (b : Bool) {id : String} (j : Job) → JobOk id j → JobOk id (if b then stop_managed j else j)
stop_managed-JobOk true j v = append_log-JobOk _ (mark_stopped-JobOk v)
stop_managed-JobOk false j v = v

stopped_by-target : (p : StopPlan) (j : Job) → (stopped_by p j).target ≡ j.target
stopped_by-target (kill_main p) j = refl
stopped_by-target (kill_deps p ps) j = refl
stopped_by-target stop_shared j = refl
stopped_by-target nothing j = refl

stopped_by-logs : (p : StopPlan) (j : Job) → (stopped_by p j).logs ≡ j.logs
stopped_by-logs (kill_main p) j = refl
stopped_by-logs (kill_deps p ps) j = refl
stopped_by-logs stop_shared j = refl
stopped_by-logs nothing j = refl

module _ (h : Host) where
  edit_managed-Safe :
      (except : String) (ids : List String) → Safe h (edit_managed h except stop_managed ids)
  unfolding edit_managed
  edit_managed-Safe except [] = Kept-ret tt
  edit_managed-Safe except (id ∷ ids) =
      Kept-then
        (Kept-if _ _ _ (Kept-ret tt)
          (edit-Safe h id (if_managed stop_managed) (λ j v. stop_managed-JobOk j.rsp_managed j v)))
        (edit_managed-Safe except ids)

  stop_all-Safe : (except : String) → Safe h (stop_all_rsp_managed_jobs h except)
  unfolding stop_all_rsp_managed_jobs for_each_rsp_managed_job
  stop_all-Safe except =
      Kept-bind _ _ (reads-Safe h (λ s. keys s.jobs)) (λ ids. edit_managed-Safe except ids)

  mark-Safe : (id : String) → Safe h (edit {h = h} id mark_stopped)
  mark-Safe id = same-Safe h id mark_stopped (λ j. refl) (λ j. refl)

  settle_stop-Safe : (id : String) (port : ℤ) (b : Bool) → Safe h (settle_stop h id port b)
  unfolding settle_stop
  settle_stop-Safe id port true =
      Kept-then (log-Safe h id _)
        (Kept-then (mark-Safe id) (Kept-then (stop_all-Safe id) (Kept-ret none)))
  settle_stop-Safe id port false =
      Kept-then (log-Safe h id _)
        (Kept-then (same-Safe h id _ (λ j. refl) (λ j. refl)) (Kept-ret _))

  warn_on-Safe : (id : String) (o : Option String) → Safe h (warn_on h id o)
  warn_on-Safe id none = Kept-ret tt
  warn_on-Safe id (some e) = log-Safe h id _

  stop_tomcat-Safe : (id home : String) → Safe h (stop_tomcat_catalina h id home)
  unfolding stop_tomcat_catalina
  stop_tomcat-Safe id home = Kept-bind _ _ (look-Safe h h.environ) (λ env.
      Kept-bind _ _ (ask-Safe h (h.output (catalina_stop h home env))) (λ ended.
        Kept-then (log-Safe h id ("[info] catalina stop: " <> trim_space (join ended.output "\n")))
          (Kept-ret ended.err)))

  port_closed-Safe : (left : ℕ) (port : ℤ) → Safe h (port_closed h left port)
  unfolding port_closed
  port_closed-Safe zero port = Kept-ret false
  port_closed-Safe (suc left) port = Kept-bind _ _ (ask-Safe h (h.dial port 300)) (λ up.
      Kept-if (not up) _ _ (Kept-ret true)
        (Kept-then (tell-Safe h (h.sleep 500)) (port_closed-Safe left port)))

  shared-Safe : (t : Target) → Safe h (stop_shared_tomcat h t)
  unfolding stop_shared_tomcat
  shared-Safe t = Kept-bind _ _ (load_settings-Safe h) (λ cfg.
      Kept-if (str_eq cfg.tomcat_path "") _ _
        (Kept-then (mark-Safe t.id) (Kept-then (stop_all-Safe t.id) (Kept-ret none)))
        (Kept-bind _ _ (stop_tomcat-Safe t.id cfg.tomcat_path) (λ err.
          Kept-then (warn_on-Safe t.id err) (
            Kept-bind _ _ (read_job-Safe h t.id (λ j. watched_port t j.port)) (λ port.
              Kept-bind _ _ (port_closed-Safe 8 port)
                (λ closed. settle_stop-Safe t.id port closed))))))

  carry_out-Safe : (t : Target) (p : StopPlan) → Safe h (carry_out h t p)
  unfolding carry_out
  carry_out-Safe t (kill_main p) = ask-Safe h (h.kill p)
  carry_out-Safe t (kill_deps p ps) = Kept-then (reap-Safe h t (p ∷ ps)) (Kept-ret none)
  carry_out-Safe t stop_shared = shared-Safe t
  carry_out-Safe t nothing = Kept-ret none

  stop_target-Safe : (id : String) (o : Option Target) → Safe h (stop_target h id o)
  unfolding stop_target stop_job
  stop_target-Safe id none = Kept-ret _
  stop_target-Safe id (some t) =
      Kept-bind _ _
        (edit_read-Safe h t.id stop_job (λ o. or_quit stop_plan o)
          (λ j. stopped_by-target (stop_plan j) j) (λ j. stopped_by-logs (stop_plan j) j)
          (λ o. or_quit-Safe h stop_plan o))
        (λ plan. carry_out-Safe t plan)

  pub stop-Safe : (id : String) → Safe h (stop h id)
  unfolding stop
  stop-Safe id = Kept-bind _ _ (job_for-Safe h id) (λ o. stop_target-Safe id o)

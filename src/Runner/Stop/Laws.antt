-- ===== src/Runner/Stop/Laws.antt =====
-- What Stop of launcher/internal/runner/runner.go does to a job, and how the goroutine that waits
-- for the job's process ends it afterwards.
use egovframe_launcher.Base.{
  ℕ, String, ◌<>◌, ◌≡◌, refl, true, false, Option, none, some, List, [], ◌∷◌, arith, eq_refl,
}
use egovframe_launcher.Base.Dict.{lookup, modify, lookup-modify}
use egovframe_launcher.Catalog.{Target, targets, find_id}
use egovframe_launcher.Prog.{ret, run, continue, run-bind, ◌>>=◌}
use egovframe_launcher.Runner.Host.{Host}
use egovframe_launcher.Runner.Types.{stopped, Job}
use egovframe_launcher.Runner.Sys.{Sys, job_for, with_job}
use egovframe_launcher.Runner.Chain.{end_job, kill_each, reap}
use egovframe_launcher.Runner.Stop.{kill_deps, stop, stop_target, stop_plan, stop_job, carry_out}

-- The job with the status and the flag, and nothing else changed.
abbrev pub halted : Job → Job
halted j = record j { status = stopped; stopping = true }

module _ (h : Host) where
  stop_running-run :
      (id : String) (s : Sys h) (j : Job) (p : ℕ)
      → lookup id s.jobs ≡ some j
      → j.target.id ≡ id
      → j.cmd ≡ some p
      → run (stop h id) s ≡ (
        some (h.kill p s.world).0,
        record s { world = (h.kill p s.world).1; jobs = modify id stop_job s.jobs },
      )
  unfolding stop stop_target stop_plan carry_out job_for run ◌>>=◌
  stop_running-run id s j p found named busy = ground arith

  stop_job-halted :
      (id : String) (j : Job) (p : ℕ) (jobs : List (String × Job))
      → lookup id jobs ≡ some j
      → j.cmd ≡ some p
      → modify id stop_job jobs ≡ modify id halted jobs
  unfolding stop_job stop_plan lookup modify
  stop_job-halted id j p [] found busy = refl
  stop_job-halted id j p ((key, x) ∷ rest) found busy = ground (arith, stop_job-halted id j p rest)

  -- `Stop` of a job with a process kills exactly that process, hands on the error of the kill, and
  -- gives the job the status stopped and the flag that says it is stopping; nothing else of the
  -- state changes.
  pub stop_running :
      (id : String) (s : Sys h) (j : Job) (p : ℕ)
      → lookup id s.jobs ≡ some j
      → j.target.id ≡ id
      → j.cmd ≡ some p
      → run (stop h id) s ≡ (
        some (h.kill p s.world).0,
        record s { world = (h.kill p s.world).1; jobs = modify id halted s.jobs },
      )
  stop_running id s j p found named busy =
      rw (stop_running-run id s j p found named busy)
        (rw (stop_job-halted id j p s.jobs found busy) refl)

  -- `Stop` of an id that is no target's returns the error and changes nothing.
  pub stop_unknown :
      (id : String) (s : Sys h)
      → lookup id s.jobs ≡ none
      → find_id id targets ≡ none
      → run (stop h id) s ≡ (some (some ("unknown target: " <> id)), s)
  unfolding stop stop_target job_for run ◌>>=◌
  stop_unknown id s absent unlisted = ground arith

  -- When the process that `Stop` killed has ended, the job's status is stopped, whatever error the
  -- process ended with, and the job holds no process and no dependency service any more.
  pub stop-end_job :
      (id : String) (s : Sys h) (j : Job) (p : ℕ) (err : Option String)
      → lookup id s.jobs ≡ some j
      → j.target.id ≡ id
      → j.cmd ≡ some p
      → lookup id (with_job id (end_job err) (run (stop h id) s).1).jobs
        ≡ some (record j { status = stopped; stopping = true; cmd = none; dep_cmds = [] })
  unfolding stop_job stop_plan
  stop-end_job id s j p err found named busy = rw (stop_running-run id s j p found named busy) (
      ground (
        arith,
        lookup-modify id id stop_job s.jobs,
        lookup-modify id id (end_job err) (modify id stop_job s.jobs),
        eq_refl id,
      ))

  abbrev pub kill_all : List ℕ → h.World → h.World
  kill_all [] w = w
  kill_all (p ∷ ps) w = kill_all ps (h.kill p w).1

  kill_each-run :
      (ps : List ℕ) (s : Sys h)
      → run (kill_each h ps) s ≡ (some tt, record s { world = kill_all ps s.world })
  unfolding kill_each run ◌>>=◌
  kill_each-run [] s = refl
  kill_each-run (p ∷ ps) s = kill_each-run ps (record s { world = (h.kill p s.world).1 })

  reap-run :
      (t : Target) (p : ℕ) (ps : List ℕ) (s : Sys h)
      → ((run (reap h t (p ∷ ps)) s).0 ≡ some tt)
        × ((run (reap h t (p ∷ ps)) s).1.world ≡ kill_all (p ∷ ps) s.world)
  unfolding reap run ◌>>=◌
  reap-run t p ps s = rw (kill_each-run (p ∷ ps) (with_job t.id _ s)) (refl, refl)

  carry_out-deps :
      (t : Target) (p : ℕ) (ps : List ℕ) (s : Sys h)
      → ((run (carry_out h t (kill_deps p ps)) s).0 ≡ some none)
        × ((run (carry_out h t (kill_deps p ps)) s).1.world ≡ kill_all (p ∷ ps) s.world)
  unfolding carry_out continue run
  carry_out-deps t p ps s =
      let (answered, killed) = reap-run t p ps s in
      rw (run-bind (reap h t (p ∷ ps)) (λ _. ret none) s) (rw answered (refl, killed))

  stop_known :
      (id : String) (s : Sys h) (j : Job)
      → lookup id s.jobs ≡ some j
      → j.target.id ≡ id
      → run (stop h id) s ≡ run (carry_out h j.target (stop_plan j)) (with_job id stop_job s)
  unfolding stop stop_target job_for run ◌>>=◌
  stop_known id s j found named = ground arith

  -- `Stop` of a job that has no process of its own yet, but dependency services, kills exactly
  -- those, in the order in which they were started, and returns no error.
  pub stop_waiting :
      (id : String) (s : Sys h) (j : Job) (p : ℕ) (ps : List ℕ)
      → lookup id s.jobs ≡ some j
      → j.target.id ≡ id
      → j.cmd ≡ none
      → j.rsp_managed ≡ false
      → j.dep_cmds ≡ p ∷ ps
      → ((run (stop h id) s).0 ≡ some none)
        × ((run (stop h id) s).1.world ≡ kill_all (p ∷ ps) s.world)
  unfolding stop_plan
  stop_waiting id s j p ps found named own unmanaged deps =
      let planned : stop_plan j ≡ kill_deps p ps = ground arith in
      rw (stop_known id s j found named)
        (rw planned (carry_out-deps j.target p ps (with_job id stop_job s)))

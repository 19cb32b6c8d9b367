-- ===== src/Runner/Safety/Chain.antt =====
-- The chain of dependency services and the process that stays keep the invariant of the job map:
-- the second half of runLongWithPort in launcher/internal/runner/runner.go.
use egovframe_launcher.Base.{
  ℕ, zero, suc, ◌+◌, ◌/◌, ltb, not, ◌≡◌, refl, String, Bool, true, false, Option, none, some, List,
  [], ◌∷◌,
}
use egovframe_launcher.Base.Int.{ℤ, pos}
use egovframe_launcher.Catalog.{Target, Command}
use egovframe_launcher.Prog.{ret, step}
use egovframe_launcher.Base.Dict.{lookup}
use egovframe_launcher.Runner.Sys.{with_job, edit}
use egovframe_launcher.Prog.Kept.{Kept-bind, Kept-then, Kept-if, Kept-ret, Kept-quit}
use egovframe_launcher.Runner.Host.{Host, Started, proc, refused}
use egovframe_launcher.Runner.Types.{error, running, Job}
use egovframe_launcher.Runner.Ports.{
  is_port_available, scan_ports, find_available_port, port_listening, wait_until, wait_for_port,
  free_port, scan_len,
}
use egovframe_launcher.Runner.Chain.{
  choose_port, wait_for_dep, started_dep, start_dep, stop_step, start_deps, kill_each, reap,
  run_main, is_npm_run, aim_args, aim_main, run_last, run_chain, run_long_with_port, deps_of,
  end_job, ended_status, claim_port,
}
use egovframe_launcher.Runner.Safety.{
  safe_steps, Safe, ask-Safe, look-Safe, tell-Safe, log-Safe, set-Safe, same-Safe, edit_read-Safe,
  state-Safe,
}
use egovframe_launcher.Runner.Safety.Exec.{exec-Safe, command-Safe}
use egovframe_launcher.Runner.Safety.Files.{resolve_cmds-Safe, install_deps-Safe, build_jars-Safe}

module _ (h : Host) where
  is_port_available-Safe : (port : ℤ) → Safe h (is_port_available h port)
  unfolding is_port_available
  is_port_available-Safe port =
      Kept-bind _ _ (ask-Safe h (h.listen4 port))
        (λ free4. Kept-if free4 _ _ (ask-Safe h (h.listen6 port)) (Kept-ret false))

  scan_ports-Safe : (left : ℕ) (port start : ℤ) → Safe h (scan_ports h left port start)
  unfolding scan_ports
  scan_ports-Safe zero port start = Kept-ret start
  scan_ports-Safe (suc left) port start =
      let rest = scan_ports-Safe left in
      Kept-bind _ _ (is_port_available-Safe port) (λ free. search (safe_steps, rest))

  find_available_port-Safe : (start : ℤ) → Safe h (find_available_port h start)
  unfolding find_available_port
  find_available_port-Safe start =
      Kept-if _ _ _ (Kept-ret start) (scan_ports-Safe scan_len start start)

  pub port_listening-Safe : (port : ℤ) (timeout : ℕ) → Safe h (port_listening h port timeout)
  unfolding port_listening
  port_listening-Safe port timeout = ask-Safe h _

  wait_until-Safe : (fuel : ℕ) (port : ℤ) (end : ℕ) → Safe h (wait_until h fuel port end)
  unfolding wait_until
  wait_until-Safe zero port end = Kept-ret false
  wait_until-Safe (suc fuel) port end =
      let rest = wait_until-Safe fuel in
      Kept-bind _ _ (look-Safe h h.now) (λ now.
        Kept-if (ltb now end) _ _
          (Kept-bind _ _ (port_listening-Safe port 300) (λ up.
            Kept-if up _ _ (Kept-ret true) (Kept-then (tell-Safe h (h.sleep 300)) (rest port end))))
          (Kept-ret false))

  wait_for_port-Safe : (port : ℤ) (wait : ℕ) → Safe h (wait_for_port h port wait)
  unfolding wait_for_port
  wait_for_port-Safe port wait =
      Kept-bind _ _ (look-Safe h h.now)
        (λ now. wait_until-Safe (suc (suc (wait / 300))) port (now + wait))

  free_port-Safe : (port : ℤ) → Safe h (free_port h port)
  unfolding free_port
  free_port-Safe port =
      Kept-if _ _ _ (Kept-ret tt)
        (Kept-bind _ _ (port_listening-Safe port 200) (λ up. search safe_steps))

  choose_port-Safe : (t : Target) (custom : ℤ) → Safe h (choose_port h t custom)
  unfolding choose_port
  choose_port-Safe t custom = Kept-bind _ _ (find_available_port-Safe _) (λ port. search safe_steps)

  wait_for_dep-Safe : (t : Target) (c : Command) → Safe h (wait_for_dep h t c)
  unfolding wait_for_dep
  wait_for_dep-Safe t c =
      Kept-if _ _ _
        (Kept-bind _ _ (wait_for_port-Safe (pos c.port) 20000)
          (λ ready. Kept-if ready _ _ (log-Safe h t.id _) (log-Safe h t.id _)))
        (tell-Safe h (h.sleep 2000))

  started_dep-Safe : (t : Target) (c : Command) (st : Started) → Safe h (started_dep h t c st)
  unfolding started_dep
  started_dep-Safe t c (refused e) = log-Safe h t.id _
  started_dep-Safe t c (proc p) =
      Kept-then (same-Safe h t.id _ (λ j. refl) (λ j. refl)) (wait_for_dep-Safe t c)

  start_dep-Safe : (t : Target) (i n : ℕ) (c : Command) → Safe h (start_dep h t i n c)
  unfolding start_dep
  start_dep-Safe t i n c =
      Kept-then
        (Kept-if _ _ _ (Kept-then (free_port-Safe _) (log-Safe h t.id _)) (log-Safe h t.id _))
        (search (safe_steps, command-Safe, started_dep-Safe))

  stop_step-Safe : (t : Target) (e : Option String) → Safe h (stop_step h t e)
  stop_step-Safe t none = Kept-ret tt
  stop_step-Safe t (some e) = Kept-then (set-Safe h t.id error e) (Kept-quit _)

  start_deps-Safe : (t : Target) (i n : ℕ) (cs : List Command) → Safe h (start_deps h t i n cs)
  unfolding start_deps
  start_deps-Safe t i n [] = Kept-ret tt
  start_deps-Safe t i n (c ∷ cs) =
      Kept-then
        (Kept-if _ _ _ (start_dep-Safe t i n c)
          (Kept-bind _ _ (exec-Safe h t c) (λ e. stop_step-Safe t e)))
        (start_deps-Safe t (i + 1) n cs)

  kill_each-Safe : (ps : List ℕ) → Safe h (kill_each h ps)
  unfolding kill_each
  kill_each-Safe [] = Kept-ret tt
  kill_each-Safe (p ∷ ps) = Kept-bind _ _ (ask-Safe h (h.kill p)) (λ _. kill_each-Safe ps)

  pub reap-Safe : (t : Target) (ps : List ℕ) → Safe h (reap h t ps)
  unfolding reap
  reap-Safe t [] = Kept-ret tt
  reap-Safe t (p ∷ ps) = Kept-then (log-Safe h t.id _) (kill_each-Safe (p ∷ ps))

  ended-target : (b : Bool) (e : Option String) (j : Job) → (ended_status b e j).target ≡ j.target
  ended-target true e j = refl
  ended-target false none j = refl
  ended-target false (some e) j = refl

  ended-logs : (b : Bool) (e : Option String) (j : Job) → (ended_status b e j).logs ≡ j.logs
  ended-logs true e j = refl
  ended-logs false none j = refl
  ended-logs false (some e) j = refl

  end_job-Safe :
      (t : Target) (e : Option String)
      → Safe h (step (with_job t.id (end_job e)) (λ s. ret (deps_of (lookup t.id s.jobs))))
  end_job-Safe t e =
      edit_read-Safe h t.id (end_job e) (λ o. ret (deps_of o)) (λ j. ended-target j.stopping e j)
        (λ j. ended-logs j.stopping e j) (λ o. Kept-ret _)

  run_main-Safe : (t : Target) (st : Started) → Safe h (run_main h t st)
  unfolding run_main
  run_main-Safe t (refused e) = Kept-then (set-Safe h t.id error e) (Kept-quit _)
  run_main-Safe t (proc p) =
      Kept-then
        (same-Safe h t.id (λ j. record j { cmd = some p; status = running }) (λ j. refl)
          (λ j. refl))
        (search (safe_steps, end_job-Safe, reap-Safe))

  aim_args-Safe : (t : Target) (port : ℤ) (c : Command) → Safe h (aim_args h t port c)
  unfolding aim_args
  aim_args-Safe t port c =
      Kept-if _ _ _ (Kept-then (log-Safe h t.id _) (Kept-ret _))
        (Kept-then (log-Safe h t.id _) (Kept-ret c))

  aim_main-Safe : (t : Target) (port : ℤ) (c : Command) → Safe h (aim_main h t port c)
  unfolding aim_main
  aim_main-Safe t port c =
      Kept-if (not (is_npm_run c)) _ _ (Kept-ret (c, pos 0))
        (Kept-bind _ _ (aim_args-Safe t port c) (λ c'. search (safe_steps, state-Safe)))

  run_last-Safe : (t : Target) (port : ℤ) (c : Command) → Safe h (run_last h t port c)
  unfolding run_last
  run_last-Safe t port c =
      Kept-bind _ _ (aim_main-Safe t port c)
        (λ aimed. search (safe_steps, command-Safe, run_main-Safe))

  claim-Safe : (t : Target) (port : ℤ) → Safe h (edit {h = h} t.id (claim_port port))
  claim-Safe t port = same-Safe h t.id (claim_port port) (λ j. refl) (λ j. refl)

  run_chain-Safe : (t : Target) (custom : ℤ) (cs : List Command) → Safe h (run_chain h t custom cs)
  unfolding run_chain
  run_chain-Safe t custom [] = Kept-ret tt
  run_chain-Safe t custom (c ∷ cs) =
      Kept-bind _ _ (choose_port-Safe t custom)
        (λ port. search (safe_steps, claim-Safe, start_deps-Safe, run_last-Safe))

  pub run_long-Safe :
      (t : Target) (given : List Command) (custom : ℤ)
      → Safe h (run_long_with_port h t given custom)
  unfolding run_long_with_port
  run_long-Safe t given custom =
      Kept-bind _ _ (resolve_cmds-Safe h t given)
        (λ cmds. search (safe_steps, install_deps-Safe, build_jars-Safe, run_chain-Safe))

-- ===== src/Runner/Tests.antt =====
-- A host whose kills and sleeps are counted, and the theorems on it.
use egovframe_launcher.Base.{
  ℕ, suc, ◌+◌, String, ◌<>◌, ◌≡◌, ◌↔◌, refl, true, false, not, none, some, List, [], ◌∷◌, ◌++◌,
  arith, any, keep,
}
use egovframe_launcher.Base.Int.{pos}
use egovframe_launcher.Base.Dict.{lookup, modify}
use egovframe_launcher.Catalog.{Target, Command, tier1, targets, find_id}
use egovframe_launcher.Prog.{◌>>=◌}
use egovframe_launcher.Persist.{Config, zero_config, Vars, Disk}
use egovframe_launcher.Persist
use egovframe_launcher.Prog.{run}
use egovframe_launcher.Prog.Pool.{here, next, spawn, tick}
use egovframe_launcher.Runner.Host.{Host, missing, Cmd, proc}
use egovframe_launcher.Runner.Types.{stopped, running, building, Job, new_job}
use egovframe_launcher.Runner.Sys.{Sys, with_job, job_for, state}
use egovframe_launcher.Runner.Command.{env_or, is_skip, skip_args}
use egovframe_launcher.Runner.Command.Arguments.{skip_args_lem}
use egovframe_launcher.Runner.Ports.{find_available_port, wait_for_port, wait_until}
use egovframe_launcher.Runner.Ports.Waiting.{HasClock, wait_for_port_enough}
use egovframe_launcher.Runner.Ports.Range.{Found, find_available_port_lem}
use egovframe_launcher.Runner.Chain.{dep_cmd, end_job}
use egovframe_launcher.Runner.Chain.Environment.{is_port_var, own_ports, dep_cmd_lem}
use egovframe_launcher.Runner.Stop.{stop}
use egovframe_launcher.Base.Text.{itoa}
use egovframe_launcher.Runner.Stop.Laws.{
  halted, stop_running, stop_unknown, stop-end_job, stop_waiting,
}
use egovframe_launcher.Runner.Digest.{verify_local_sha512, digest, verify_local_sha512_iff}
use egovframe_launcher.Runner.Requests.{view}
use egovframe_launcher.Runner.Safety.{SysOk}
use egovframe_launcher.Runner.Safety.Requests.{Reach-SysOk}

abbrev pub disk : Disk
disk = record {
  Files = Unit {0};
  Text = Config;
  home = "/home/me";
  join = λ a b. a <> "/" <> b;
  read = λ files path. none;
  make_parent = λ path files. files;
  write = λ path c files. (none, files);
  encode = λ c. c;
  decode = λ text c. text;
}

-- A host on any world, which it leaves as it is.
abbrev pub idle_host : Type 0 → Host
idle_host W = record {
  World = W;
  disk = disk;
  files = λ w. tt;
  set_files = λ f w. w;
  windows = false;
  join = λ parts. "/";
  is_abs = λ p. false;
  from_slash = λ p. p;
  list_separator = ":";
  environ = λ w. [];
  getenv = λ k w. "";
  stat = λ p w. missing;
  read_dir = λ p w. none;
  glob = λ p w. none;
  rel = λ d p. none;
  read_file = λ p w. none;
  write_file = λ p c w. (none, w);
  remove_all = λ p w. (none, w);
  mkdir_all = λ p w. (none, w);
  start = λ c w. (proc 1, w);
  wait = λ p w. (record { output = []; err = none }, w);
  output = λ c w. (record { output = []; err = none }, w);
  kill = λ p w. (none, w);
  listen4 = λ p w. (true, w);
  listen6 = λ p w. (true, w);
  dial = λ p n w. (false, w);
  sleep = λ n w. w;
  now = λ w. 0;
}

-- The world is the list of the processes that were killed.
abbrev pub host : Host
host = record (idle_host (List ℕ)) { environ = λ w. "PORT=1" ∷ []; kill = λ p w. (none, p ∷ w) }

abbrev pub sys : List (String × Job) → Sys host
sys jobs = record {
  world = [];
  settings = Persist.start;
  workspace = "/w";
  skip_tests = false;
  java_home = "";
  jobs = jobs;
  needs_db_cache = [];
}

abbrev web : Target
web = record {
  id = "web";
  display_name = "";
  category = "";
  repo_url = "";
  branch = "";
  tier = tier1;
  prereqs = [];
  port = 8080;
  open_path = "";
  build = [];
  run = [];
  note = "";
  deploy_type = "";
  backend_id = "";
  run_env = [];
  accounts = [];
}

abbrev busy : Job
busy = record (new_job web) { cmd = some 7; status = running; dep_cmds = 5 ∷ [] }

abbrev waiting : Job
waiting = record (new_job web) { status = building; dep_cmds = 5 ∷ 6 ∷ [] }

abbrev busy_sys : Sys host
busy_sys = sys (("web", busy) ∷ [])

abbrev waiting_sys : Sys host
waiting_sys = sys (("web", waiting) ∷ [])

abbrev viewed_sys : Sys host
viewed_sys = (run (job_for {h = host} "web-sample") (sys [])).1

Reach-SysOk_example : SysOk {h = host} viewed_sys
unfolding state job_for run ◌>>=◌
Reach-SysOk_example =
    Reach-SysOk host (sys []) (record { shared = viewed_sys; threads = _ ∷ [] }) refl
      (next (next here (spawn _ (view "web-sample"))) (tick [] [] _ _ refl))

skip_args_lem_example :
    (any is_skip (skip_args true ("clean" ∷ "package" ∷ [])) ≡ true)
    × (keep (λ a. not (is_skip a)) (skip_args true ("clean" ∷ "package" ∷ []))
        ≡ keep (λ a. not (is_skip a)) ("clean" ∷ "package" ∷ []))
skip_args_lem_example = skip_args_lem true ("clean" ∷ "package" ∷ [])

abbrev gateway : Command
gateway = record { name = "java"; args = "-jar" ∷ "gateway.jar" ∷ []; dir = ""; port = 9000 }

abbrev gateway_cmd : Cmd
gateway_cmd = record { name = "java"; args = []; dir = ""; env = some ("PORT=1" ∷ "HOME=/" ∷ []) }

dep_cmd_lem_example :
    let env = env_or [] (dep_cmd [] web gateway gateway_cmd).env in
    (keep is_port_var env ≡ own_ports gateway ++ keep is_port_var web.run_env)
    × (keep (λ e. not (is_port_var e)) env
        ≡ keep (λ e. not (is_port_var e)) (env_or [] gateway_cmd.env)
          ++ keep (λ e. not (is_port_var e)) web.run_env)
dep_cmd_lem_example = dep_cmd_lem [] web gateway gateway_cmd

gateway_ports : own_ports gateway ≡ "SERVER_PORT=9000" ∷ "PORT=9000" ∷ []
unfolding itoa
gateway_ports = refl

find_available_port_lem_example :
    (k : ℕ) × (end : Sys host) × (run (find_available_port host (pos 8080)) (sys [])
      ≡ (some (pos k), end))
    × Found host 8080 k (sys []) end
find_available_port_lem_example = find_available_port_lem host 8080 (sys []) (ground arith)

stop_running_example :
    run (stop host "web") busy_sys
    ≡ (some none, record busy_sys { world = 7 ∷ []; jobs = modify "web" halted busy_sys.jobs })
unfolding lookup new_job
stop_running_example = stop_running host "web" busy_sys busy 7 (ground arith) refl refl

stop_unknown_example :
    run (stop host "nothing") busy_sys ≡ (some (some ("unknown target: " <> "nothing")), busy_sys)
unfolding lookup find_id targets
stop_unknown_example = stop_unknown host "nothing" busy_sys (ground arith) (ground arith)

stop-end_job_example :
    lookup "web" (with_job "web" (end_job (some "killed")) (run (stop host "web") busy_sys).1).jobs
    ≡ some (record busy { status = stopped; stopping = true; cmd = none; dep_cmds = [] })
unfolding lookup new_job
stop-end_job_example =
    stop-end_job host "web" busy_sys busy 7 (some "killed") (ground arith) refl refl

stop_waiting_example :
    ((run (stop host "web") waiting_sys).0 ≡ some none)
    × ((run (stop host "web") waiting_sys).1.world ≡ 6 ∷ 5 ∷ [])
unfolding lookup new_job
stop_waiting_example =
    stop_waiting host "web" waiting_sys waiting 5 (6 ∷ []) (ground arith) refl refl refl refl

verify_local_sha512_iff_example :
    (verify_local_sha512 (λ path. digest "ab12") "/tmp/a.zip" "ab12" ≡ none)
    ↔ (digest "ab12" ≡ digest "ab12")
verify_local_sha512_iff_example =
    verify_local_sha512_iff (λ path. digest "ab12") "/tmp/a.zip" "ab12"

-- Its clock is the time that was slept.
abbrev pub total : List ℕ → ℕ
total [] = 0
total (n ∷ ns) = n + total ns

abbrev pub clock_host : Host
clock_host = record host { sleep = λ n w. n ∷ w; now = total }

clock_host-HasClock : HasClock clock_host
clock_host-HasClock = record { slept = λ n w. omega arith; dialled = λ port n w. omega arith }

wait_for_port_enough_example :
    let s : Sys clock_host = record {
      world = [];
      settings = Persist.start;
      workspace = "/w";
      skip_tests = false;
      java_home = "";
      jobs = [];
      needs_db_cache = [];
    } in
    run (wait_for_port clock_host (pos 9000) 600) s
    ≡ run (wait_until clock_host (suc (suc 2 + 5)) (pos 9000) (0 + 600)) s
wait_for_port_enough_example =
    wait_for_port_enough clock_host clock_host-HasClock 5 (pos 9000) 600 (record {
      world = [];
      settings = Persist.start;
      workspace = "/w";
      skip_tests = false;
      java_home = "";
      jobs = [];
      needs_db_cache = [];
    })

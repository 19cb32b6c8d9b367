-- ===== src/Runner/Database/Tests.antt =====
-- A host whose world is the list of the commands that were run, and the theorems on it.
use egovframe_launcher.Base.{
  suc, ◌+◌, ◌/◌, leb, String, ◌≡◌, refl, true, false, none, some, List, [], ◌∷◌, All, arith,
}
use egovframe_launcher.Base.Int.{pos}
use egovframe_launcher.Base.Dict.{lookup, insert}
use egovframe_launcher.Base.Sort.{sort, insert_sorted, str_le}
use egovframe_launcher.Base.Text.{trim_space, trim_left, trim_right}
use egovframe_launcher.Base.Outcome.{got, fault}
use mathlib.Core.List.{Permᴰ}
use egovframe_launcher.Prog.{ret, run, ◌>>=◌}
use egovframe_launcher.Prog.Kept.{Kept}
use egovframe_launcher.Persist
use egovframe_launcher.Runner.Host.{Host, Cmd, proc, regular}
use egovframe_launcher.Runner.Sys.{Sys, ask}
use egovframe_launcher.Runner.Tests.{idle_host, clock_host, total}
use egovframe_launcher.Runner.Tools.{Tools}
use egovframe_launcher.Runner.Docker.{
  ContainerSpec, poll_ready, rounds, check_docker, start_or_reuse, bring_up, port_taken, revive,
  is_crashed, restart, await_ready, poll_out, ensure_docker_container,
}
use egovframe_launcher.Runner.Docker.Polling.{
  Answered, Steady, poll_ready_enough, poll_ready_finds, ensure_docker_container-Answered,
}
use egovframe_launcher.Runner.Docker.Data.{is_harmless, Guarded}
use egovframe_launcher.Runner.Database.{
  Reader, unread, needs_database, detect_db_pattern, detect_served, sql_and_globals,
  compose_init_sql_dir, boot_props_db_info, needs_database_cached,
}
use egovframe_launcher.Runner.Database.Setup.{setup_script_database}
use egovframe_launcher.Runner.Database.Shared.{setup_script_database-Stays}
use egovframe_launcher.Runner.Database.Import.{grouped, import_order}
use egovframe_launcher.Runner.Database.Order.{Ordered, import_order_lem}
use egovframe_launcher.Runner.Database.Cache.{needs_database_cached_lem}

abbrev pub shell_host : Host
shell_host = record (idle_host (List Cmd)) {
  stat = λ p w. regular;
  start = λ c w. (proc 1, c ∷ w);
  output = λ c w. (record { output = []; err = none }, c ∷ w);
}

-- Docker reports each container as one that has stopped.
abbrev pub shell : Tools shell_host
shell = record {
  look_path = λ name w. none;
  run_cmd = λ c w. (none, c ∷ w);
  stdout = λ c w. (("exited", none), c ∷ w);
  combined = λ c w. (("", none), c ∷ w);
  with_stdin = λ c text w. (("", none), c ∷ w);
}

abbrev pub reader : Reader shell_host
reader = record {
  tree = λ dir w. unread;
  read_text = λ path w. fault "none";
  list_dir = λ path w. got [];
  stat_error = λ path w. none;
  base = λ path. path;
  parent = λ path. path;
  to_lower = λ s. s;
  find = λ re text. none;
  replace = λ re new text. text;
}

abbrev pub shell_sys : Sys shell_host
shell_sys = record {
  world = [];
  settings = Persist.start;
  workspace = "/w";
  skip_tests = false;
  java_home = "";
  jobs = [];
  needs_db_cache = [];
}

abbrev AllHarmless : List Cmd → Type 0
AllHarmless cmds = All (λ c. is_harmless c ≡ true) cmds

shell-Guarded : Guarded shell_host shell AllHarmless
unfolding trim_space trim_left trim_right
shell-Guarded = record {
  run_cmd = λ c w e p. (e, p);
  stdout = λ c w e p. (e, p);
  combined = λ c w e p. (e, p);
  with_stdin = λ c text w e p. (e, p);
  dial = λ port n w p. p;
  sleep = λ n w p. p;
  has_run = λ w p. refl;
}

setup_script_database-Stays_example :
    Kept (λ s. AllHarmless s.world) (setup_script_database shell reader "/w/a" "/w/a/script" "a")
setup_script_database-Stays_example =
    setup_script_database-Stays shell_host shell reader AllHarmless shell-Guarded "/w/a"
      "/w/a/script" "a"

abbrev sql_files : List String
sql_files = "b_data.sql" ∷ "views.sql" ∷ "b_ddl.sql" ∷ "a_data.sql" ∷ "a_ddl.sql" ∷ []

import_order_lem_example :
    Permᴰ (import_order (λ s. s) sql_files) sql_files
    × Ordered (λ s. s) (import_order (λ s. s) sql_files)
import_order_lem_example = import_order_lem (λ s. s) sql_files

imported :
    import_order (λ s. s) sql_files
    ≡ "a_ddl.sql" ∷ "b_ddl.sql" ∷ "views.sql" ∷ "a_data.sql" ∷ "b_data.sql" ∷ []
unfolding grouped sort insert_sorted str_le
imported = refl

abbrev asked_sys : Sys shell_host
asked_sys = (run (needs_database_cached reader "/w/a") shell_sys).1

needs_database_cached_lem_example :
    let later = record asked_sys {
      world = record { name = "ls"; args = []; dir = ""; env = none } ∷ [];
    } in
    run (needs_database_cached reader "/w/a") later ≡ (some false, later)
unfolding needs_database_cached needs_database detect_db_pattern detect_served sql_and_globals
    compose_init_sql_dir boot_props_db_info run ◌>>=◌ lookup insert
needs_database_cached_lem_example =
    needs_database_cached_lem reader "/w/a" false shell_sys asked_sys _ refl

-- A service that is up at once.
abbrev service : ContainerSpec shell_host
service = record {
  name = "db";
  display_name = "DB";
  image = "db:1";
  run_args = "run" ∷ "db:1" ∷ [];
  ready = ret true;
  timeout = 600;
  poll_interval = 300;
  not_ready_err = "not ready";
  host_port = pos 0;
  recreate_on_crash = false;
  after_start = none;
}

ensure_docker_container-Answered_example :
    let end = (run (ensure_docker_container shell "a" service) shell_sys).1 in
    (s : Sys shell_host) × Answered service s × (end.world ≡ s.world)
unfolding ensure_docker_container check_docker start_or_reuse bring_up port_taken revive is_crashed
    restart await_ready poll_out poll_ready trim_space trim_left trim_right run ◌>>=◌
ensure_docker_container-Answered_example =
    ensure_docker_container-Answered service shell "a" shell_sys refl

-- A service that is up after 600 milliseconds.
abbrev slow_service : ContainerSpec clock_host
slow_service = record {
  name = "db";
  display_name = "DB";
  image = "db:1";
  run_args = [];
  ready = ask (λ w. (leb 600 (total w), w));
  timeout = 1000;
  poll_interval = 300;
  not_ready_err = "not ready";
  host_port = pos 0;
  recreate_on_crash = false;
  after_start = none;
}

slow_service-Steady : Steady slow_service
unfolding run ◌>>=◌
slow_service-Steady = record {
  answer = λ s. leb 600 (total s.world);
  after = λ s. s;
  answers = λ s. refl;
  forward = λ s. omega arith;
  slept = λ n w. omega arith;
}

abbrev clock_sys : Sys clock_host
clock_sys = record {
  world = [];
  settings = Persist.start;
  workspace = "/w";
  skip_tests = false;
  java_home = "";
  jobs = [];
  needs_db_cache = [];
}

poll_ready_enough_example :
    run (poll_ready (rounds slow_service) slow_service (0 + 1000)) clock_sys
    ≡ run (poll_ready (suc (suc (1000 / 300) + 7)) slow_service (0 + 1000)) clock_sys
poll_ready_enough_example =
    poll_ready_enough slow_service slow_service-Steady 7 clock_sys (omega arith)

poll_ready_finds_example :
    (run (poll_ready (rounds slow_service) slow_service (0 + 1000)) clock_sys).0 ≡ some true
unfolding slow_service-Steady
poll_ready_finds_example =
    poll_ready_finds slow_service slow_service-Steady 2 clock_sys (omega arith) (omega arith) refl

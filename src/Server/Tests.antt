-- ===== src/Server/Tests.antt =====
-- Requests to the server on a host that answers everything with nothing, and the theorems on it.
use egovframe_launcher.Base.{
  ◌++◌, ◌∷◌, String, ◌<>◌, ◌≡◌, refl, true, false, none, some, List, [], Option, arith,
}
use egovframe_launcher.Base.Int.{pos}
use egovframe_launcher.LogBuf.{append, snapshot, new}
use egovframe_launcher.LogBuf.Steps.{new-IsValid}
use egovframe_launcher.Persist
use egovframe_launcher.Prog.{run}
use egovframe_launcher.Runner.Tests.{idle_host, host, sys}
use egovframe_launcher.Runner.Host.{Host}
use egovframe_launcher.Persist.{Disk}
use egovframe_launcher.Runner.Sys.{Sys}
use egovframe_launcher.Server.{to_run, route}
use egovframe_launcher.Server.Config.{ConfigBody, ok, handle_save_config, handle_get_config}
use egovframe_launcher.Server.Config.Laws.{LastWritten, save_config_lem, get-save_config}
use egovframe_launcher.Server.Events.{begin, sse_line, sse_lines}
use egovframe_launcher.Server.Events.Laws.{first_two, append-begin_twice}

routed : route "run" "" "9090" ≡ to_run (pos 9090)
unfolding route
routed = refl

abbrev body : ConfigBody
body = record {
  vscode_path = "/usr/bin/code";
  workspace_path = "projects";
  tomcat_path = "/opt/tomcat";
  skip_tests = true;
  java_home = "";
  rsp_tomcat_port = pos 8081;
}

abbrev absolute : String → Option String × String
absolute path = (none, "/home/me/" <> path)

-- A file keeps the settings that were written to it last.
abbrev one_file : Disk
one_file = record {
  Files = Persist.Config;
  Text = Persist.Config;
  home = "/home/me";
  join = λ a b. a <> "/" <> b;
  read = λ files path. some files;
  make_parent = λ path files. files;
  write = λ path c files. (none, c);
  encode = λ c. c;
  decode = λ text c. text;
}

abbrev file_host : Host
file_host = record (idle_host Persist.Config) {
  disk = one_file;
  files = λ w. w;
  set_files = λ f w. f;
}

abbrev file_sys : Sys file_host
file_sys = record {
  world = Persist.zero_config;
  settings = record Persist.start { file_path = "/cfg"; loaded = true };
  workspace = "/w";
  skip_tests = false;
  java_home = "";
  jobs = [];
  needs_db_cache = [];
}

abbrev expected : Persist.Config
expected = record {
  workspace_path = "/home/me/projects";
  skip_tests = true;
  vscode_path = "/usr/bin/code";
  tomcat_path = "/opt/tomcat";
  rsp_tomcat_port = pos 8081;
  java_home = "";
}

save_config_lem_example :
    let (answer, t) = run (handle_save_config file_host absolute none body) file_sys in
    (answer ≡ some ok)
    × (t.workspace ≡ "/home/me/projects")
    × (t.skip_tests ≡ true)
    × (t.java_home ≡ "")
    × (t.settings.current ≡ expected)
    × LastWritten file_host expected "/cfg" t.world
save_config_lem_example =
    save_config_lem file_host absolute body "/home/me/projects" file_sys (ground arith) refl
      (ground arith)

abbrev loaded_sys : Sys host
loaded_sys = record (sys []) { settings = record Persist.start { loaded = true } }

get-save_config_example :
    (run
      (handle_get_config host none "/home/me")
      (run (handle_save_config host absolute none body) loaded_sys).1).0
    ≡ some (record body { workspace_path = "/home/me/projects" })
get-save_config_example =
    get-save_config host absolute body "/home/me/projects" none "/home/me" loaded_sys (ground arith)
      refl refl (ground arith) refl

append-begin_twice_example :
    let outputs = first_two (new (pos 2)) "x" in
    ((older : List String) × (snapshot (append "x" (begin (new (pos 2))).1) ≡ older ++ "x" ∷ [])
      × (outputs.0 ≡ sse_lines older <> sse_line "x"))
    × (outputs.1 ≡ sse_line "x")
append-begin_twice_example = append-begin_twice (new (pos 2)) "x" (new-IsValid (pos 2))

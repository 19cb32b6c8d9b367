-- ===== src/Runner/Database/Setup.antt =====
-- The set-up of a project's database: setupProjectDatabase and
-- setupScriptDatabase of launcher/internal/runner/runner.go.
use egovframe_launcher.Base.{
  String, ◌<>◌, str_eq, Bool, true, false, Option, none, some, List, [], ◌∷◌, if◌then◌else◌,
}
use egovframe_launcher.Base.Outcome.{Outcome, got, fault}
use egovframe_launcher.Base.Sort.{sort}
use egovframe_launcher.Prog.{Prog, ret, ◌>>=◌, ◌>>◌}
use egovframe_launcher.Runner.Host.{Host, Entry}
use egovframe_launcher.Runner.Sys.{Sys, look, ask, log, dir}
use egovframe_launcher.Runner.Tools.{Tools, wrapped, go_on, and_then}
use egovframe_launcher.Runner.Docker.Services.{
  mysql_root, create_sql, ensure_mysql_container, ensure_mysql_app_user, drop_create_schema,
}
use egovframe_launcher.Runner.Database.{
  Reader, DbKind, script, Pattern, find_globals_properties, detect_db_pattern,
}
use egovframe_launcher.Runner.Database.Parse.{default_compose, parse_mysql_db_name}
use egovframe_launcher.Runner.Database.Import.{
  sql_names, import_order, import_sql_files, update_all_globals_properties,
}

-- The schema that globals.properties names, if it names one.
abbrev pub schema_or : String → Outcome String → String
schema_or other (fault e) = other
schema_or other (got s) = s

abbrev pub schema_line : String → String
schema_line schema = "[info] 데이터베이스 '" <> schema <> "' 준비 (공유 스키마 보호 — DROP 없이 생성)"

abbrev pub kind_is_script : DbKind → Bool
kind_is_script script = true
kind_is_script _ = false

abbrev pub script_done : String
script_done =
    "[success] SQL 임포트 완료 — 접속정보는 globals.properties의 기존 값(com 계정, 암호화 password)을 그대로 사용합니다"

module _ {h : Host} (tools : Tools h) (r : Reader h) where
  abbrev pub say : String → String → Prog (Sys h) (Option String)
  say id line = log id line >> ret none

  -- `CREATE DATABASE` without a `DROP DATABASE` before it.
  unfoldable pub create_schema : String → Prog (Sys h) (Option String)
  unfolding ◌>>=◌
  create_schema schema = do
    made ← ask (tools.combined (mysql_root ("-e" ∷ create_sql schema ∷ [])))
    ret (wrapped "데이터베이스 생성 실패" made)

  abbrev pub import_entries :
      String → String → String → Option (List Entry) → Prog (Sys h) (Option String)
  import_entries sql_dir schema id none = ret none
  import_entries sql_dir schema id (some es) =
      import_sql_files tools r sql_dir schema (sort (sql_names r es)) id

  unfoldable pub import_subs : String → String → List String → String → Prog (Sys h) (Option String)
  unfolding ◌>>=◌
  import_subs script_dir schema [] id = ret none
  import_subs script_dir schema (sub ∷ subs) id = do
    let sql_dir = h.join (script_dir ∷ sub ∷ "mysql" ∷ [])
    entries ← look (h.read_dir sql_dir)
    failed ← import_entries sql_dir schema id entries
    go_on (import_subs script_dir schema subs id) failed

  -- The schema of the script layout.
  unfoldable pub script_schema : String → Prog (Sys h) String
  unfolding ◌>>=◌
  script_schema dir = do
    path ← find_globals_properties r dir
    if str_eq path ""
        then ret default_compose.db_name
        else (do name ← parse_mysql_db_name r path; ret (schema_or default_compose.db_name name))

  -- After the container is up.
  unfoldable pub fill_script : String → String → String → Prog (Sys h) (Option String)
  unfolding ◌>>=◌
  fill_script dir script_dir id = do
    schema ← script_schema dir
    log id (schema_line schema)
    and_then (create_schema schema) (
        and_then (ensure_mysql_app_user tools default_compose.user default_compose.pass) (
          and_then (import_subs script_dir schema ("ddl" ∷ "dml" ∷ "comment" ∷ []) id)
            (say id script_done)))

  -- `setupScriptDatabase`
  unfoldable pub setup_script_database : String → String → String → Prog (Sys h) (Option String)
  setup_script_database dir script_dir id =
      and_then (ensure_mysql_container tools id) (fill_script dir script_dir id)

  abbrev pub import_ordered :
      String → String → String → Outcome (List Entry) → Prog (Sys h) (Option String)
  import_ordered sql_dir db_name id (fault e) = ret (some ("SQL 디렉터리를 읽지 못했습니다: " <> e))
  import_ordered sql_dir db_name id (got es) =
      import_sql_files tools r sql_dir db_name (import_order r.to_lower (sql_names r es)) id

  abbrev pub fill_named : String → String → Outcome String → Prog (Sys h) (Option String)
  fill_named dir id (fault e) = ret (some e)
  fill_named dir id (got db_name) = do
    let sql_dir = h.join (dir ∷ "DATABASE" ∷ "mysql" ∷ [])
    and_then (drop_create_schema tools db_name id) (
        and_then (ensure_mysql_app_user tools "com" "com01") (
          and_then (look (r.list_dir sql_dir) >>= import_ordered sql_dir db_name id) (
            and_then (say id "[success] SQL 임포트 완료")
              (update_all_globals_properties tools r dir id))))

  unfoldable pub fill_project : String → String → Prog (Sys h) (Option String)
  unfolding ◌>>=◌
  fill_project dir id = do
    path ← find_globals_properties r dir
    if str_eq path ""
        then ret (some "globals.properties를 찾지 못했습니다")
        else (do name ← parse_mysql_db_name r path; fill_named dir id name)

  abbrev pub by_layout : String → String → Option Pattern → Prog (Sys h) (Option String)
  by_layout dir id none = and_then (ensure_mysql_container tools id) (fill_project dir id)
  by_layout dir id (some p) =
      if kind_is_script p.kind
      then setup_script_database dir p.sql_dir id
      else and_then (ensure_mysql_container tools id) (fill_project dir id)

  -- `setupProjectDatabase`
  unfoldable pub setup_project_database : String → String → Prog (Sys h) (Option String)
  unfolding ◌>>=◌
  setup_project_database dir id = do pattern_ ← detect_db_pattern r dir; by_layout dir id pattern_

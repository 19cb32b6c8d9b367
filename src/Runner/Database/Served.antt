-- ===== src/Runner/Database/Served.antt =====
-- The databases of the projects that are served without a new build: setupComposeDatabase and
-- setupBootPropsDatabase of launcher/internal/runner/runner.go. A goroutine that the set-up starts
-- and waits for runs beside it, by turns that are given.
use egovframe_launcher.Base.{
  String, ◌<>◌, str_eq, Bool, false, not, ◌&&◌, Option, none, some, List, [], ◌∷◌, if◌then◌else◌,
}
use egovframe_launcher.Base.Int.{ℤ, pos, is_pos, eq_ℤ}
use egovframe_launcher.Base.Outcome.{Outcome, got, fault}
use egovframe_launcher.Base.Sort.{sort}
use egovframe_launcher.Base.Text.{itoa}
use egovframe_launcher.Prog.{Prog, ret, ◌>>=◌, ◌>>◌, skip}
use egovframe_launcher.Prog.Beside.{beside}
use egovframe_launcher.Runner.Host.{Host, Entry}
use egovframe_launcher.Runner.Sys.{Sys, look, ask, log}
use egovframe_launcher.Runner.Tools.{Tools, and_then}
use egovframe_launcher.Runner.Docker.Services.{
  root_pass, ensure_mysql_container, ensure_rabbitmq_container, ensure_mysql_app_user,
  drop_create_schema,
}
use egovframe_launcher.Runner.Database.{Reader, compose_init_sql_dir}
use egovframe_launcher.Runner.Database.Parse.{
  DbConfig, parse_compose_db_config, parse_compose_mysql_env_user, compose_rabbitmq_needed,
}
use egovframe_launcher.Runner.Database.Import.{
  sql_names, import_sql_files, init_sql_self_manages_schema, found,
}
use egovframe_launcher.Runner.Database.Setup.{say}

abbrev pub origins_for : ℤ → String
origins_for port =
    if is_pos port && not (eq_ℤ port (pos 3000))
    then "http://localhost:3000,http://localhost:" <> itoa port
    else "http://localhost:3000"

abbrev pub prefixed : String → Option String → Option String
prefixed what none = none
prefixed what (some e) = some (what <> e)

abbrev pub origin_regexp : String
origin_regexp = "(?m)^Globals\\.Allow\\.Origin\\s*=.*$"

module _ {h : Host} (tools : Tools h) (r : Reader h) where
  abbrev pub warn_rabbit : String → Option String → Prog (Sys h) (Unit {0})
  warn_rabbit id none = skip
  warn_rabbit id (some e) = log id ("[warn] RabbitMQ 자동 기동 실패: " <> e)

  abbrev pub start_rabbit : String → Bool → Prog (Sys h) (Unit {0})
  start_rabbit id needed =
      if needed then (ensure_rabbitmq_container tools id >>= warn_rabbit id) else skip

  abbrev pub add_env_user : String → String × String → Prog (Sys h) (Option String)
  add_env_user id (user, pass) =
      if str_eq user ""
      then ret none
      else and_then (ensure_mysql_app_user tools user pass)
          (say tools r id ("[info] MySQL 사용자 '" <> user <> "' 생성/권한 부여"))

  -- The scripts choose their own schemas.
  unfoldable pub fill_self_managed : String → List String → String → Prog (Sys h) (Option String)
  unfolding ◌>>=◌
  fill_self_managed init_dir files id = do
    log id "[info] init 스크립트가 자체적으로 데이터베이스를 생성/선택합니다 — 스키마 강제 없이 root로 실행"
    and_then (import_sql_files tools r init_dir "" files id) (do
      log id "[success] SQL 임포트 완료"
      env ← parse_compose_mysql_env_user r (r.parent init_dir)
      add_env_user id env)

  abbrev pub config_line : DbConfig → String
  config_line c =
      "[info] MSA DB 설정: db=" <> c.db_name <> " user=" <> c.user
      <> " (ConfigServer/application-local.yml 기준)"

  unfoldable pub fill_one_schema :
      String → String → List String → String → Prog (Sys h) (Option String)
  unfolding ◌>>=◌
  fill_one_schema dir init_dir files id = do
    c ← parse_compose_db_config r dir
    log id (config_line c)
    and_then (drop_create_schema tools c.db_name id) (
        and_then (ensure_mysql_app_user tools c.user c.pass) (
          and_then (import_sql_files tools r init_dir c.db_name files id)
            (say tools r id "[success] SQL 임포트 완료")))

  abbrev pub fill_compose :
      Bool → String → String → List String → String → Prog (Sys h) (Option String)
  fill_compose self_managed dir init_dir files id = and_then (ensure_mysql_container tools id) (
      if self_managed
      then fill_self_managed init_dir files id
      else fill_one_schema dir init_dir files id)

  -- RabbitMQ runs beside the rest.
  unfoldable pub compose_files :
      List Bool → String → String → List String → String → Prog (Sys h) (Option String)
  unfolding ◌>>=◌
  compose_files turns dir init_dir files id = do
    self_managed ← init_sql_self_manages_schema tools r init_dir files
    needed ← (if self_managed then compose_rabbitmq_needed r dir else ret false)
    beside turns (start_rabbit id needed) (fill_compose self_managed dir init_dir files id)

  abbrev pub compose_entries :
      List Bool → String → String → String → Outcome (List Entry) → Prog (Sys h) (Option String)
  compose_entries turns dir init_dir id (fault e) = ret (some ("SQL 디렉터리를 읽지 못했습니다: " <> e))
  compose_entries turns dir init_dir id (got es) =
      compose_files turns dir init_dir (sort (sql_names r es)) id

  -- `setupComposeDatabase`
  unfoldable pub setup_compose_database : List Bool → String → String → Prog (Sys h) (Option String)
  unfolding ◌>>=◌
  setup_compose_database turns dir id = do
    init_dir ← compose_init_sql_dir r dir
    if str_eq init_dir "" then ret (some "docker-compose/mysql/init을 찾지 못했습니다") else (do
      entries ← look (r.list_dir init_dir)
      compose_entries turns dir init_dir id entries)

  abbrev pub mysql_props : String → String → String
  mysql_props schema content =
      r.replace "(?m)^Globals\\.mysql\\.Password=.*$" ("Globals.mysql.Password=" <> root_pass) (
        r.replace "(?m)^Globals\\.mysql\\.UserName=.*$" "Globals.mysql.UserName=root" (
          r.replace "(?m)^Globals\\.mysql\\.Url=.*$"
            ("Globals.mysql.Url=jdbc:log4jdbc:mysql://127.0.0.1:3306/" <> schema)
            (r.replace "(?m)^Globals\\.DbType=.*$" "Globals.DbType=mysql" content)))

  abbrev pub with_origins : String → String → String
  with_origins origins content =
      if found (r.find origin_regexp content)
      then r.replace origin_regexp ("Globals.Allow.Origin=" <> origins) content
      else content <> "\nGlobals.Allow.Origin=" <> origins <> "\n"

  abbrev pub store_props : String → String → String → Prog (Sys h) (Option String)
  store_props props_path content id =
      and_then
        (ask (h.write_file props_path content) >>= λ failed.
          ret (prefixed "application.properties 갱신 실패: " failed))
        (say tools r id "[success] application.properties에 mysql 설정을 반영했습니다 (Globals.DbType=mysql)")

  abbrev pub read_props :
      String → String → String → String → Outcome String → Prog (Sys h) (Option String)
  read_props schema props_path origins id (fault e) =
      ret (some ("application.properties 읽기 실패: " <> e))
  read_props schema props_path origins id (got content) =
      and_then
        (look (r.stat_error props_path) >>= λ failed.
          ret (prefixed "application.properties 정보 조회 실패: " failed))
        (log id ("[info] CORS 허용 Origin 반영: " <> origins)
          >> store_props props_path (with_origins origins (mysql_props schema content)) id)

  abbrev pub boot_line : String → String
  boot_line schema =
      "[info] 부트 프로퍼티 DB 설정: db=" <> schema <> " (DATABASE/all_" <> schema <> "_*_mysql.sql 기준)"

  -- `setupBootPropsDatabase`
  unfoldable pub setup_boot_props_database :
      String → String → String → ℤ → String → Prog (Sys h) (Option String)
  unfolding ◌>>=◌
  setup_boot_props_database sql_dir schema props_path frontend_port id =
      and_then (ensure_mysql_container tools id) (do
        log id (boot_line schema)
        and_then (drop_create_schema tools schema id) (
            and_then
              (import_sql_files tools r sql_dir schema
                (("all_" <> schema <> "_ddl_mysql.sql")
                  ∷ ("all_" <> schema <> "_data_mysql.sql")
                  ∷ [])
                id)
              (do
                log id "[success] SQL 임포트 완료"
                content ← look (r.read_text props_path)
                read_props schema props_path (origins_for frontend_port) id content)))

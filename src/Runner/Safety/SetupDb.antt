-- ===== src/Runner/Safety/SetupDb.antt =====
-- The request that sets a database up keeps the invariant of the job map:
-- launcher/internal/runner/runner.go.
use egovframe_launcher.Base.{String, str_eq, Bool, false, Option, none, some, List, [], ◌∷◌}
use egovframe_launcher.Base.Outcome.{Outcome, got, fault}
use egovframe_launcher.Prog.Kept.{Kept-bind, Kept-then, Kept-if, Kept-ret}
use egovframe_launcher.Prog.Beside.{Kept-beside}
use egovframe_launcher.Runner.Host.{Host, Entry}
use egovframe_launcher.Runner.Tools.{Tools, wrapped, and_then}
use egovframe_launcher.Runner.Docker.Services.{mysql_root, create_sql, ensure_mysql_container}
use egovframe_launcher.Runner.Database.{Reader, Pattern}
use egovframe_launcher.Runner.Database.Parse.{default_compose}
use egovframe_launcher.Runner.Database.Setup.{
  say, create_schema, import_entries, import_subs, script_schema, schema_or, schema_line,
  script_done, fill_script, setup_script_database, import_ordered, fill_named, fill_project,
  kind_is_script, by_layout, setup_project_database,
}
use egovframe_launcher.Runner.Database.Served.{
  warn_rabbit, start_rabbit, add_env_user, fill_self_managed, fill_one_schema, config_line,
  fill_compose, compose_files, compose_entries, setup_compose_database,
}
use egovframe_launcher.Runner.Safety.{Safe, look-Safe, log-Safe}
use egovframe_launcher.Runner.Safety.Docker.{
  go_on-Safe, and_then-Safe, asked-Safe, ensure_mysql_container-Safe,
  ensure_rabbitmq_container-Safe, ensure_mysql_app_user-Safe, drop_create_schema-Safe,
}
use egovframe_launcher.Runner.Safety.Database.{
  find_globals-Safe, init_dir-Safe, detect-Safe, db_name-Safe, config-Safe, env_user-Safe,
  rabbit_needed-Safe, import-Safe, self_manages-Safe, update_all-Safe,
}

module _ (h : Host) (tools : Tools h) (r : Reader h) where
  pub say-Safe : (id line : String) → Safe h (say tools r id line)
  say-Safe id line = Kept-then (log-Safe h id line) (Kept-ret none)

  create-Safe : (schema : String) → Safe h (create_schema tools r schema)
  unfolding create_schema
  create-Safe schema =
      asked-Safe h (tools.combined (mysql_root ("-e" ∷ create_sql schema ∷ [])))
        (wrapped "데이터베이스 생성 실패")

  entries-Safe :
      (sql_dir schema id : String) (o : Option (List Entry))
      → Safe h (import_entries tools r sql_dir schema id o)
  entries-Safe sql_dir schema id none = Kept-ret none
  entries-Safe sql_dir schema id (some es) = import-Safe h r tools sql_dir schema _ id

  subs-Safe :
      (script_dir schema : String) (subs : List String) (id : String)
      → Safe h (import_subs tools r script_dir schema subs id)
  unfolding import_subs
  subs-Safe script_dir schema [] id = Kept-ret none
  subs-Safe script_dir schema (sub ∷ subs) id =
      let sql_dir = h.join (script_dir ∷ sub ∷ "mysql" ∷ []) in
      Kept-bind _ _ (look-Safe h (h.read_dir sql_dir)) (λ entries.
        Kept-bind _ _ (entries-Safe sql_dir schema id entries)
          (λ failed. go_on-Safe h _ failed (subs-Safe script_dir schema subs id)))

  schema-Safe : (dir : String) → Safe h (script_schema tools r dir)
  unfolding script_schema
  schema-Safe dir = Kept-bind _ _ (find_globals-Safe h r dir) (λ path.
      Kept-if (str_eq path "") _ _ (Kept-ret default_compose.db_name) (
        Kept-bind _ _ (db_name-Safe h r path)
          (λ name. Kept-ret (schema_or default_compose.db_name name))))

  fill-Safe : (dir script_dir id : String) → Safe h (fill_script tools r dir script_dir id)
  unfolding fill_script
  fill-Safe dir script_dir id = Kept-bind _ _ (schema-Safe dir) (λ schema.
      Kept-then (log-Safe h id (schema_line schema)) (
        and_then-Safe h _ _ (create-Safe schema) (
          and_then-Safe h _ _ (ensure_mysql_app_user-Safe h tools _ _)
            (and_then-Safe h _ _ (subs-Safe script_dir schema _ id) (say-Safe id script_done)))))

  script-Safe :
      (dir script_dir id : String) → Safe h (setup_script_database tools r dir script_dir id)
  unfolding setup_script_database
  script-Safe dir script_dir id =
      and_then-Safe h _ _ (ensure_mysql_container-Safe h tools id) (fill-Safe dir script_dir id)

  ordered-Safe :
      (sql_dir db_name id : String) (o : Outcome (List Entry))
      → Safe h (import_ordered tools r sql_dir db_name id o)
  ordered-Safe sql_dir db_name id (fault e) = Kept-ret _
  ordered-Safe sql_dir db_name id (got es) = import-Safe h r tools sql_dir db_name _ id

  named-Safe : (dir id : String) (o : Outcome String) → Safe h (fill_named tools r dir id o)
  named-Safe dir id (fault e) = Kept-ret _
  named-Safe dir id (got db_name) =
      let sql_dir = h.join (dir ∷ "DATABASE" ∷ "mysql" ∷ []) in
      and_then-Safe h _ _ (drop_create_schema-Safe h tools db_name id) (
        and_then-Safe h _ _ (ensure_mysql_app_user-Safe h tools "com" "com01") (
          and_then-Safe h _ _
            (Kept-bind _ _ (look-Safe h (r.list_dir sql_dir))
              (λ es. ordered-Safe sql_dir db_name id es))
            (and_then-Safe h _ _ (say-Safe id _) (update_all-Safe h r tools dir id))))

  project-Safe : (dir id : String) → Safe h (fill_project tools r dir id)
  unfolding fill_project
  project-Safe dir id = Kept-bind _ _ (find_globals-Safe h r dir) (λ path.
      Kept-if (str_eq path "") _ _ (Kept-ret (some "globals.properties를 찾지 못했습니다"))
        (Kept-bind _ _ (db_name-Safe h r path) (λ name. named-Safe dir id name)))

  fresh-Safe :
      (dir id : String)
      → Safe h (and_then (ensure_mysql_container tools id) (fill_project tools r dir id))
  fresh-Safe dir id =
      and_then-Safe h _ _ (ensure_mysql_container-Safe h tools id) (project-Safe dir id)

  layout-Safe : (dir id : String) (o : Option Pattern) → Safe h (by_layout tools r dir id o)
  layout-Safe dir id none = fresh-Safe dir id
  layout-Safe dir id (some p) =
      Kept-if (kind_is_script p.kind) _ _ (script-Safe dir p.sql_dir id) (fresh-Safe dir id)

  pub setup_project-Safe : (dir id : String) → Safe h (setup_project_database tools r dir id)
  unfolding setup_project_database
  setup_project-Safe dir id = Kept-bind _ _ (detect-Safe h r dir) (λ o. layout-Safe dir id o)

  warn_rabbit-Safe : (id : String) (o : Option String) → Safe h (warn_rabbit tools r id o)
  warn_rabbit-Safe id none = Kept-ret tt
  warn_rabbit-Safe id (some e) = log-Safe h id _

  start_rabbit-Safe : (id : String) (needed : Bool) → Safe h (start_rabbit tools r id needed)
  start_rabbit-Safe id needed =
      Kept-if needed _ _
        (Kept-bind _ _ (ensure_rabbitmq_container-Safe h tools id) (λ o. warn_rabbit-Safe id o))
        (Kept-ret tt)

  env-Safe : (id : String) (env : String × String) → Safe h (add_env_user tools r id env)
  env-Safe id (user, pass) =
      Kept-if (str_eq user "") _ _ (Kept-ret none)
        (and_then-Safe h _ _ (ensure_mysql_app_user-Safe h tools user pass) (say-Safe id _))

  self_managed-Safe :
      (init_dir : String) (files : List String) (id : String)
      → Safe h (fill_self_managed tools r init_dir files id)
  unfolding fill_self_managed
  self_managed-Safe init_dir files id = Kept-then (log-Safe h id _) (
      and_then-Safe h _ _ (import-Safe h r tools init_dir "" files id) (
        Kept-then (log-Safe h id _)
          (Kept-bind _ _ (env_user-Safe h r (r.parent init_dir)) (λ env. env-Safe id env))))

  one_schema-Safe :
      (dir init_dir : String) (files : List String) (id : String)
      → Safe h (fill_one_schema tools r dir init_dir files id)
  unfolding fill_one_schema
  one_schema-Safe dir init_dir files id = Kept-bind _ _ (config-Safe h r dir) (λ c.
      Kept-then (log-Safe h id (config_line tools r c)) (
        and_then-Safe h _ _ (drop_create_schema-Safe h tools c.db_name id) (
          and_then-Safe h _ _ (ensure_mysql_app_user-Safe h tools c.user c.pass) (
            and_then-Safe h _ _ (import-Safe h r tools init_dir c.db_name files id)
              (say-Safe id "[success] SQL 임포트 완료")))))

  fill_compose-Safe :
      (self_managed : Bool) (dir init_dir : String) (files : List String) (id : String)
      → Safe h (fill_compose tools r self_managed dir init_dir files id)
  fill_compose-Safe self_managed dir init_dir files id =
      and_then-Safe h _ _ (ensure_mysql_container-Safe h tools id) (
        Kept-if self_managed _ _ (self_managed-Safe init_dir files id)
          (one_schema-Safe dir init_dir files id))

  files-Safe :
      (turns : List Bool) (dir init_dir : String) (files : List String) (id : String)
      → Safe h (compose_files tools r turns dir init_dir files id)
  unfolding compose_files
  files-Safe turns dir init_dir files id =
      Kept-bind _ _ (self_manages-Safe h r tools init_dir files) (λ self_managed.
        Kept-bind _ _ (Kept-if self_managed _ _ (rabbit_needed-Safe h r dir) (Kept-ret false))
          (λ needed.
            Kept-beside turns (start_rabbit tools r id needed) _ (start_rabbit-Safe id needed)
              (fill_compose-Safe self_managed dir init_dir files id)))

  compose_entries-Safe :
      (turns : List Bool) (dir init_dir id : String) (o : Outcome (List Entry))
      → Safe h (compose_entries tools r turns dir init_dir id o)
  compose_entries-Safe turns dir init_dir id (fault e) = Kept-ret _
  compose_entries-Safe turns dir init_dir id (got es) = files-Safe turns dir init_dir _ id

  pub setup_compose-Safe :
      (turns : List Bool) (dir id : String) → Safe h (setup_compose_database tools r turns dir id)
  unfolding setup_compose_database
  setup_compose-Safe turns dir id = Kept-bind _ _ (init_dir-Safe h r dir) (λ init_dir.
      Kept-if (str_eq init_dir "") _ _ (Kept-ret (some "docker-compose/mysql/init을 찾지 못했습니다")) (
        Kept-bind _ _ (look-Safe h (r.list_dir init_dir))
          (λ es. compose_entries-Safe turns dir init_dir id es)))

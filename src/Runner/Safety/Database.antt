-- ===== src/Runner/Safety/Database.antt =====
-- The set-up of a database keeps the invariant of the job map:
-- launcher/internal/runner/runner.go.
use egovframe_launcher.Base.{
  ℕ, zero, suc, String, str_eq, Bool, true, false, not, any, Option, none, some, List, [], ◌∷◌,
  if◌then◌else◌,
}
use egovframe_launcher.Base.Int.{ℤ}
use egovframe_launcher.Base.Outcome.{Outcome, got, fault}
use egovframe_launcher.Prog.{Prog, ret, ◌>>=◌}
use egovframe_launcher.Prog.Kept.{Kept-bind, Kept-then, Kept-if, Kept-ret}
use egovframe_launcher.Runner.Host.{Host}
use egovframe_launcher.Runner.Sys.{Sys, look}
use egovframe_launcher.Runner.Tools.{Tools, no_error}
use egovframe_launcher.Runner.Database.{
  Reader, pattern_at, compose, war, script, is_sql, no_entries, find_globals_properties,
  sql_and_globals, compose_init_sql_dir, first_ddl, named_schema, props_of, boot_props_db_info,
  detect_served, detect_db_pattern,
}
use egovframe_launcher.Runner.Database.Parse.{
  db_name_in, config_in, env_user_in, parse_mysql_db_name, parse_compose_db_config,
  parse_compose_mysql_env_user, rabbitmq_in, names_rabbit, no_paths, service_ymls,
  compose_rabbitmq_needed, redis_in, in_file, first_config, parse_redis_config,
}
use egovframe_launcher.Runner.Database.Import.{
  import_cmd, import_error, import_text, import_sql_files, creates, init_sql_self_manages_schema,
  with_root, rewrite, rewrite_all, report, update_all_globals_properties,
}
use egovframe_launcher.Runner.Safety.{Safe, look-Safe, reads-Safe, log-Safe}
use egovframe_launcher.Runner.Safety.Docker.{go_on-Safe, asked-Safe}

module _ (h : Host) (r : Reader h) where
  -- A look at the host whose result is all that counts.
  pub seen-Safe :
      {A B : Type 0} (op : h.World → A) (g : A → B) → Safe h (look {h = h} op >>= λ a. ret (g a))
  seen-Safe op g = Kept-bind _ _ (look-Safe h op) (λ a. Kept-ret (g a))

  pub find_globals-Safe : (dir : String) → Safe h (find_globals_properties r dir)
  unfolding find_globals_properties
  find_globals-Safe dir = reads-Safe h _

  sql_and_globals-Safe : (dir sql_dir : String) → Safe h (sql_and_globals r dir sql_dir)
  unfolding sql_and_globals
  sql_and_globals-Safe dir sql_dir = Kept-bind _ _ (look-Safe h (h.read_dir sql_dir)) (λ entries.
      Kept-if (any (is_sql r) (no_entries entries)) _ _
        (Kept-bind _ _ (find_globals-Safe dir) (λ path. Kept-ret (not (str_eq path ""))))
        (Kept-ret false))

  pub init_dir-Safe : (dir : String) → Safe h (compose_init_sql_dir r dir)
  unfolding compose_init_sql_dir
  init_dir-Safe dir =
      let init_dir = h.join (dir ∷ "docker-compose" ∷ "mysql" ∷ "init" ∷ []) in
      seen-Safe (h.read_dir init_dir)
        (λ entries. if any (is_sql r) (no_entries entries) then init_dir else "")

  props-Safe : (dir schema : String) → Safe h (props_of r dir schema)
  props-Safe dir schema = Kept-bind _ _ (look-Safe h _) (λ content. Kept-ret _)

  named-Safe : (dir : String) (o : Option (List String)) → Safe h (named_schema r dir o)
  named-Safe dir none = Kept-ret none
  named-Safe dir (some m) = props-Safe dir _

  first-Safe : (dir : String) (o : Option (List String)) → Safe h (first_ddl r dir o)
  first-Safe dir none = Kept-ret none
  first-Safe dir (some []) = Kept-ret none
  first-Safe dir (some (m ∷ ms)) = named-Safe dir _

  boot-Safe : (dir : String) → Safe h (boot_props_db_info r dir)
  unfolding boot_props_db_info
  boot-Safe dir = Kept-bind _ _ (look-Safe h _) (λ matches. first-Safe dir matches)

  served-Safe : (dir : String) → Safe h (detect_served r dir)
  unfolding detect_served
  served-Safe dir = Kept-bind _ _ (init_dir-Safe dir) (λ init_dir.
      Kept-if (str_eq init_dir "") _ _ (boot-Safe dir)
        (Kept-ret (some (pattern_at compose init_dir))))

  pub detect-Safe : (dir : String) → Safe h (detect_db_pattern r dir)
  unfolding detect_db_pattern
  detect-Safe dir =
      let war_dir = h.join (dir ∷ "DATABASE" ∷ "mysql" ∷ []) in
      Kept-bind _ _ (sql_and_globals-Safe dir war_dir) (λ is_war.
        Kept-if is_war _ _ (Kept-ret (some (pattern_at war war_dir))) (
          Kept-bind _ _ (sql_and_globals-Safe dir _) (λ is_script.
            Kept-if is_script _ _
              (Kept-ret (some (pattern_at script (h.join (dir ∷ "script" ∷ [])))))
              (served-Safe dir))))

  pub db_name-Safe : (path : String) → Safe h (parse_mysql_db_name r path)
  unfolding parse_mysql_db_name
  db_name-Safe path = seen-Safe (r.read_text path) (db_name_in r)

  pub config-Safe : (dir : String) → Safe h (parse_compose_db_config r dir)
  unfolding parse_compose_db_config
  config-Safe dir = seen-Safe _ (config_in r)

  pub env_user-Safe : (dir : String) → Safe h (parse_compose_mysql_env_user r dir)
  unfolding parse_compose_mysql_env_user
  env_user-Safe dir = seen-Safe _ (env_user_in r)

  rabbit_in-Safe : (paths : List String) → Safe h (rabbitmq_in r paths)
  unfolding rabbitmq_in
  rabbit_in-Safe [] = Kept-ret false
  rabbit_in-Safe (path ∷ paths) =
      Kept-bind _ _ (look-Safe h (h.read_file path))
        (λ text. Kept-if (names_rabbit r text) _ _ (Kept-ret true) (rabbit_in-Safe paths))

  pub rabbit_needed-Safe : (dir : String) → Safe h (compose_rabbitmq_needed r dir)
  unfolding compose_rabbitmq_needed
  rabbit_needed-Safe dir =
      Kept-bind _ _ (look-Safe h (h.glob (h.join (dir ∷ "config" ∷ "*.yml" ∷ [])))) (λ config.
        Kept-bind _ _ (rabbit_in-Safe (no_paths r config)) (λ found.
          Kept-if found _ _ (Kept-ret true) (
            Kept-bind _ _ (look-Safe h (h.glob (service_ymls r dir)))
              (λ services. rabbit_in-Safe (no_paths r services)))))

  first_config-Safe :
      (rest : Prog (Sys h) (ℤ × String)) (c : ℤ × String × Bool)
      → Safe h rest
      → Safe h (first_config r rest c)
  first_config-Safe rest (port, pass, found) k = Kept-if found _ _ (Kept-ret (port, pass)) k

  redis_in-Safe : (paths : List String) → Safe h (redis_in r paths)
  unfolding redis_in
  redis_in-Safe [] = Kept-ret _
  redis_in-Safe (path ∷ paths) =
      Kept-bind _ _ (look-Safe h (h.read_file path))
        (λ text. first_config-Safe _ (in_file r text) (redis_in-Safe paths))

  pub redis-Safe : (dir : String) → Safe h (parse_redis_config r dir)
  unfolding parse_redis_config
  redis-Safe dir =
      Kept-bind _ _ (look-Safe h (h.glob (service_ymls r dir)))
        (λ matches. redis_in-Safe (no_paths r matches))

  module _ (tools : Tools h) where
    text-Safe :
        (db_name name : String) (o : Outcome String) → Safe h (import_text tools r db_name name o)
    text-Safe db_name name (fault e) = Kept-ret _
    text-Safe db_name name (got text) =
        asked-Safe h (tools.with_stdin (import_cmd db_name) text) (import_error name)

    pub import-Safe :
        (sql_dir db_name : String) (names : List String) (id : String)
        → Safe h (import_sql_files tools r sql_dir db_name names id)
    unfolding import_sql_files
    import-Safe sql_dir db_name [] id = Kept-ret none
    import-Safe sql_dir db_name (name ∷ names) id = Kept-then (log-Safe h id _) (
        Kept-bind _ _ (look-Safe h (r.read_text (h.join (sql_dir ∷ name ∷ [])))) (λ opened.
          Kept-bind _ _ (text-Safe db_name name opened)
            (λ failed. go_on-Safe h _ failed (import-Safe sql_dir db_name names id))))

    pub self_manages-Safe :
        (init_dir : String) (names : List String)
        → Safe h (init_sql_self_manages_schema tools r init_dir names)
    unfolding init_sql_self_manages_schema
    self_manages-Safe init_dir [] = Kept-ret false
    self_manages-Safe init_dir (name ∷ names) =
        Kept-bind _ _ (look-Safe h (h.read_file (h.join (init_dir ∷ name ∷ [])))) (λ text.
          Kept-if (creates tools r text) _ _ (Kept-ret true) (self_manages-Safe init_dir names))

    rewrite-Safe : (path : String) (o : Option String) → Safe h (rewrite tools r path o)
    rewrite-Safe path none = Kept-ret false
    rewrite-Safe path (some content) =
        asked-Safe h (h.write_file path (with_root tools r content)) no_error

    rewrite_all-Safe : (paths : List String) (count : ℕ) → Safe h (rewrite_all tools r paths count)
    unfolding rewrite_all
    rewrite_all-Safe [] count = Kept-ret count
    rewrite_all-Safe (path ∷ paths) count =
        Kept-bind _ _ (look-Safe h (h.read_file path)) (λ content.
          Kept-bind _ _ (rewrite-Safe path content)
            (λ written. rewrite_all-Safe paths (if written then suc count else count)))

    report-Safe : (id : String) (n : ℕ) → Safe h (report tools r id n)
    report-Safe id zero = Kept-ret tt
    report-Safe id (suc n) = log-Safe h id _

    pub update_all-Safe : (dir id : String) → Safe h (update_all_globals_properties tools r dir id)
    unfolding update_all_globals_properties
    update_all-Safe dir id = Kept-bind _ _ (look-Safe h _) (λ paths.
        Kept-bind _ _ (rewrite_all-Safe paths 0)
          (λ count. Kept-then (report-Safe id count) (Kept-ret none)))

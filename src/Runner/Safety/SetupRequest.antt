-- ===== src/Runner/Safety/SetupRequest.antt =====
-- The goroutine of a database request keeps the invariant of the job map:
-- launcher/internal/runner/runner.go.
use egovframe_launcher.Base.{String, Bool, Option, none, some, List}
use egovframe_launcher.Base.Int.{ℤ, is_pos}
use egovframe_launcher.Base.Outcome.{Outcome, got, fault}
use egovframe_launcher.Catalog.{Target, targets}
use egovframe_launcher.Prog.{Prog, ret, ◌>>=◌}
use egovframe_launcher.Prog.Kept.{Kept-bind, Kept-then, Kept-if, Kept-ret, Kept-assoc}
use egovframe_launcher.Prog.Beside.{Kept-beside}
use egovframe_launcher.Runner.Host.{Host}
use egovframe_launcher.Runner.Types.{error, building, done}
use egovframe_launcher.Runner.Sys.{Sys, log, job_for}
use egovframe_launcher.Runner.Tools.{Tools, no_error}
use egovframe_launcher.Runner.Database.{Reader, DbKind, war, script, compose, bootprops, Pattern}
use egovframe_launcher.Runner.Database.Served.{
  prefixed, store_props, read_props, origins_for, boot_line, setup_compose_database,
  setup_boot_props_database,
}
use egovframe_launcher.Runner.Database.Request.{
  conclude, warn_redis, start_redis, compose_db, compose_line, rebuild, set_up_kind, set_up,
  frontend_port, setup_db, setup_reply, request_setup_db,
}
use egovframe_launcher.Runner.Safety.{Safe, look-Safe, log-Safe, set-Safe, dir-Safe, job_for-Safe}
use egovframe_launcher.Runner.Safety.Exec.{exec_all-Safe}
use egovframe_launcher.Runner.Safety.Docker.{
  and_then-Safe, asked-Safe, ensure_mysql_container-Safe, ensure_redis_container-Safe,
  drop_create_schema-Safe,
}
use egovframe_launcher.Runner.Safety.Database.{seen-Safe, detect-Safe, redis-Safe, import-Safe}
use egovframe_launcher.Runner.Safety.SetupDb.{say-Safe, setup_project-Safe, setup_compose-Safe}
use egovframe_launcher.Runner.Api.{follow}

module _ (h : Host) (tools : Tools h) (r : Reader h) where
  store-Safe : (props_path content id : String) → Safe h (store_props tools r props_path content id)
  store-Safe props_path content id =
      and_then-Safe h _ _
        (asked-Safe h (h.write_file props_path content) (prefixed "application.properties 갱신 실패: "))
        (say-Safe h tools r id _)

  read-Safe :
      (schema props_path origins id : String) (o : Outcome String)
      → Safe h (read_props tools r schema props_path origins id o)
  read-Safe schema props_path origins id (fault e) = Kept-ret _
  read-Safe schema props_path origins id (got content) =
      and_then-Safe h _ _
        (seen-Safe h r (r.stat_error props_path) (prefixed "application.properties 정보 조회 실패: "))
        (Kept-then (log-Safe h id _) (store-Safe props_path _ id))

  boot-Safe :
      (sql_dir schema props_path : String) (port : ℤ) (id : String)
      → Safe h (setup_boot_props_database tools r sql_dir schema props_path port id)
  unfolding setup_boot_props_database
  boot-Safe sql_dir schema props_path port id =
      and_then-Safe h _ _ (ensure_mysql_container-Safe h tools id) (
        Kept-then (log-Safe h id (boot_line tools r schema)) (
          and_then-Safe h _ _ (drop_create_schema-Safe h tools schema id) (
            and_then-Safe h _ _ (import-Safe h r tools sql_dir schema _ id) (
              Kept-then (log-Safe h id "[success] SQL 임포트 완료") (
                Kept-bind _ _ (look-Safe h (r.read_text props_path))
                  (λ content. read-Safe schema props_path (origins_for port) id content))))))

  conclude-Safe :
      (t : Target) (rest : Prog (Sys h) (Unit {0})) (o : Option String)
      → Safe h rest
      → Safe h (conclude tools r t rest o)
  conclude-Safe t rest none k = Kept-then k (set-Safe h t.id done "")
  conclude-Safe t rest (some e) k = set-Safe h t.id error _

  warn_redis-Safe : (id : String) (o : Option String) → Safe h (warn_redis tools r id o)
  warn_redis-Safe id none = Kept-ret tt
  warn_redis-Safe id (some e) = log-Safe h id _

  start_redis-Safe : (id : String) (c : ℤ × String) → Safe h (start_redis tools r id c)
  start_redis-Safe id (port, pass) =
      Kept-if (is_pos port) _ _
        (Kept-bind _ _ (ensure_redis_container-Safe h tools port pass id)
          (λ o. warn_redis-Safe id o))
        (Kept-ret tt)

  compose-Safe :
      (redis_turns rabbit_turns : List Bool) (t : Target) (d : String)
      → Safe h (compose_db tools r redis_turns rabbit_turns t d)
  compose-Safe redis_turns rabbit_turns t d = Kept-bind _ _ (redis-Safe h r d) (λ redis.
      Kept-bind _ _
        (Kept-beside redis_turns (start_redis tools r t.id redis)
          (setup_compose_database tools r rabbit_turns d t.id) (start_redis-Safe t.id redis)
          (setup_compose-Safe h tools r rabbit_turns d t.id))
        (λ o. conclude-Safe t (log t.id (compose_line t)) o (log-Safe h t.id _)))

  rebuild-Safe : (t : Target) → Safe h (rebuild tools r t)
  rebuild-Safe t =
      Kept-then (Kept-then (log-Safe h t.id _) (exec_all-Safe h t t.build)) (log-Safe h t.id _)

  kind-Safe :
      (redis_turns rabbit_turns : List Bool) (t : Target) (d : String) (k : DbKind) (p : Pattern)
      → Safe h (set_up_kind tools r redis_turns rabbit_turns t d k p)
  unfolding set_up_kind
  kind-Safe redis_turns rabbit_turns t d compose p = compose-Safe redis_turns rabbit_turns t d
  kind-Safe redis_turns rabbit_turns t d bootprops p =
      Kept-bind _ _ (boot-Safe p.sql_dir p.schema p.props_path (frontend_port t.id targets) t.id)
        (λ o. conclude-Safe t _ o (log-Safe h t.id _))
  kind-Safe redis_turns rabbit_turns t d script p =
      Kept-bind _ _ (setup_project-Safe h tools r d t.id)
        (λ o. conclude-Safe t _ o (log-Safe h t.id _))
  kind-Safe redis_turns rabbit_turns t d war p =
      Kept-bind _ _ (setup_project-Safe h tools r d t.id)
        (λ o. conclude-Safe t (rebuild tools r t) o (rebuild-Safe t))

  set_up-Safe :
      (redis_turns rabbit_turns : List Bool) (t : Target) (d : String) (o : Option Pattern)
      → Safe h (set_up tools r redis_turns rabbit_turns t d o)
  set_up-Safe redis_turns rabbit_turns t d none = set-Safe h t.id error _
  set_up-Safe redis_turns rabbit_turns t d (some p) =
      Kept-then (set-Safe h t.id building _) (kind-Safe redis_turns rabbit_turns t d p.kind p)

  pub setup_db-Safe :
      (redis_turns rabbit_turns : List Bool) (t : Target)
      → Safe h (setup_db tools r redis_turns rabbit_turns t)
  unfolding setup_db
  setup_db-Safe redis_turns rabbit_turns t = Kept-bind _ _ (dir-Safe h t.id) (λ d.
      Kept-bind _ _ (look-Safe h (r.stat_error d)) (λ absent.
        Kept-if (no_error absent) _ _
          (Kept-bind _ _ (detect-Safe h r d) (λ o. set_up-Safe redis_turns rabbit_turns t d o))
          (set-Safe h t.id error "먼저 Clone 하세요")))

  reply-Safe :
      (redis_turns rabbit_turns : List Bool) (id : String) (o : Option Target)
      → Safe h (follow h (setup_reply tools r redis_turns rabbit_turns id o))
  reply-Safe redis_turns rabbit_turns id none = Kept-ret tt
  reply-Safe redis_turns rabbit_turns id (some t) = setup_db-Safe redis_turns rabbit_turns t

  pub request_setup_db-Safe :
      (redis_turns rabbit_turns : List Bool) (id : String)
      → Safe h (request_setup_db tools r redis_turns rabbit_turns id >>= follow h)
  unfolding request_setup_db
  request_setup_db-Safe redis_turns rabbit_turns id =
      Kept-assoc (job_for id) (λ o. ret (setup_reply tools r redis_turns rabbit_turns id o))
        (follow h)
        (Kept-bind _ _ (job_for-Safe h id)
          (λ o. unfold ◌>>=◌ in reply-Safe redis_turns rabbit_turns id o))

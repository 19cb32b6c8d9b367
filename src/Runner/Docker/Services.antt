-- ===== src/Runner/Docker/Services.antt =====
-- The containers that the databases of the projects run in: ensureMySQLContainer,
-- ensureRedisContainer, ensureRabbitMQContainer, ensureMySQLAppUser and dropCreateSchema of
-- launcher/internal/runner/runner.go.
use egovframe_launcher.Base.{
  String, ◌<>◌, str_eq, Bool, true, false, ◌&&◌, Option, none, List, [], ◌∷◌, ◌++◌, if◌then◌else◌,
}
use egovframe_launcher.Base.Int.{ℤ, pos}
use egovframe_launcher.Base.Text.{itoa, contains, trim_space}
use egovframe_launcher.Prog.{Prog, ret, ◌>>=◌, ◌>>◌, skip}
use egovframe_launcher.Runner.Host.{Host, Cmd}
use egovframe_launcher.Runner.Sys.{Sys, ask, log}
use egovframe_launcher.Runner.Tools.{Tools, no_error, wrapped, go_on}
use egovframe_launcher.Runner.Docker.{ContainerSpec, docker, ensure_docker_container}

abbrev pub mysql_container : String
mysql_container = "egov-launcher-mysql"

abbrev pub redis_container : String
redis_container = "egov-launcher-redis"

abbrev pub rabbit_container : String
rabbit_container = "egov-launcher-rabbitmq"

abbrev pub root_pass : String
root_pass = "egovlauncher"

abbrev pub mysql_port : ℤ
mysql_port = pos 3306

abbrev mysql_image : String
mysql_image = "mysql:8.0.46@sha256:7dcddc01f13bab2f15cde676d44d01f61fc9f99fe7785e86196dfc07d358ae2b"

abbrev rabbitmq_image : String
rabbitmq_image =
    "rabbitmq:3.13.7@sha256:87178a0ee3e2f52980ba356d38646ed1056705ff2d5ff281f8965456eaa0c1e3"

-- `docker exec` of the MySQL client as root, with further arguments.
abbrev pub mysql_root : List String → Cmd
mysql_root args =
    docker
      ("exec" ∷ "-e" ∷ ("MYSQL_PWD=" <> root_pass) ∷ mysql_container ∷ "mysql" ∷ "-uroot" ∷ args)

abbrev mysql_run_args : List String
mysql_run_args =
    "run"
    ∷ "-d"
    ∷ "--name"
    ∷ mysql_container
    ∷ "-e"
    ∷ ("MYSQL_ROOT_PASSWORD=" <> root_pass)
    ∷ "-p"
    ∷ (itoa mysql_port <> ":3306")
    ∷ mysql_image
    ∷ "--lower-case-table-names=1"
    ∷ []

abbrev when_set : String → List String → List String
when_set password args = if str_eq password "" then [] else args

abbrev redis_run_args : ℤ → String → List String
redis_run_args port password =
    ("run"
      ∷ "-d"
      ∷ "--name"
      ∷ redis_container
      ∷ "-p"
      ∷ (itoa port <> ":6379")
      ∷ "redis:7-alpine"
      ∷ "redis-server"
      ∷ [])
    ++ when_set password ("--requirepass" ∷ password ∷ [])

abbrev pub redis_ping_args : String → List String
redis_ping_args password =
    ("exec" ∷ redis_container ∷ "redis-cli" ∷ [])
    ++ when_set password ("-a" ∷ password ∷ "--no-auth-warning" ∷ [])
    ++ "ping" ∷ []

abbrev pub rabbit_ping_args : List String
rabbit_ping_args = "exec" ∷ rabbit_container ∷ "rabbitmq-diagnostics" ∷ "-q" ∷ "ping" ∷ []

-- The command line that writes the Erlang cookie before the image's own entry point.
abbrev rabbit_entry : String
rabbit_entry =
    "echo \"egovframe_secret_rabbitmq_cookie_12345\" > /var/lib/rabbitmq/.erlang.cookie && "
    <> "chown rabbitmq:rabbitmq /var/lib/rabbitmq/.erlang.cookie && "
    <> "chmod 600 /var/lib/rabbitmq/.erlang.cookie && "
    <> "exec docker-entrypoint.sh rabbitmq-server"

abbrev rabbit_run_args : List String
rabbit_run_args =
    "run" ∷ "-d" ∷ "--name" ∷ rabbit_container ∷ "-p" ∷ "5672:5672" ∷ "--entrypoint" ∷ "sh"
    ∷ rabbitmq_image ∷ "-c" ∷ rabbit_entry ∷ []

abbrev user_stmt : String → String → String → String
user_stmt user pass at =
    "CREATE USER IF NOT EXISTS '" <> user <> "'@'" <> at <> "' IDENTIFIED BY '" <> pass
    <> "'; ALTER USER '" <> user <> "'@'" <> at <> "' IDENTIFIED BY '" <> pass <> "'; "

abbrev grant_stmt : String → String → String
grant_stmt user at = "GRANT ALL PRIVILEGES ON *.* TO '" <> user <> "'@'" <> at <> "'; "

abbrev each_host : (String → String) → String
each_host stmt = stmt "%" <> stmt "localhost" <> stmt "192.168.65.1"

abbrev pub app_user_sql : String → String → String
app_user_sql user pass =
    each_host (user_stmt user pass) <> each_host (grant_stmt user) <> "FLUSH PRIVILEGES;"

abbrev pub drop_sql : String → String
drop_sql db_name = "DROP DATABASE IF EXISTS `" <> db_name <> "`"

abbrev pub create_sql : String → String
create_sql db_name =
    "CREATE DATABASE IF NOT EXISTS `" <> db_name
    <> "` CHARACTER SET utf8mb4 COLLATE utf8mb4_unicode_ci;"

abbrev pub case_warning : String
case_warning =
    "[warn] 기존 MySQL 컨테이너가 테이블명 대소문자를 구분합니다(lower_case_table_names=0) — 공통컴포넌트 등 일부 앱의 소문자 SQL이 실패할 수 있습니다. `docker rm -f "
    <> mysql_container <> "` 후 각 타깃의 DB 설정을 다시 실행하면 새 설정으로 재생성됩니다"

module _ {h : Host} (tools : Tools h) where
  -- The authenticated query that tells that MySQL is ready.
  abbrev mysql_ready : Prog (Sys h) Bool
  mysql_ready =
      ask (tools.run_cmd (mysql_root ("-e" ∷ "SELECT 1" ∷ []))) >>= λ err. ret (no_error err)

  unfoldable pub mysql_spec : ContainerSpec h
  mysql_spec = record {
    name = mysql_container;
    display_name = "MySQL";
    image = mysql_image;
    run_args = mysql_run_args;
    ready = mysql_ready;
    timeout = 120000;
    poll_interval = 2000;
    not_ready_err = "MySQL이 120초 내에 준비되지 않았습니다";
    host_port = mysql_port;
    recreate_on_crash = false;
    after_start = none;
  }

  -- The warning about a container that tells the case of table names apart.
  unfoldable pub warn_table_case : String → Prog (Sys h) (Option String)
  unfolding ◌>>=◌
  warn_table_case id = do
    mode ← ask (tools.stdout (mysql_root ("-N" ∷ "-e" ∷ "SELECT @@lower_case_table_names" ∷ [])))
    if str_eq (trim_space mode.0) "0" then log id case_warning else skip
    ret none

  unfoldable pub ensure_mysql_container : String → Prog (Sys h) (Option String)
  unfolding ◌>>=◌
  ensure_mysql_container id =
      ensure_docker_container tools id mysql_spec >>= go_on (warn_table_case id)

  abbrev redis_ready : String → Prog (Sys h) Bool
  redis_ready password = ask (tools.combined (docker (redis_ping_args password))) >>= λ said.
      ret (no_error said.1 && contains said.0 "PONG")

  unfoldable pub redis_spec : ℤ → String → ContainerSpec h
  redis_spec port password = record {
    name = redis_container;
    display_name = "Redis";
    image = "redis:7-alpine";
    run_args = redis_run_args port password;
    ready = redis_ready password;
    timeout = 60000;
    poll_interval = 1000;
    not_ready_err = "Redis가 60초 내에 준비되지 않았습니다";
    host_port = port;
    recreate_on_crash = true;
    after_start = none;
  }

  unfoldable pub ensure_redis_container : ℤ → String → String → Prog (Sys h) (Option String)
  ensure_redis_container port password id =
      ensure_docker_container tools id (redis_spec port password)

  abbrev rabbit_ready : Prog (Sys h) Bool
  rabbit_ready = ask (tools.run_cmd (docker rabbit_ping_args)) >>= λ err. ret (no_error err)

  unfoldable pub rabbit_spec : ContainerSpec h
  rabbit_spec = record {
    name = rabbit_container;
    display_name = "RabbitMQ";
    image = rabbitmq_image;
    run_args = rabbit_run_args;
    ready = rabbit_ready;
    timeout = 120000;
    poll_interval = 2000;
    not_ready_err = "RabbitMQ가 120초 내에 준비되지 않았습니다";
    host_port = pos 5672;
    recreate_on_crash = true;
    after_start = none;
  }

  unfoldable pub ensure_rabbitmq_container : String → Prog (Sys h) (Option String)
  ensure_rabbitmq_container id = ensure_docker_container tools id rabbit_spec

  unfoldable pub ensure_mysql_app_user : String → String → Prog (Sys h) (Option String)
  unfolding ◌>>=◌
  ensure_mysql_app_user user pass = do
    made ← ask (tools.combined (mysql_root ("-e" ∷ app_user_sql user pass ∷ [])))
    ret (wrapped "MySQL 사용자 생성 실패" made)

  unfoldable pub drop_create_schema : String → String → Prog (Sys h) (Option String)
  unfolding ◌>>=◌
  drop_create_schema db_name id = do
    log id ("[info] 데이터베이스 '" <> db_name <> "' 초기화 및 깨끗하게 재생성")
    _ ← ask (tools.combined (mysql_root ("-e" ∷ drop_sql db_name ∷ [])))
    made ← ask (tools.combined (mysql_root ("-e" ∷ create_sql db_name ∷ [])))
    ret (wrapped "데이터베이스 생성 실패" made)

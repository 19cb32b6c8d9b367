-- ===== src/Runner/Database/Parse.antt =====
-- What a project's files say of its database, its message broker and its session store:
-- parseMySQLDBName, parseComposeDBConfig, parseComposeMySQLEnvUser, composeRabbitMQNeeded,
-- extractRedisBlock and parseRedisConfig of launcher/internal/runner/runner.go.
use egovframe_launcher.Base.{
  ℕ, suc, String, ◌<>◌, str_eq, leb, ◌==◌, Bool, true, false, ◌||◌, Option, none, some, List, [],
  ◌∷◌, if◌then◌else◌,
}
use egovframe_launcher.Base.Atoi.{atoi}
use egovframe_launcher.Base.Int.{ℤ, pos, is_pos}
use egovframe_launcher.Base.Outcome.{Outcome, got, fault}
use egovframe_launcher.Base.Text.{contains, trim_space}
use Prim.Native.String.{len}
use Prim.Native.Char.{code}
use egovframe_launcher.Prog.{Prog, ret, ◌>>=◌}
use egovframe_launcher.Runner.Host.{Host}
use egovframe_launcher.Runner.Sys.{Sys, look}
use egovframe_launcher.Runner.Database.{Reader, group}

-- `strings.Split(s, "\n")`
abbrev pub put_char : String → List String → List String
put_char c [] = c ∷ []
put_char c (l ∷ ls) = (c <> l) ∷ ls

unfoldable pub split_lines : String → List String
split_lines String.[] = "" ∷ []
split_lines (String.◌∷◌ c s) =
    let rest = split_lines s in if code c == 10 then "" ∷ rest else put_char (String.◌∷◌ c "") rest

-- The blanks and tabs at the start of a line.
unfoldable pub indent_of : String → ℕ
indent_of String.[] = 0
indent_of (String.◌∷◌ c s) =
    let rest = indent_of s in if code c == 32 || code c == 9 then suc rest else 0

abbrev pub or_else : String → Option (List String) → String
or_else other none = other
or_else other (some m) = group 1 m

abbrev pub url_regexp : String
url_regexp = "(?m)^Globals\\.(?:[A-Za-z0-9_]+\\.)?Url\\s*=\\s*jdbc:.*mysql://[^/]+/([A-Za-z0-9_]+)"

abbrev pub db_name_of : Option (List String) → Outcome String
db_name_of none = fault "globals.properties에서 MySQL DB 이름을 찾지 못했습니다"
db_name_of (some m) = got (group 1 m)

-- The schema, the user and the password of an MSA project, and their defaults.
pub record DbConfig : Type 0 where
  pub db_name : String
  pub user : String
  pub pass : String

abbrev pub default_compose : DbConfig
default_compose = record { db_name = "com"; user = "com"; pass = "com01" }

abbrev pub text_or_none : Outcome String → Option String
text_or_none (fault e) = none
text_or_none (got s) = some s

module _ {h : Host} (r : Reader h) where
  abbrev pub db_name_in : Outcome String → Outcome String
  db_name_in (fault e) = fault e
  db_name_in (got data_) = db_name_of (r.find url_regexp data_)

  -- `parseMySQLDBName`
  unfoldable pub parse_mysql_db_name : String → Prog (Sys h) (Outcome String)
  unfolding ◌>>=◌
  parse_mysql_db_name path = do text ← look (r.read_text path); ret (db_name_in text)

  abbrev pub config_in : Option String → DbConfig
  config_in none = default_compose
  config_in (some text) = record {
    db_name =
        or_else default_compose.db_name (r.find "url:\\s*jdbc:mysql://[^/]+/([A-Za-z0-9_]+)" text);
    user = or_else default_compose.user (r.find "username:\\s*(\\S+)" text);
    pass = or_else default_compose.pass (r.find "password:\\s*(\\S+)" text);
  }

  -- `parseComposeDBConfig`
  unfoldable pub parse_compose_db_config : String → Prog (Sys h) DbConfig
  unfolding ◌>>=◌
  parse_compose_db_config dir = do
    text ← look (
        h.read_file (
          h.join (
            dir ∷ "ConfigServer" ∷ "src" ∷ "main" ∷ "resources" ∷ "config" ∷ "application-local.yml"
            ∷ [])))
    ret (config_in text)

  abbrev pub env_user_in : Option String → String × String
  env_user_in none = ("", "")
  env_user_in (some text) = (
    or_else "" (r.find "(?im)^\\s*MYSQL_USER:\\s*(\\S+)\\s*$" text),
    or_else "" (r.find "(?im)^\\s*MYSQL_PASSWORD:\\s*(\\S+)\\s*$" text),
  )

  -- `parseComposeMySQLEnvUser`
  unfoldable pub parse_compose_mysql_env_user : String → Prog (Sys h) (String × String)
  unfolding ◌>>=◌
  parse_compose_mysql_env_user dir = do
    text ← look (h.read_file (h.join (dir ∷ "docker-compose.yml" ∷ [])))
    ret (env_user_in text)

  -- A line below `redis:`; the values found so far go along.
  abbrev pub take_port : Option (List String) → ℤ → ℤ
  take_port none port = port
  take_port (some m) port = (atoi (group 1 m)).0

  -- The lines of one block, up to the first that is not indented further.
  unfoldable pub redis_block : ℕ → List String → ℤ → String → ℤ × String
  redis_block base [] port pass = (port, pass)
  redis_block base (sub ∷ subs) port pass =
      let skipped = redis_block base subs port pass in
      let taken =
        redis_block base subs (take_port (r.find "^\\s*port:\\s*(\\d+)\\s*$" sub) port)
          (or_else pass (r.find "^\\s*password:\\s*(\\S+)\\s*$" sub)) in
      if str_eq (trim_space sub) ""
      then skipped
      else if leb (indent_of sub) base
      then (port, pass)
      else taken

  abbrev pub settled : ℤ × String → (ℤ × String → ℤ × String × Bool) → ℤ × String × Bool
  settled (port, pass) rest = if is_pos port then (port, pass, true) else rest (port, pass)

  abbrev pub redis_key : String → Option (List String)
  redis_key line = r.find "^(\\s*)redis:\\s*$" line

  -- The loop over the lines: a block without a port leaves its password for the next.
  unfoldable pub redis_from : List String → ℤ → String → ℤ × String × Bool
  unfolding redis_block
  redis_from [] port pass = (pos 0, "", false)
  redis_from (line ∷ lines) port pass = elim (redis_key line) [
    | none ↦ redis_from lines port pass
    | some m ↦
        settled (redis_block (len (group 1 m)) lines port pass) (λ (p, pw). redis_from lines p pw)
  ]

  unfoldable pub extract_redis_block : String → ℤ × String × Bool
  extract_redis_block content = redis_from (split_lines content) (pos 0) ""

  abbrev pub in_file : Option String → ℤ × String × Bool
  in_file none = (pos 0, "", false)
  in_file (some text) = extract_redis_block text

  abbrev pub no_paths : Option (List String) → List String
  no_paths none = []
  no_paths (some ms) = ms

  abbrev pub first_config :
      Prog (Sys h) (ℤ × String) → ℤ × String × Bool → Prog (Sys h) (ℤ × String)
  first_config rest (port, pass, found) = if found then ret (port, pass) else rest

  unfoldable pub redis_in : List String → Prog (Sys h) (ℤ × String)
  unfolding ◌>>=◌
  redis_in [] = ret (pos 0, "")
  redis_in (path ∷ paths) = do
    text ← look (h.read_file path)
    first_config (redis_in paths) (in_file text)

  abbrev pub service_ymls : String → String
  service_ymls dir = h.join (dir ∷ "*" ∷ "src" ∷ "main" ∷ "resources" ∷ "application.yml" ∷ [])

  -- `parseRedisConfig`
  unfoldable pub parse_redis_config : String → Prog (Sys h) (ℤ × String)
  unfolding ◌>>=◌
  parse_redis_config dir = do
    matches ← look (h.glob (service_ymls dir))
    redis_in (no_paths matches)

  abbrev pub names_rabbit : Option String → Bool
  names_rabbit none = false
  names_rabbit (some text) = contains text "rabbitmq:"

  unfoldable pub rabbitmq_in : List String → Prog (Sys h) Bool
  unfolding ◌>>=◌
  rabbitmq_in [] = ret false
  rabbitmq_in (path ∷ paths) = do
    text ← look (h.read_file path)
    if names_rabbit text then ret true else rabbitmq_in paths

  -- `composeRabbitMQNeeded`
  unfoldable pub compose_rabbitmq_needed : String → Prog (Sys h) Bool
  unfolding ◌>>=◌
  compose_rabbitmq_needed dir = do
    config ← look (h.glob (h.join (dir ∷ "config" ∷ "*.yml" ∷ [])))
    found ← rabbitmq_in (no_paths config)
    if found
        then ret true
        else (do services ← look (h.glob (service_ymls dir)); rabbitmq_in (no_paths services))

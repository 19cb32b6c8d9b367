-- ===== src/Runner/Database/Shared.antt =====
-- What keeps the schema that the script layout shares with other projects:
-- launcher/internal/runner/runner.go.
use egovframe_launcher.Base.{
  String, ◌<>◌, str_eq, ◌==◌, not, ◌||◌, ◌≡◌, Bool, true, false, arith, Option, none, some, List,
  [], ◌∷◌,
}
use Prim.Native.Char.{code}
use text.Mathlib.TextLemmas.{cons-append}
use egovframe_launcher.Base.Outcome.{Outcome, got, fault}
use egovframe_launcher.Prog.{Prog}
use egovframe_launcher.Prog.Kept.{Kept-bind, Kept-then, Kept-if, Kept-ret, Kept-step}
use egovframe_launcher.Runner.Host.{Host, Entry}
use egovframe_launcher.Runner.Sys.{Sys}
use egovframe_launcher.Runner.Tools.{Tools, wrapped, and_then}
use egovframe_launcher.Runner.Docker.Services.{mysql_root, create_sql, ensure_mysql_app_user}
use egovframe_launcher.Runner.Docker.Data.{
  Guarded, begins, is_harmless, Keeps, log-Keeps, look-Keeps, ask-Keeps, combined-Keeps,
  go_on-Keeps, ensure_mysql_container-Keeps,
}
use egovframe_launcher.Runner.Database.{Reader, find_globals_properties}
use egovframe_launcher.Runner.Database.Parse.{db_name_in, parse_mysql_db_name, default_compose}
use egovframe_launcher.Runner.Database.Import.{
  import_cmd, import_text, import_error, import_sql_files,
}
use egovframe_launcher.Runner.Database.Setup.{
  create_schema, schema_or, schema_line, script_done, import_entries, import_subs, script_schema,
  fill_script, setup_script_database, say,
}

-- The texts differ within the shorter one.
abbrev differs : String → String → Bool
differs String.[] s = false
differs (String.◌∷◌ c p) String.[] = false
differs (String.◌∷◌ c p) (String.◌∷◌ d s) = not (code c == code d) || differs p s

begins-append : (p s t : String) → differs p s ≡ true → begins p (s <> t) ≡ false
begins-append String.[] s t d = ground arith
begins-append (String.◌∷◌ c p) String.[] t d = ground arith
begins-append (String.◌∷◌ c p) (String.◌∷◌ e s) t d =
    rw (cons-append e s t) (ground (arith, begins-append p s t))

create-harmless :
    (schema : String) → is_harmless (mysql_root ("-e" ∷ create_sql schema ∷ [])) ≡ true
create-harmless schema =
    let other =
      begins-append "DROP" "CREATE DATABASE IF NOT EXISTS `"
        (schema <> "` CHARACTER SET utf8mb4 COLLATE utf8mb4_unicode_ci;") (ground arith) in
    ground (arith, other)

import-harmless : (db_name : String) → is_harmless (import_cmd db_name) ≡ true
import-harmless db_name = ground arith

module _ (h : Host) (tools : Tools h) (r : Reader h) (P : h.World → Type 0)
    (g : Guarded h tools P) where
  abbrev Stays : {A : Type 0} → Prog (Sys h) A → Type 0
  Stays m = Keeps h tools P m

  say-Stays : (id line : String) → Stays (say tools r id line)
  say-Stays id line = Kept-bind _ _ (log-Keeps h tools P g id line) (λ _. Kept-ret none)

  create-Stays : (schema : String) → Stays (create_schema tools r schema)
  unfolding create_schema
  create-Stays schema =
      Kept-bind _ _ (combined-Keeps h tools P g _ (create-harmless schema))
        (λ made. Kept-ret (wrapped "데이터베이스 생성 실패" made))

  user-Stays : Stays (ensure_mysql_app_user tools default_compose.user default_compose.pass)
  unfolding ensure_mysql_app_user
  user-Stays =
      Kept-bind _ _ (combined-Keeps h tools P g _ (ground arith))
        (λ made. Kept-ret (wrapped "MySQL 사용자 생성 실패" made))

  text-Stays :
      (db_name name : String) (o : Outcome String) → Stays (import_text tools r db_name name o)
  text-Stays db_name name (fault e) = Kept-ret _
  text-Stays db_name name (got text) =
      Kept-bind _ _
        (ask-Keeps h tools P g _ (λ w p. g.with_stdin _ text w (import-harmless db_name) p))
        (λ done_. Kept-ret (import_error name done_))

  import-Stays :
      (sql_dir db_name : String) (names : List String) (id : String)
      → Stays (import_sql_files tools r sql_dir db_name names id)
  unfolding import_sql_files
  import-Stays sql_dir db_name [] id = Kept-ret none
  import-Stays sql_dir db_name (name ∷ names) id = Kept-then (log-Keeps h tools P g id _) (
      Kept-bind _ _ (look-Keeps h tools P g _) (λ opened.
        Kept-bind _ _ (text-Stays db_name name opened)
          (λ failed. go_on-Keeps h tools P g _ failed (import-Stays sql_dir db_name names id))))

  entries-Stays :
      (sql_dir schema id : String) (o : Option (List Entry))
      → Stays (import_entries tools r sql_dir schema id o)
  entries-Stays sql_dir schema id none = Kept-ret none
  entries-Stays sql_dir schema id (some es) = import-Stays sql_dir schema _ id

  subs-Stays :
      (script_dir schema : String) (subs : List String) (id : String)
      → Stays (import_subs tools r script_dir schema subs id)
  unfolding import_subs
  subs-Stays script_dir schema [] id = Kept-ret none
  subs-Stays script_dir schema (sub ∷ subs) id =
      let sql_dir = h.join (script_dir ∷ sub ∷ "mysql" ∷ []) in
      Kept-bind _ _ (look-Keeps h tools P g (h.read_dir sql_dir)) (λ entries.
        Kept-bind _ _ (entries-Stays sql_dir schema id entries)
          (λ failed. go_on-Keeps h tools P g _ failed (subs-Stays script_dir schema subs id)))

  find-Stays : (dir : String) → Stays (find_globals_properties r dir)
  unfolding find_globals_properties
  find-Stays dir = Kept-step _ _ (λ s p. p) (λ s p. Kept-ret _)

  name-Stays : (path : String) → Stays (parse_mysql_db_name r path)
  unfolding parse_mysql_db_name
  name-Stays path =
      Kept-bind _ _ (look-Keeps h tools P g (r.read_text path))
        (λ text. Kept-ret (db_name_in r text))

  schema-Stays : (dir : String) → Stays (script_schema tools r dir)
  unfolding script_schema
  schema-Stays dir = Kept-bind _ _ (find-Stays dir) (λ path.
      Kept-if (str_eq path "") _ _ (Kept-ret default_compose.db_name) (
        Kept-bind _ _ (name-Stays path)
          (λ name. Kept-ret (schema_or default_compose.db_name name))))

  and_then-Stays :
      (first next : Prog (Sys h) (Option String))
      → Stays first
      → Stays next
      → Stays (and_then first next)
  and_then-Stays first next kf kn = Kept-bind first _ kf (λ o. go_on-Keeps h tools P g next o kn)

  fill-Stays : (dir script_dir id : String) → Stays (fill_script tools r dir script_dir id)
  unfolding fill_script
  fill-Stays dir script_dir id = Kept-bind _ _ (schema-Stays dir) (λ schema.
      Kept-then (log-Keeps h tools P g id (schema_line schema)) (
        and_then-Stays _ _ (create-Stays schema) (
          and_then-Stays _ _ user-Stays
            (and_then-Stays _ _ (subs-Stays script_dir schema _ id) (say-Stays id script_done)))))

  -- Whatever other goroutines do between its steps, setupScriptDatabase keeps each property of the
  -- world that dials, sleeps, the import of a script and the Docker commands other than `docker rm`
  -- and an SQL `DROP` keep, if in the worlds of the property Docker does not show the MySQL
  -- container as created and never started: neither the container nor a schema is dropped.
  pub setup_script_database-Stays :
      (dir script_dir id : String) → Stays (setup_script_database tools r dir script_dir id)
  unfolding setup_script_database
  setup_script_database-Stays dir script_dir id =
      and_then-Stays _ _ (ensure_mysql_container-Keeps h tools P g id)
        (fill-Stays dir script_dir id)

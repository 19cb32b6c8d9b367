-- ===== src/Runner/Database/Import.antt =====
-- The SQL files of a project and their import: importSQLFiles, initSQLSelfManagesSchema,
-- updateAllGlobalsProperties and the order of the files in setupProjectDatabase of
-- launcher/internal/runner/runner.go.
use egovframe_launcher.Base.{
  ℕ, zero, suc, String, ◌<>◌, str_eq, Bool, true, false, Option, none, some, List, [], ◌∷◌, ◌++◌,
  map, keep, if◌then◌else◌,
}
use egovframe_launcher.Base.Int.{pos}
use egovframe_launcher.Base.Outcome.{Outcome, got, fault}
use egovframe_launcher.Base.Sort.{sort}
use egovframe_launcher.Base.Text.{contains, itoa, trim_space}
use egovframe_launcher.Prog.{Prog, ret, ◌>>=◌, ◌>>◌, skip}
use egovframe_launcher.Runner.Host.{Host, Entry, Cmd}
use egovframe_launcher.Runner.Sys.{Sys, look, ask, log}
use egovframe_launcher.Runner.Tools.{Tools, go_on, no_error}
use egovframe_launcher.Runner.Docker.{docker}
use egovframe_launcher.Runner.Docker.Services.{mysql_container, root_pass}
use egovframe_launcher.Runner.Database.{
  Reader, Tree, Forest, file, folder, unread, end, more, is_sql,
}

-- The names of the SQL files among the entries.
abbrev pub sql_names : {h : Host} → Reader h → List Entry → List String
sql_names r es = map (λ e. e.name) (keep (is_sql r) es)

pub record Groups : Type 0 where
  pub ddl : List String
  pub data_ : List String
  pub other : List String

abbrev pub add_name : (String → String) → String → Groups → Groups
add_name to_lower name g =
    if contains (to_lower name) "ddl"
    then record g { ddl = name ∷ g.ddl }
    else if contains (to_lower name) "data"
    then record g { data_ = name ∷ g.data_ }
    else record g { other = name ∷ g.other }

unfoldable pub grouped : (String → String) → List String → Groups
grouped to_lower [] = record { ddl = []; data_ = []; other = [] }
grouped to_lower (name ∷ names) = add_name to_lower name (grouped to_lower names)

-- Tables first, data last, each group by name.
abbrev pub import_order : (String → String) → List String → List String
import_order to_lower names =
    let g = grouped to_lower names in sort g.ddl ++ sort g.other ++ sort g.data_

abbrev pub found : Option (List String) → Bool
found none = false
found (some m) = true

abbrev pub import_cmd : String → Cmd
import_cmd db_name = docker (
    ("exec"
      ∷ "-e"
      ∷ ("MYSQL_PWD=" <> root_pass)
      ∷ "-i"
      ∷ mysql_container
      ∷ "mysql"
      ∷ "-uroot"
      ∷ "--default-character-set=utf8mb4"
      ∷ "-f"
      ∷ [])
    ++ (if str_eq db_name "" then [] else db_name ∷ []))

-- An error that says that something is there already is none.
abbrev pub import_error : String → String × Option String → Option String
import_error name (out, none) = none
import_error name (out, some e) =
    if contains (trim_space out) "already exists"
    then none
    else some (name <> " 임포트 실패: " <> e <> " (" <> trim_space out <> ")")

-- The files named globals.properties, which are all that this walk looks at.
unfoldable mutual
  pub all_globals : Tree → List String
  all_globals (file path name) = if str_eq name "globals.properties" then path ∷ [] else []
  all_globals (folder path name children) = forest_globals children
  all_globals unread = []

  pub forest_globals : Forest → List String
  forest_globals end = []
  forest_globals (more t ts) = all_globals t ++ forest_globals ts

module _ {h : Host} (tools : Tools h) (r : Reader h) where
  abbrev pub import_text : String → String → Outcome String → Prog (Sys h) (Option String)
  import_text db_name name (fault e) = ret (some (name <> " 열기 실패: " <> e))
  import_text db_name name (got text) =
      ask (tools.with_stdin (import_cmd db_name) text) >>= λ done_. ret (import_error name done_)

  -- `importSQLFiles`; the first error ends it.
  unfoldable pub import_sql_files :
      String → String → List String → String → Prog (Sys h) (Option String)
  unfolding ◌>>=◌
  import_sql_files sql_dir db_name [] id = ret none
  import_sql_files sql_dir db_name (name ∷ names) id = do
    log id ("[info] SQL 임포트: " <> name)
    opened ← look (r.read_text (h.join (sql_dir ∷ name ∷ [])))
    failed ← import_text db_name name opened
    go_on (import_sql_files sql_dir db_name names id) failed

  abbrev pub creates : Option String → Bool
  creates none = false
  creates (some text) = found (r.find "(?im)^\\s*CREATE\\s+DATABASE\\b" text)

  -- `initSQLSelfManagesSchema`
  unfoldable pub init_sql_self_manages_schema : String → List String → Prog (Sys h) Bool
  unfolding ◌>>=◌
  init_sql_self_manages_schema init_dir [] = ret false
  init_sql_self_manages_schema init_dir (name ∷ names) = do
    text ← look (h.read_file (h.join (init_dir ∷ name ∷ [])))
    if creates text then ret true else init_sql_self_manages_schema init_dir names

  abbrev pub with_root : String → String
  with_root content =
      r.replace "(?m)^(Globals\\.(?:[A-Za-z0-9_]+\\.)?Password\\s*=).*$" ("${1} " <> root_pass)
        (r.replace "(?m)^(Globals\\.(?:[A-Za-z0-9_]+\\.)?UserName\\s*=).*$" "${1} root" content)

  abbrev pub rewrite : String → Option String → Prog (Sys h) Bool
  rewrite path none = ret false
  rewrite path (some content) =
      ask (h.write_file path (with_root content)) >>= λ failed. ret (no_error failed)

  unfoldable pub rewrite_all : List String → ℕ → Prog (Sys h) ℕ
  unfolding ◌>>=◌
  rewrite_all [] count = ret count
  rewrite_all (path ∷ paths) count = do
    content ← look (h.read_file path)
    written ← rewrite path content
    rewrite_all paths (if written then suc count else count)

  abbrev pub report : String → ℕ → Prog (Sys h) (Unit {0})
  report id zero = skip
  report id (suc n) =
      log id ("[success] " <> itoa (pos (suc n)) <> "개의 globals.properties에 DB 접속 정보(root)를 반영했습니다")

  -- `updateAllGlobalsProperties`, whose error is always nil; the walk is one look.
  unfoldable pub update_all_globals_properties : String → String → Prog (Sys h) (Option String)
  unfolding ◌>>=◌
  update_all_globals_properties dir id = do
    paths ← look (λ w. all_globals (r.tree dir w))
    count ← rewrite_all paths 0
    report id count
    ret none

-- ===== src/Runner/Database.antt =====
-- Which database a cloned project needs: findGlobalsProperties, detectDBPattern, needsDatabase,
-- composeInitSQLDir, bootPropsDBInfo and NeedsDatabase of launcher/internal/runner/runner.go.
pub mod Parse
pub mod Import
pub mod Setup
pub mod Shared
pub mod Order
pub mod Cache
pub mod Served
pub mod Request
pub mod Tests
use egovframe_launcher.Base.{
  ℕ, zero, suc, String, ◌<>◌, str_eq, Bool, true, false, not, ◌&&◌, ◌||◌, Option, none, some, List,
  [], ◌∷◌, any, get_elem?, if◌then◌else◌,
}
use egovframe_launcher.Base.Dict.{lookup, insert}
use egovframe_launcher.Base.Outcome.{Outcome}
use egovframe_launcher.Base.Text.{contains, ends_with}
use egovframe_launcher.Prog.{Prog, ret, step, ◌>>=◌, ◌>>◌, change, reads}
use egovframe_launcher.Runner.Host.{Host, Entry}
use egovframe_launcher.Runner.Sys.{Sys, look}

-- What `filepath.Walk` meets, with the path of each file and folder and its last element, and a
-- place where the walk has an error.
mutual
  pub data Tree : Type 0 where
    file : String → String → Tree
    folder : String → String → Forest → Tree
    unread : Tree

  pub data Forest : Type 0 where
    end : Forest
    more : Tree → Forest → Forest

-- Files with the texts of their errors, and the packages filepath, strings and regexp.
pub record Reader (h : Host) : Type 0 where
  pub tree : String → h.World → Tree
  pub read_text : String → h.World → Outcome String
  pub list_dir : String → h.World → Outcome (List Entry)
  -- `os.Stat`, with its error.
  pub stat_error : String → h.World → Option String
  pub base : String → String
  pub parent : String → String  -- `filepath.Dir`
  pub to_lower : String → String
  -- `FindStringSubmatch` and `ReplaceAllString`, with the expression as it is written.
  pub find : String → String → Option (List String)
  pub replace : String → String → String → String

-- Where the walk goes on with a folder.
abbrev pub skipped : String → Bool
skipped name = str_eq name "target" || str_eq name ".git" || str_eq name "node_modules"

abbrev pub or_first : String → String → String
or_first found other = if str_eq found "" then other else found

unfoldable mutual
  pub find_globals : Tree → String
  find_globals (file path name) = if str_eq name "globals.properties" then path else ""
  find_globals (folder path name children) =
      let found = first_globals children in if skipped name then "" else found
  find_globals unread = ""

  pub first_globals : Forest → String
  first_globals end = ""
  first_globals (more t ts) = or_first (find_globals t) (first_globals ts)

-- The result of detectDBPattern; a kind of "" is no pattern.
pub data DbKind : Type 0 where
  war script compose bootprops : DbKind

pub record Pattern : Type 0 where
  pub kind : DbKind
  pub sql_dir : String
  pub schema : String
  pub props_path : String

abbrev pub pattern_at : DbKind → String → Pattern
pattern_at kind sql_dir = record { kind = kind; sql_dir = sql_dir; schema = ""; props_path = "" }

abbrev pub group : ℕ → List String → String
group n [] = ""
group zero (m ∷ ms) = m
group (suc n) (m ∷ ms) = group n ms

abbrev pub is_found : Option Pattern → Bool
is_found none = false
is_found (some p) = true

abbrev pub no_entries : Option (List Entry) → List Entry
no_entries none = []
no_entries (some es) = es

abbrev pub has_text : String → Option String → Bool
has_text t none = false
has_text t (some s) = contains s t

abbrev pub ddl_regexp : String
ddl_regexp = "^all_([A-Za-z0-9_]+)_ddl_mysql\\.sql$"

module _ {h : Host} (r : Reader h) where
  abbrev pub is_sql : Entry → Bool
  is_sql e = not e.is_dir && ends_with (r.to_lower e.name) ".sql"

  unfoldable pub find_globals_properties : String → Prog (Sys h) String
  find_globals_properties dir = reads (λ s. find_globals (r.tree dir s.world))

  -- The folder has an SQL file, and the project a globals.properties.
  unfoldable pub sql_and_globals : String → String → Prog (Sys h) Bool
  unfolding ◌>>=◌
  sql_and_globals dir sql_dir = do
    entries ← look (h.read_dir sql_dir)
    if any is_sql (no_entries entries)
        then (do path ← find_globals_properties dir; ret (not (str_eq path "")))
        else ret false

  -- `composeInitSQLDir`
  unfoldable pub compose_init_sql_dir : String → Prog (Sys h) String
  unfolding ◌>>=◌
  compose_init_sql_dir dir = do
    let init_dir = h.join (dir ∷ "docker-compose" ∷ "mysql" ∷ "init" ∷ [])
    entries ← look (h.read_dir init_dir)
    ret (if any is_sql (no_entries entries) then init_dir else "")

  abbrev pub props_of : String → String → Prog (Sys h) (Option Pattern)
  props_of dir schema = do
    let props = h.join (dir ∷ "src" ∷ "main" ∷ "resources" ∷ "application.properties" ∷ [])
    content ← look (h.read_file props)
    ret (
        if has_text "Globals.DbType" content
        then some (record {
          kind = bootprops;
          sql_dir = h.join (dir ∷ "DATABASE" ∷ []);
          schema = schema;
          props_path = props;
        })
        else none)

  abbrev pub named_schema : String → Option (List String) → Prog (Sys h) (Option Pattern)
  named_schema dir none = ret none
  named_schema dir (some m) = props_of dir (group 1 m)

  abbrev pub first_ddl : String → Option (List String) → Prog (Sys h) (Option Pattern)
  first_ddl dir none = ret none
  first_ddl dir (some []) = ret none
  first_ddl dir (some (m ∷ ms)) = named_schema dir (r.find ddl_regexp (r.base m))

  -- `bootPropsDBInfo`
  unfoldable pub boot_props_db_info : String → Prog (Sys h) (Option Pattern)
  unfolding ◌>>=◌
  boot_props_db_info dir = do
    matches ← look (h.glob (h.join (dir ∷ "DATABASE" ∷ "all_*_ddl_mysql.sql" ∷ [])))
    first_ddl dir matches

  -- The patterns without a `DATABASE` or `script` folder.
  unfoldable pub detect_served : String → Prog (Sys h) (Option Pattern)
  unfolding ◌>>=◌
  detect_served dir = do
    init_dir ← compose_init_sql_dir dir
    if str_eq init_dir "" then boot_props_db_info dir else ret (some (pattern_at compose init_dir))

  unfoldable pub detect_db_pattern : String → Prog (Sys h) (Option Pattern)
  unfolding ◌>>=◌
  detect_db_pattern dir = do
    let war_dir = h.join (dir ∷ "DATABASE" ∷ "mysql" ∷ [])
    is_war ← sql_and_globals dir war_dir
    if is_war then ret (some (pattern_at war war_dir)) else (do
      is_script ← sql_and_globals dir (h.join (dir ∷ "script" ∷ "ddl" ∷ "mysql" ∷ []))
      if is_script
          then ret (some (pattern_at script (h.join (dir ∷ "script" ∷ []))))
          else detect_served dir)

  unfoldable pub needs_database : String → Prog (Sys h) Bool
  unfolding ◌>>=◌
  needs_database dir = do pattern ← detect_db_pattern dir; ret (is_found pattern)

  abbrev pub remember : String → Bool → Sys h → Sys h
  remember dir b s = record s { needs_db_cache = insert dir b s.needs_db_cache }

  abbrev pub recall : String → Option Bool → Prog (Sys h) Bool
  recall dir (some b) = ret b
  recall dir none = do b ← needs_database dir; change (remember dir b); ret b

  -- `NeedsDatabase`, which asks the project once.
  unfoldable pub needs_database_cached : String → Prog (Sys h) Bool
  unfolding ◌>>=◌
  needs_database_cached dir = do known ← reads (λ s. lookup dir s.needs_db_cache); recall dir known

-- ===== src/Persist.antt =====
-- launcher/internal/persist/persist.go: the settings that survive a restart.
-- The file system and encoding/json are parameters: what the file decodes to, over the settings in
-- memory, and whether a write succeeds. `os.UserHomeDir` gives the default path.
pub mod Laws
pub mod Races
mod Tests
use egovframe_launcher.Base.{
  String, ◌<>◌, Bool, true, false, Option, none, some, List, str_eq, if◌then◌else◌,
}
use egovframe_launcher.Base.Int.{ℤ, pos}

pub record Config : Type 0 where
  pub java_home : String
  pub workspace_path : String
  pub skip_tests : Bool
  pub tomcat_path : String
  pub vscode_path : String
  pub rsp_tomcat_port : ℤ

-- Go's zero value.
abbrev pub zero_config : Config
zero_config = record {
  java_home = "";
  workspace_path = "";
  skip_tests = false;
  tomcat_path = "";
  vscode_path = "";
  rsp_tomcat_port = pos 0;
}

-- The package variables.
pub record Vars : Type 0 where
  pub file_path : String
  pub current : Config
  pub loaded : Bool

abbrev pub start : Vars
start = record { file_path = ""; current = zero_config; loaded = false }

-- What the package asks of the operating system and of encoding/json. A file's content is a value
-- of `Text`; `decode` is `json.Unmarshal` into a struct that already holds settings, of which a
-- failed call may have written some.
pub record Disk : Type 1 where
  pub Files : Type 0
  pub Text : Type 0
  pub home : String
  pub join : String → String → String
  pub read : Files → String → Option Text
  pub make_parent : String → Files → Files
  pub write : String → Text → Files → Option String × Files
  pub encode : Config → Text
  pub decode : Text → Config → Config

unfoldable pub init : String → Vars → Vars
init path v = record v { file_path = path; loaded = false }

module _ (d : Disk) where
  default_path : String
  default_path = d.join d.home ".egov-launcher.json"

  -- The `if filePath == ""` that `Load` and `Save` share.
  abbrev with_path : Vars → Vars
  with_path v = if str_eq v.file_path "" then record v { file_path = default_path } else v

  abbrev load_from : Option d.Text → Vars → Vars
  load_from none v = record v { loaded = true }
  load_from (some b) v = record v { current = d.decode b v.current; loaded = true }

  unfoldable pub load : d.Files → Vars → Config × Vars
  unfolding default_path
  load files v =
      if v.loaded
      then (v.current, v)
      else let w = with_path v in
        let w' = load_from (d.read files w.file_path) w in (w'.current, w')

  -- `MarshalIndent` of this struct of texts, a flag and a number does not fail.
  unfoldable pub save : Config → Vars → d.Files → Option String × Vars × d.Files
  unfolding default_path
  save c v files =
      let w = with_path v in
      let (err, files') = d.write w.file_path (d.encode c) (d.make_parent w.file_path files) in
      (err, record w { current = c }, files')

  -- `Update` reads the settings under the lock, lets the lock go, and saves the result.
  unfoldable pub update : (Config → Config) → Vars → d.Files → Option String × Vars × d.Files
  unfolding save
  update f v files = save (f v.current) v files

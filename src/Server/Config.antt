-- ===== src/Server/Config.antt =====
-- The settings dialogue: handleGetConfig and handleSaveConfig of
-- launcher/internal/server/server.go.
pub mod Laws
use egovframe_launcher.Base.{
  String, ◌<>◌, Bool, true, false, Option, none, some, List, [], ◌∷◌, str_eq, if◌then◌else◌,
}
use egovframe_launcher.Base.Int.{ℤ, pos, is_zero}
use egovframe_launcher.Persist
use egovframe_launcher.Prog.{Prog, ret, ◌>>=◌, ◌>>◌, skip}
use egovframe_launcher.Runner.Host.{Host, Stat, missing, failed}
use egovframe_launcher.Runner.Sys.{Sys, look, load_settings, update_settings}
use egovframe_launcher.Runner.Settings.{
  get_workspace, get_skip_tests, get_java_home, set_workspace, set_skip_tests, set_java_home,
}

-- `ConfigResponse` and `SaveConfigRequest`, which have the same fields.
pub record ConfigBody : Type 0 where
  pub vscode_path : String
  pub workspace_path : String
  pub tomcat_path : String
  pub skip_tests : Bool
  pub java_home : String
  pub rsp_tomcat_port : ℤ

-- The status line of the answer, and the text of an error.
pub data Answer : Type 0 where
  ok : Answer
  bad_request : String → Answer

-- The mutator that `handleSaveConfig` gives to `persist.Update`.
abbrev pub apply_body : ConfigBody → String → Persist.Config → Persist.Config
apply_body body abs_path cfg = record {
  workspace_path = abs_path;
  skip_tests = body.skip_tests;
  vscode_path = body.vscode_path;
  tomcat_path = body.tomcat_path;
  rsp_tomcat_port = body.rsp_tomcat_port;
  java_home = if str_eq body.java_home "" then cfg.java_home else body.java_home;
}

abbrev is_found : Stat → Bool
is_found missing = false
is_found failed = false
is_found _ = true

module _ (h : Host) where
  -- The part behind the checks.
  unfoldable pub store_config : ConfigBody → String → Prog (Sys h) Answer
  unfolding ◌>>=◌
  store_config body abs_path = do
    set_workspace h abs_path
    set_skip_tests h body.skip_tests
    if str_eq body.java_home "" then skip else set_java_home h body.java_home
    update_settings (apply_body body abs_path)
    ret ok

  -- `abs` is `filepath.Abs`: the path, or the error's text.
  abbrev pub checked : ConfigBody → Option String → String → Prog (Sys h) Answer
  checked body (some err) path = ret (bad_request ("invalid workspace path: " <> err))
  checked body none path = store_config body path

  -- `handleSaveConfig`; the body is decoded, or there is the text of the error.
  unfoldable pub handle_save_config :
      (String → Option String × String) → Option String → ConfigBody → Prog (Sys h) Answer
  handle_save_config abs (some err) body = ret (bad_request err)
  handle_save_config abs none body =
      if str_eq body.workspace_path ""
      then ret (bad_request "workspace path cannot be empty")
      else checked body (abs body.workspace_path).0 (abs body.workspace_path).1

  -- `detectVSCode`; `on_path` is what `exec.LookPath` finds, `home` is `os.UserHomeDir`.
  unfoldable pub detect_vscode : Option String → String → Prog (Sys h) String
  unfolding ◌>>=◌
  detect_vscode (some path) home = ret path
  detect_vscode none home = do
    let mac_path : String = "/Applications/Visual Studio Code.app/Contents/Resources/app/bin/code"
    mac ← look (h.stat mac_path)
    if is_found mac then ret mac_path else (do
      let win_path : String =
          h.join (
            home ∷ "AppData" ∷ "Local" ∷ "Programs" ∷ "Microsoft VS Code" ∷ "bin" ∷ "code.cmd" ∷ [])
      win ← look (h.stat win_path)
      if is_found win then ret win_path else ret "Not Found (Add to PATH or specify)")

  -- `handleGetConfig`
  unfoldable pub handle_get_config : Option String → String → Prog (Sys h) ConfigBody
  unfolding ◌>>=◌
  handle_get_config on_path home = do
    cfg ← load_settings
    vscode ← (if str_eq cfg.vscode_path "" then detect_vscode on_path home else ret cfg.vscode_path)
    ws ← get_workspace h
    skipped ← get_skip_tests h
    jh ← get_java_home h
    ret (record {
      vscode_path = vscode;
      workspace_path = ws;
      tomcat_path = cfg.tomcat_path;
      skip_tests = skipped;
      java_home = jh;
      rsp_tomcat_port = if is_zero cfg.rsp_tomcat_port then pos 8080 else cfg.rsp_tomcat_port;
    })

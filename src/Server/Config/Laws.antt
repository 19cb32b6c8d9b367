-- ===== src/Server/Config/Laws.antt =====
-- What the settings dialogue of launcher/internal/server/server.go saves and shows.
use egovframe_launcher.Base.{
  String, ◌≡◌, true, false, Option, none, some, str_eq, refl, Bool-cases, inl, inr, arith,
  if◌then◌else◌,
}
use egovframe_launcher.Base.Int.{is_zero}
use egovframe_launcher.Persist
use egovframe_launcher.Prog.{run, ◌>>=◌}
use egovframe_launcher.Runner.Host.{Host}
use egovframe_launcher.Runner.Sys.{Sys, load_settings, update_settings}
use egovframe_launcher.Runner.Settings.{
  get_workspace, get_skip_tests, get_java_home, set_workspace, set_skip_tests, set_java_home,
}
use egovframe_launcher.Server.Config.{
  ConfigBody, ok, handle_save_config, handle_get_config, store_config,
}

module _ (h : Host) where
  -- The settings that a request leaves behind: every field of the request, with the resolved path,
  -- and the old Java home where the request names none.
  abbrev pub wanted : ConfigBody → String → Sys h → Persist.Config
  wanted body path s = record {
    workspace_path = path;
    skip_tests = body.skip_tests;
    vscode_path = body.vscode_path;
    tomcat_path = body.tomcat_path;
    rsp_tomcat_port = body.rsp_tomcat_port;
    java_home = if str_eq body.java_home "" then s.settings.current.java_home else body.java_home;
  }

  -- The last change of the world was the write of the settings to the file that they are kept in.
  abbrev pub LastWritten : Persist.Config → String → h.World → Type 0
  LastWritten c file end =
      (w : h.World) × (end
        ≡ h.set_files (h.disk.write file (h.disk.encode c) (h.disk.make_parent file (h.files w))).1
            w)

  in_memory :
      (abs : String → Option String × String) (body : ConfigBody) (path : String) (s : Sys h)
      → str_eq body.workspace_path "" ≡ false
      → abs body.workspace_path ≡ (none, path)
      → let (answer, t) = run (handle_save_config h abs none body) s in
        (answer ≡ some ok)
        × (t.workspace ≡ path)
        × (t.skip_tests ≡ body.skip_tests)
        × (t.java_home ≡ (if str_eq body.java_home "" then s.java_home else body.java_home))
        × (t.settings.current ≡ wanted body path s)
  unfolding handle_save_config store_config set_workspace set_skip_tests set_java_home
      update_settings run ◌>>=◌ Persist.save
  in_memory abs body path s named resolved = ground arith

  checked-run :
      (abs : String → Option String × String) (body : ConfigBody) (path : String) (s : Sys h)
      → str_eq body.workspace_path "" ≡ false
      → abs body.workspace_path ≡ (none, path)
      → run (handle_save_config h abs none body) s ≡ run (store_config h body path) s
  unfolding handle_save_config
  checked-run abs body path s named resolved = rw named (rw resolved refl)

  store_config-world :
      (body : ConfigBody) (path : String) (s : Sys h)
      → str_eq s.settings.file_path "" ≡ false
      → LastWritten
          (wanted body path s)
          s.settings.file_path
          (run (store_config h body path) s).1.world
  unfolding store_config set_workspace set_skip_tests set_java_home update_settings run ◌>>=◌
      Persist.save
  store_config-world body path s chosen = elim (Bool-cases (str_eq body.java_home "")) [
    | inl old ↦ rw (old, chosen, chosen, chosen) (_, refl)
    | inr new ↦ rw (new, chosen, chosen, chosen, chosen) (_, refl)
  ]

  -- While no other goroutine comes between, and the file of the settings is named: a request with a
  -- good body and a workspace path that resolves is answered with success, whether or not the
  -- writes of the file fail. The runner then has its settings; the settings in memory have every
  -- field of the request, with the resolved path, and the old Java home where the request names
  -- none; and the last change of the world was a write of the encoding of just these settings to
  -- that file.
  pub save_config_lem :
      (abs : String → Option String × String) (body : ConfigBody) (path : String) (s : Sys h)
      → str_eq body.workspace_path "" ≡ false
      → abs body.workspace_path ≡ (none, path)
      → str_eq s.settings.file_path "" ≡ false
      → let (answer, t) = run (handle_save_config h abs none body) s in
        (answer ≡ some ok)
        × (t.workspace ≡ path)
        × (t.skip_tests ≡ body.skip_tests)
        × (t.java_home ≡ (if str_eq body.java_home "" then s.java_home else body.java_home))
        × (t.settings.current ≡ wanted body path s)
        × LastWritten (wanted body path s) s.settings.file_path t.world
  save_config_lem abs body path s named resolved chosen =
      let (answered, ws, skips, java, kept) = in_memory abs body path s named resolved in
      (
        answered,
        ws,
        skips,
        java,
        kept,
        rw (checked-run abs body path s named resolved) (store_config-world body path s chosen),
      )

  -- Once the settings are loaded, the dialogue shows what the last successful request has saved:
  -- the resolved path, the other fields as they were sent, and for an empty Java home the one
  -- before. The request has to name a path for VS Code and a port for Tomcat, which are otherwise
  -- filled in.
  pub get-save_config :
      (abs : String → Option String × String) (body : ConfigBody) (path : String)
      (on_path : Option String) (home : String) (s : Sys h)
      → str_eq body.workspace_path "" ≡ false
      → abs body.workspace_path ≡ (none, path)
      → s.settings.loaded ≡ true
      → str_eq body.vscode_path "" ≡ false
      → is_zero body.rsp_tomcat_port ≡ false
      → (run (handle_get_config h on_path home) (run (handle_save_config h abs none body) s).1).0
        ≡ some (record body {
          workspace_path = path;
          java_home = if str_eq body.java_home "" then s.java_home else body.java_home;
        })
  unfolding handle_get_config handle_save_config store_config get_workspace get_skip_tests
      get_java_home set_workspace set_skip_tests set_java_home update_settings load_settings run
      ◌>>=◌ Persist.save Persist.load
  get-save_config abs body path on_path home s named resolved loaded code port = ground arith

-- ===== src/Runner/Steps.antt =====
-- runSteps, cloneCmds and runClone of launcher/internal/runner/runner.go.
use egovframe_launcher.Base.{
  String, ◌<>◌, Bool, true, false, not, ◌&&◌, Option, none, some, List, [], ◌∷◌, ◌++◌, str_eq,
  if◌then◌else◌,
}
use egovframe_launcher.Base.Dict.{erase}
use egovframe_launcher.Catalog.{Target, Command}
use egovframe_launcher.Prog.{Prog, quit, ◌>>=◌, ◌>>◌, skip, change}
use egovframe_launcher.Runner.Host.{Host, Stat, folder, Entry}
use egovframe_launcher.Runner.Types.{Status, done, cloning, error}
use egovframe_launcher.Runner.Sys.{Sys, ask, look, log, set, dir}
use egovframe_launcher.Runner.Exec.{exec_all}
use egovframe_launcher.Runner.Patch.{patch_pom_xml, patch_gradle_sources_jar, patch_central_config}

abbrev is_done : Status → Bool
is_done done = true
is_done _ = false

unfoldable pub clone_cmds : Target → List Command
clone_cmds t =
    record {
      name = "git";
      args =
          "clone" ∷ "--depth" ∷ "1" ∷ (if str_eq t.branch "" then [] else "-b" ∷ t.branch ∷ [])
          ++ t.repo_url ∷ "." ∷ [];
      dir = "";
      port = 0;
    }
    ∷ []

abbrev is_folder : Stat → Bool
is_folder folder = true
is_folder _ = false

abbrev has_entries : Option (List Entry) → Bool
has_entries (some (e ∷ es)) = true
has_entries _ = false

module _ (h : Host) where
  -- `Runner.runSteps`
  unfoldable pub run_steps : Target → Status → Status → List Command → Prog (Sys h) (Unit {0})
  unfolding ◌>>=◌
  run_steps t active final cmds = do
    set t.id active ""
    exec_all h t cmds
    if is_done final then log t.id "[success] build completed" else skip
    set t.id final ""

  -- `delete(r.needsDBCache, dir)`
  abbrev pub forget_cache : String → Prog (Sys h) (Unit {0})
  forget_cache d = change (λ s. record s { needs_db_cache = erase d s.needs_db_cache })

  -- What both paths of `runClone` do with the sources.
  unfoldable pub settle_clone : Target → String → Prog (Sys h) (Unit {0})
  unfolding ◌>>=◌
  settle_clone t d = do
    patch_pom_xml h d
    patch_gradle_sources_jar h d
    patch_central_config h d
    forget_cache d
    log t.id "[success] clone completed"
    set t.id done ""

  abbrev pub fail_on : Target → Option String → Prog (Sys h) (Unit {0})
  fail_on t none = skip
  fail_on t (some e) = set t.id error e >> quit

  unfoldable pub fetch_clone : Target → Bool → String → Prog (Sys h) (Unit {0})
  unfolding ◌>>=◌
  fetch_clone t clean d = do
    if clean then (ask (h.remove_all d) >>= λ _. skip) else skip
    made ← ask (h.mkdir_all d)
    fail_on t made
    set t.id cloning ""
    exec_all h t (clone_cmds t)
    settle_clone t d

  -- `Runner.runClone`
  unfoldable pub run_clone : Target → Bool → Prog (Sys h) (Unit {0})
  unfolding ◌>>=◌
  run_clone t clean = do
    d ← dir t.id
    found ← look (h.stat d)
    entries ← look (h.read_dir d)
    if is_folder found && has_entries entries && not clean
        then (log t.id ("Using existing source code in " <> d) >> settle_clone t d)
        else fetch_clone t clean d

-- ===== src/Runner/Safety/Files.antt =====
-- The steps that prepare files keep the invariant of the job map: the patches, runClone,
-- runSteps and the first half of runLongWithPort of launcher/internal/runner/runner.go.
use egovframe_launcher.Base.{String, Bool, false, Option, none, some, List, [], ◌∷◌}
use egovframe_launcher.Catalog.{Target, Command}
use egovframe_launcher.Prog.{Prog, skip, ◌>>=◌}
use egovframe_launcher.Prog.Kept.{Kept-bind, Kept-then, Kept-if, Kept-ret, Kept-quit, Kept-step}
use egovframe_launcher.Runner.Host.{Host, Entry}
use egovframe_launcher.Runner.Types.{Status, error, cloning}
use egovframe_launcher.Runner.Sys.{Sys, ask}
use egovframe_launcher.Runner.Patch.{
  write_back, patch_text, patch_found, patch_file, patch_pom_xml, patch_gradle_sources_jar,
  patch_entries, patch_central_config,
}
use egovframe_launcher.Runner.Steps.{
  run_steps, settle_clone, fail_on, fetch_clone, run_clone, forget_cache, clone_cmds,
}
use egovframe_launcher.Runner.Prepare.{
  first_jar, find_jar, find_executable_jar, resolve_cmds, npm_deps_missing, install_deps,
  any_jar_missing, jar_missing, build_jars, jar_args, take_jar, take_match,
}
use egovframe_launcher.Runner.Safety.{safe_steps, Safe, ask-Safe, look-Safe, set-Safe, dir-Safe}
use egovframe_launcher.Runner.Safety.Exec.{exec_all-Safe}

module _ (h : Host) where
  write_back-Safe : (path : String) (o : Option String) → Safe h (write_back h path o)
  write_back-Safe path none = Kept-ret tt
  write_back-Safe path (some c) =
      Kept-bind _ _ (ask-Safe h (h.write_file path c)) (λ _. Kept-ret tt)

  patch_text-Safe :
      (fix : String → Option String) (path : String) (o : Option String)
      → Safe h (patch_text h fix path o)
  patch_text-Safe fix path none = Kept-ret tt
  patch_text-Safe fix path (some c) = write_back-Safe path (fix c)

  pub patch_file-Safe :
      (fix : String → Option String) (path : String) → Safe h (patch_file h fix path)
  unfolding patch_file
  patch_file-Safe fix path =
      Kept-bind _ _ (look-Safe h (h.read_file path)) (λ o. patch_text-Safe fix path o)

  gradle-Safe : (dir : String) → Safe h (patch_gradle_sources_jar h dir)
  unfolding patch_gradle_sources_jar
  gradle-Safe dir = Kept-then (patch_file-Safe _ _) (search (safe_steps, patch_file-Safe))

  patch_entries-Safe : (config : String) (es : List Entry) → Safe h (patch_entries h config es)
  unfolding patch_entries
  patch_entries-Safe config [] = Kept-ret tt
  patch_entries-Safe config (e ∷ es) =
      Kept-then (Kept-if _ _ _ (patch_file-Safe _ _) (Kept-ret tt)) (patch_entries-Safe config es)

  patch_found-Safe : (config : String) (o : Option (List Entry)) → Safe h (patch_found h config o)
  patch_found-Safe config none = Kept-ret tt
  patch_found-Safe config (some es) = patch_entries-Safe config es

  central-Safe : (dir : String) → Safe h (patch_central_config h dir)
  unfolding patch_central_config
  central-Safe dir =
      Kept-bind _ _ (look-Safe h (h.read_dir (h.join (dir ∷ "config" ∷ []))))
        (λ o. patch_found-Safe (h.join (dir ∷ "config" ∷ [])) o)

  pom-Safe : (dir : String) → Safe h (patch_pom_xml h dir)
  unfolding patch_pom_xml
  pom-Safe dir = patch_file-Safe _ _

  forget-Safe : (d : String) → Safe h (forget_cache h d)
  forget-Safe d = Kept-step _ _ (λ s ok. ok) (λ s ok. Kept-ret tt)

  settle-Safe : (t : Target) (d : String) → Safe h (settle_clone h t d)
  unfolding settle_clone
  settle-Safe t d =
      Kept-then (pom-Safe d) (search (safe_steps, gradle-Safe, central-Safe, forget-Safe))

  fail_on-Safe : (t : Target) (o : Option String) → Safe h (fail_on h t o)
  fail_on-Safe t none = Kept-ret tt
  fail_on-Safe t (some e) = Kept-then (set-Safe h t.id error e) (Kept-quit _)

  fetch-Safe : (t : Target) (clean : Bool) (d : String) → Safe h (fetch_clone h t clean d)
  unfolding fetch_clone
  fetch-Safe t clean d =
      Kept-then
        (Kept-if clean (ask (h.remove_all d) >>= λ _. skip) skip
          (Kept-bind _ _ (ask-Safe h (h.remove_all d)) (λ _. Kept-ret tt)) (Kept-ret tt))
        (Kept-bind _ _ (ask-Safe h (h.mkdir_all d)) (λ made. Kept-then (fail_on-Safe t made) (
          Kept-then (set-Safe h t.id cloning "")
            (Kept-then (exec_all-Safe h t (clone_cmds t)) (settle-Safe t d)))))

  pub run_clone-Safe : (t : Target) (clean : Bool) → Safe h (run_clone h t clean)
  unfolding run_clone
  run_clone-Safe t clean =
      Kept-bind _ _ (dir-Safe h t.id) (λ d. search (safe_steps, settle-Safe, fetch-Safe))

  pub run_steps-Safe :
      (t : Target) (active final : Status) (cmds : List Command)
      → Safe h (run_steps h t active final cmds)
  unfolding run_steps
  run_steps-Safe t active final cmds =
      Kept-then (set-Safe h t.id active "") (search (safe_steps, exec_all-Safe))

  first_jar-Safe :
      (d : String) (o : Option String) (rest : Prog (Sys h) String)
      → Safe h rest
      → Safe h (take_jar h d o rest)
  first_jar-Safe d none rest k = k
  first_jar-Safe d (some m) rest k = Kept-ret _

  match-Safe :
      (d : String) (o : Option (List String)) (rest : Prog (Sys h) String)
      → Safe h rest
      → Safe h (take_match h d o rest)
  match-Safe d none rest k = k
  match-Safe d (some ms) rest k = first_jar-Safe d (first_jar ms) rest k

  find_jar-Safe : (d : String) (patterns : List String) → Safe h (find_jar h d patterns)
  unfolding find_jar
  find_jar-Safe d [] = Kept-ret ""
  find_jar-Safe d (p ∷ more) =
      let k = find_jar-Safe d more in
      Kept-bind _ _ (look-Safe h (h.glob p)) (λ o. match-Safe d o _ k)

  find_executable_jar-Safe : (d : String) → Safe h (find_executable_jar h d)
  unfolding find_executable_jar
  find_executable_jar-Safe d = find_jar-Safe d _

  pub resolve_cmds-Safe : (t : Target) (cs : List Command) → Safe h (resolve_cmds h t cs)
  unfolding resolve_cmds
  resolve_cmds-Safe t (c ∷ cs) = Kept-ret _
  resolve_cmds-Safe t [] =
      Kept-bind _ _ (dir-Safe h t.id) (λ d. search (safe_steps, find_executable_jar-Safe))

  npm-Safe : (t : Target) (cs : List Command) → Safe h (npm_deps_missing h t cs)
  unfolding npm_deps_missing
  npm-Safe t [] = Kept-ret false
  npm-Safe t (c ∷ cs) =
      let rest = npm-Safe t cs in
      Kept-if _ _ _ rest (Kept-bind _ _ (dir-Safe h t.id) (λ d. search safe_steps))

  pub install_deps-Safe : (t : Target) (cs : List Command) → Safe h (install_deps h t cs)
  unfolding install_deps
  install_deps-Safe t cs =
      Kept-bind _ _ (npm-Safe t cs) (λ absent. search (safe_steps, exec_all-Safe))

  any_jar-Safe : (t : Target) (jars : List String) → Safe h (any_jar_missing h t jars)
  unfolding any_jar_missing
  any_jar-Safe t [] = Kept-ret false
  any_jar-Safe t (jar ∷ jars) =
      let rest = any_jar-Safe t jars in Kept-bind _ _ (dir-Safe h t.id) (λ d. search safe_steps)

  jar_missing-Safe : (t : Target) (cs : List Command) → Safe h (jar_missing h t cs)
  unfolding jar_missing
  jar_missing-Safe t [] = Kept-ret false
  jar_missing-Safe t (c ∷ cs) =
      let rest = jar_missing-Safe t cs in
      Kept-if _ _ _ rest
        (Kept-bind _ _ (any_jar-Safe t (jar_args c.args)) (λ absent. search safe_steps))

  pub build_jars-Safe : (t : Target) (cs : List Command) → Safe h (build_jars h t cs)
  unfolding build_jars
  build_jars-Safe t cs =
      Kept-bind _ _ (jar_missing-Safe t cs) (λ absent. search (safe_steps, exec_all-Safe))

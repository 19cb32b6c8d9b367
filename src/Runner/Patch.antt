-- ===== src/Runner/Patch.antt =====
-- The fixes that launcher/internal/runner/runner.go makes in a fresh clone: patchPomXml,
-- patchGradleSourcesJar and patchCentralConfigEurekaPort. A function on the text of a file gives
-- the new text, or `none` where the file is left alone.
use egovframe_launcher.Base.{
  ℕ, ◌+◌, String, ◌<>◌, Bool, not, ◌&&◌, ◌||◌, Option, none, some, List, [], ◌∷◌, if◌then◌else◌,
}
use egovframe_launcher.Base.Text.{contains, ends_with, replace_one, replace_all}
use Prim.Native.String.{len, slice}
use text.Mathlib.Text.{find?}
use egovframe_launcher.Prog.{Prog, ◌>>=◌, ◌>>◌, skip}
use egovframe_launcher.Runner.Host.{Host, Entry}
use egovframe_launcher.Runner.Sys.{Sys, ask, look}

abbrev processor_paths : String
processor_paths =
    "\n\t\t\t\t\t<annotationProcessorPaths>\n\t\t\t\t\t\t<path>\n\t\t\t\t\t\t\t<groupId>org.projectlombok</groupId>\n\t\t\t\t\t\t\t<artifactId>lombok</artifactId>\n\t\t\t\t\t\t\t<version>1.18.42</version>\n\t\t\t\t\t\t</path>\n\t\t\t\t\t</annotationProcessorPaths>"

abbrev compiler_levels : List String
compiler_levels =
    "<release>${java.version}</release>" ∷ "<source>1.8</source>\n\t\t\t\t\t<target>1.8</target>"
    ∷ "<source>11</source>\n\t\t\t\t\t<target>11</target>"
    ∷ "<source>17</source>\n\t\t\t\t\t<target>17</target>" ∷ []

-- The first of the compiler levels that the text has, with the lombok path put behind it.
patch_level : String → List String → Option String
patch_level clean [] = none
patch_level clean (level ∷ levels) =
    if contains clean level
    then some (replace_one clean level (level <> processor_paths))
    else patch_level clean levels

-- Without a level: behind the first `<configuration>` after the compiler plugin.
abbrev insert_at : String → ℕ → String
insert_at content at = slice content 0 at <> processor_paths <> slice content at (len content)

abbrev behind_plugin : String → ℕ → Option String
behind_plugin content idx = elim (find? (slice content idx (len content)) "<configuration>") [
  | none ↦ none
  | some config ↦ some (insert_at content (idx + config + len "<configuration>"))
]

patch_configuration : String → Option String
patch_configuration content =
    elim (find? content "<artifactId>maven-compiler-plugin</artifactId>") [
      | none ↦ none
      | some idx ↦ behind_plugin content idx
    ]

abbrev or_else : Option String → Option String → Option String
or_else none other = other
or_else (some s) other = some s

unfoldable pub patch_pom : String → Option String
unfolding patch_level patch_configuration replace_one replace_all
patch_pom content =
    if not (contains content "lombok")
      || not (contains content "maven-compiler-plugin")
      || contains content "annotationProcessorPaths"
    then none
    else or_else (patch_level (replace_all content "\r" "") compiler_levels)
        (patch_configuration content)

unfoldable pub patch_sources_jar : String → Option String
patch_sources_jar content =
    if contains content "withSourcesJar()"
      && not (contains content "egov-launcher: sourcesJar fix")
      && not (contains content "dependsOn tasks.named('compileJava')")
    then some (
        content
        <> "\n/* egov-launcher: sourcesJar fix — Gradle 8 implicit-dependency validation (upstream PR #87) */\ntasks.named('sourcesJar') { dependsOn tasks.named('compileJava') }\n")
    else none

unfoldable pub patch_log4j : String → Option String
patch_log4j content =
    if contains content "egov-launcher: log4j exclude" || contains content "log4j-slf4j2-impl"
    then none
    else some (
        content
        <> "\n/* egov-launcher: log4j exclude — logback 사용 서비스에 log4j-slf4j2-impl이 섞이면 기동 불가 (upstream PR #87) */\nconfigurations.configureEach {\n    exclude group: 'org.apache.logging.log4j', module: 'log4j-slf4j2-impl'\n}\n")

unfoldable pub patch_eureka : String → Option String
unfolding replace_all
patch_eureka content =
    if not (contains content ":8761/eureka")
    then none
    else some (replace_all content ":8761/eureka" ":8762/eureka")

module _ (h : Host) where
  abbrev pub write_back : String → Option String → Prog (Sys h) (Unit {0})
  write_back path none = skip
  write_back path (some content) = ask (h.write_file path content) >>= λ _. skip

  abbrev pub patch_text :
      (String → Option String) → String → Option String → Prog (Sys h) (Unit {0})
  patch_text fix path none = skip
  patch_text fix path (some content) = write_back path (fix content)

  -- Reads a file, and writes it back if the fix applies; errors are dropped.
  unfoldable pub patch_file : (String → Option String) → String → Prog (Sys h) (Unit {0})
  unfolding ◌>>=◌
  patch_file fix path = do text ← look (h.read_file path); patch_text fix path text

  unfoldable pub patch_pom_xml : String → Prog (Sys h) (Unit {0})
  patch_pom_xml dir = patch_file patch_pom (h.join (dir ∷ "pom.xml" ∷ []))

  abbrev build_gradle : String → String → String
  build_gradle dir service = h.join (dir ∷ "backend" ∷ service ∷ "build.gradle" ∷ [])

  unfoldable pub patch_gradle_sources_jar : String → Prog (Sys h) (Unit {0})
  unfolding ◌>>=◌
  patch_gradle_sources_jar dir = do
    patch_file patch_sources_jar (build_gradle dir "egovframe-cloud-module-common")
    patch_file patch_log4j (build_gradle dir "user-service")
    patch_file patch_log4j (build_gradle dir "portal-service")
    patch_file patch_log4j (build_gradle dir "board-service")

  abbrev is_config : Entry → Bool
  is_config e = not e.is_dir && (ends_with e.name ".yml" || ends_with e.name ".yaml")

  unfoldable pub patch_entries : String → List Entry → Prog (Sys h) (Unit {0})
  unfolding ◌>>=◌
  patch_entries config [] = skip
  patch_entries config (e ∷ more) = do
    if is_config e then patch_file patch_eureka (h.join (config ∷ e.name ∷ [])) else skip
    patch_entries config more

  abbrev pub patch_found : String → Option (List Entry) → Prog (Sys h) (Unit {0})
  patch_found config none = skip
  patch_found config (some entries) = patch_entries config entries

  unfoldable pub patch_central_config : String → Prog (Sys h) (Unit {0})
  unfolding ◌>>=◌
  patch_central_config dir = do
    let config = h.join (dir ∷ "config" ∷ [])
    entries ← look (h.read_dir config)
    patch_found config entries

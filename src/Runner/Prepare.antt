-- ===== src/Runner/Prepare.antt =====
-- The first half of runLongWithPort in launcher/internal/runner/runner.go: the commands to run and
-- what has to be built before them.
use egovframe_launcher.Base.{
  String, Bool, true, false, not, ◌&&◌, Option, none, some, List, [], ◌∷◌, str_eq, if◌then◌else◌,
}
use egovframe_launcher.Base.Text.{contains, ends_with}
use egovframe_launcher.Catalog.{Target, Command}
use egovframe_launcher.Prog.{Prog, ret, quit, ◌>>=◌, ◌>>◌, skip}
use egovframe_launcher.Runner.Host.{Host, Stat, missing, failed}
use egovframe_launcher.Runner.Types.{building, error}
use egovframe_launcher.Runner.Sys.{Sys, look, log, set, dir}
use egovframe_launcher.Runner.Command.{is_missing}
use egovframe_launcher.Runner.Exec.{exec_all}

-- `err != nil` of `os.Stat`.
abbrev is_absent : Stat → Bool
is_absent missing = true
is_absent failed = true
is_absent _ = false

abbrev is_runnable_jar : String → Bool
is_runnable_jar m =
    not (ends_with m ".original") && not (contains m "sources") && not (contains m "javadoc")

unfoldable pub first_jar : List String → Option String
first_jar [] = none
first_jar (m ∷ ms) = if is_runnable_jar m then some m else first_jar ms

abbrev pub install_steps : List Command → List Command
install_steps [] = record { name = "npm"; args = "ci" ∷ []; dir = ""; port = 0 } ∷ []
install_steps (c ∷ cs) = c ∷ cs

-- The jars that a java command names: each argument behind a `-jar`.
unfoldable pub jar_args : List String → List String
jar_args [] = []
jar_args (a ∷ []) = []
jar_args (a ∷ b ∷ rest) =
    let more = jar_args (b ∷ rest) in if str_eq a "-jar" then b ∷ more else more

abbrev is_empty : List Command → Bool
is_empty [] = true
is_empty (c ∷ cs) = false

module _ (h : Host) where
  abbrev pub rel_or : String → String → Option String → String
  rel_or d m none = m
  rel_or d m (some r) = r

  -- The first fitting jar of one pattern, or what the patterns behind it give.
  abbrev pub take_jar : String → Option String → Prog (Sys h) String → Prog (Sys h) String
  take_jar d none rest = rest
  take_jar d (some m) rest = ret (rel_or d m (h.rel d m))

  abbrev pub take_match : String → Option (List String) → Prog (Sys h) String → Prog (Sys h) String
  take_match d none rest = rest
  take_match d (some ms) rest = take_jar d (first_jar ms) rest

  -- `findExecutableJar`, "" where nothing fits.
  unfoldable pub find_jar : String → List String → Prog (Sys h) String
  unfolding ◌>>=◌
  find_jar d [] = ret ""
  find_jar d (pattern_ ∷ more) = do
    let rest = find_jar d more
    matches ← look (h.glob pattern_)
    take_match d matches rest

  unfoldable pub find_executable_jar : String → Prog (Sys h) String
  find_executable_jar d = find_jar d (
      h.join (d ∷ "GatewayServer" ∷ "target" ∷ "*.jar" ∷ [])
      ∷ h.join (d ∷ "apigateway-service" ∷ "target" ∷ "*.jar" ∷ [])
      ∷ h.join (d ∷ "target" ∷ "*.jar" ∷ [])
      ∷ h.join (d ∷ "*" ∷ "target" ∷ "*.jar" ∷ [])
      ∷ [])

  -- The commands to run: those given, or the project's jar.
  unfoldable pub resolve_cmds : Target → List Command → Prog (Sys h) (List Command)
  unfolding ◌>>=◌
  resolve_cmds t (c ∷ cs) = ret (c ∷ cs)
  resolve_cmds t [] = do
    d ← dir t.id
    jar ← find_executable_jar d
    if str_eq jar ""
        then (set t.id error "기동할 실행 명령어(Run) 또는 JAR 파일을 찾을 수 없습니다" >> quit)
        else ret (record { name = "java"; args = "-jar" ∷ jar ∷ []; dir = ""; port = 0 } ∷ [])

  -- The first loop: some npm command has no node_modules.
  unfoldable pub npm_deps_missing : Target → List Command → Prog (Sys h) Bool
  unfolding ◌>>=◌
  npm_deps_missing t [] = ret false
  npm_deps_missing t (c ∷ cs) = if not (str_eq c.name "npm") then npm_deps_missing t cs else do
    d ← dir t.id
    found ← look (h.stat (h.join (d ∷ c.dir ∷ "node_modules" ∷ [])))
    if is_missing found then ret true else npm_deps_missing t cs

  unfoldable pub install_deps : Target → List Command → Prog (Sys h) (Unit {0})
  unfolding ◌>>=◌
  install_deps t cmds = do
    absent ← npm_deps_missing t cmds
    if absent
        then (do
          set t.id building ""
          log t.id "[info] node_modules 없음 — 의존성 설치를 먼저 실행합니다"
          exec_all h t (install_steps t.build)
          log t.id "[success] 의존성 설치 완료 — 서버를 기동합니다")
        else skip

  unfoldable pub any_jar_missing : Target → List String → Prog (Sys h) Bool
  unfolding ◌>>=◌
  any_jar_missing t [] = ret false
  any_jar_missing t (jar ∷ jars) = do
    d ← dir t.id
    found ← look (h.stat (if h.is_abs jar then jar else h.join (d ∷ jar ∷ [])))
    if is_absent found then ret true else any_jar_missing t jars

  -- The loop `scan`: some java command names a jar that is not there.
  unfoldable pub jar_missing : Target → List Command → Prog (Sys h) Bool
  unfolding ◌>>=◌
  jar_missing t [] = ret false
  jar_missing t (c ∷ cs) = if not (str_eq c.name "java") then jar_missing t cs else do
    absent ← any_jar_missing t (jar_args c.args)
    if absent then ret true else jar_missing t cs

  unfoldable pub build_jars : Target → List Command → Prog (Sys h) (Unit {0})
  unfolding ◌>>=◌
  build_jars t cmds = do
    absent ← jar_missing t cmds
    if absent && not (is_empty t.build)
        then (do
          set t.id building ""
          log t.id "[info] 빌드 산출물(jar) 없음 — 빌드를 먼저 실행합니다 (수 분 소요될 수 있습니다)"
          exec_all h t t.build
          log t.id "[success] 빌드 완료 — 서비스를 기동합니다")
        else skip

-- ===== src/Runner/Command.antt =====
-- The command lines and environments that launcher/internal/runner/runner.go hands to a process:
-- winShellCommand, command, appendEnv, setEnvWithout, and the Maven arguments of exec.
pub mod Arguments
use egovframe_launcher.Base.{
  ℕ, String, ◌<>◌, Bool, true, false, not, ◌&&◌, ◌||◌, Option, none, some, List, [], ◌∷◌, ◌++◌,
  str_eq, starts_with, if◌then◌else◌, any, keep,
}
use egovframe_launcher.Base.Int.{ℤ, is_pos}
use egovframe_launcher.Base.Text.{itoa, ends_with}
use egovframe_launcher.Catalog.{Target, Command}
use egovframe_launcher.Prog.{Prog, ret, step, ◌>>=◌, ◌>>◌, reads}
use egovframe_launcher.Runner.Host.{Host, Cmd, Stat, missing, failed}
use egovframe_launcher.Runner.Sys.{Sys, dir, read_job, look, log}

-- `append(baseEnv, extra...)`, or nil where there is nothing extra.
abbrev pub env_with : List String → List String → Option (List String)
env_with base [] = none
env_with base (kv ∷ more) = some (base ++ kv ∷ more)

abbrev pub env_or : List String → Option (List String) → List String
env_or inherited none = inherited
env_or inherited (some env) = env

-- `appendEnv` and `setEnvWithout`; `inherited` is `os.Environ()`.
unfoldable pub append_env : List String → List String → Cmd → Cmd
append_env inherited kv cmd = record cmd { env = some (env_or inherited cmd.env ++ kv) }

abbrev pub has_prefix : List String → String → Bool
has_prefix prefixes env = any (λ p. starts_with env p) prefixes

unfoldable pub set_env_without : List String → List String → List String → Cmd → Cmd
set_env_without inherited drop_prefixes kv cmd = record cmd {
  env = some (keep (λ env. not (has_prefix drop_prefixes env)) (env_or inherited cmd.env) ++ kv);
}

abbrev pub port_env : ℤ → List String
port_env port =
    if is_pos port then ("PORT=" <> itoa port) ∷ ("SERVER_PORT=" <> itoa port) ∷ [] else []

abbrev jvm_utf8 : String
jvm_utf8 = "-Dfile.encoding=UTF-8 -Dstdout.encoding=UTF-8 -Dstderr.encoding=UTF-8"

-- JAVA_TOOL_OPTIONS on Windows, after what the environment already sets there.
abbrev jvm_env : Bool → String → List String
jvm_env windows prev =
    if windows
    then (if str_eq prev ""
        then "JAVA_TOOL_OPTIONS=" <> jvm_utf8
        else "JAVA_TOOL_OPTIONS=" <> (prev <> " " <> jvm_utf8))
      ∷ []
    else []

abbrev is_gradlew : List String → Bool
is_gradlew [] = false
is_gradlew (a ∷ as_) = ends_with a "gradlew"

abbrev gradlew_bat : (String → String) → Command → List String → Command
gradlew_bat from_slash c [] = c
gradlew_bat from_slash c (a ∷ rest) = record c {
  name = "cmd";
  args = "/c" ∷ (from_slash a <> ".bat") ∷ rest;
}

-- The Maven arguments of `exec`: a module that cannot be packed is left out, and `-DskipTests`
-- follows the setting.
abbrev is_pl : String → Bool
is_pl arg = str_eq arg "-pl" || starts_with arg "-pl="

unfoldable pub without_mobile : List String → List String
without_mobile args = if any is_pl args then args else args ++ "-pl" ∷ "!EgovMobileId" ∷ []

abbrev pub is_skip : String → Bool
is_skip arg = str_eq arg "-DskipTests"

unfoldable pub skip_args : Bool → List String → List String
skip_args skip args =
    if skip && not (any is_skip args)
    then args ++ "-DskipTests" ∷ []
    else if not skip && any is_skip args
    then keep (λ arg. not (is_skip arg)) args
    else args

-- `os.IsNotExist`
abbrev pub is_missing : Stat → Bool
is_missing missing = true
is_missing _ = false

abbrev pub is_present : Stat → Bool
is_present missing = false
is_present failed = false
is_present _ = true

module _ (h : Host) where
  unfoldable pub win_shell_command : Command → Command
  win_shell_command c =
      if not h.windows || not (str_eq c.name "sh") || not (is_gradlew c.args)
      then c
      else gradlew_bat h.from_slash c c.args

  java_env : String → h.World → List String
  java_env jh w =
      if str_eq jh ""
      then []
      else ("JAVA_HOME=" <> jh)
        ∷ ("PATH=" <> h.join (jh ∷ "bin" ∷ []) <> h.list_separator <> h.getenv "PATH" w)
        ∷ []

  -- What `command` adds to the environment.
  unfoldable pub extra_env : String → ℤ → h.World → List String
  unfolding java_env
  extra_env jh port w =
      java_env jh w ++ port_env port ++ jvm_env h.windows (h.getenv "JAVA_TOOL_OPTIONS" w)

  -- `Runner.command`
  unfoldable pub command : Target → Command → Prog (Sys h) Cmd
  unfolding ◌>>=◌
  command t c = do
    let c' = win_shell_command c
    ws ← dir t.id
    port ← read_job t.id (λ j. j.port)
    jh ← reads (λ s. s.java_home)
    w ← reads (λ s. s.world)
    ret (record {
      name = c'.name;
      args = c'.args;
      dir = h.join (ws ∷ c'.dir ∷ []);
      env = env_with (h.environ w) (extra_env jh port w);
    })

  -- The Maven part of `exec`, which looks for the EgovMobileId module first.
  unfoldable pub maven_args : Target → List String → Prog (Sys h) (List String)
  unfolding ◌>>=◌
  maven_args t args = do
    ws ← dir t.id
    found ← look (h.stat (h.join (ws ∷ "EgovMobileId" ∷ "pom.xml" ∷ [])))
    args' ←
        (if is_present found && not (any is_pl args)
          then (log t.id
                "[info] EgovMobileId 모듈 감지 → 난독화 JAR 예외 방지 옵션(-pl !EgovMobileId)을 빌드에 자동 적용했습니다"
              >> ret (without_mobile args))
          else ret args)
    skip ← reads (λ s. s.skip_tests)
    ret (skip_args skip args')

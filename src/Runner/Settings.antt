-- ===== src/Runner/Settings.antt =====
-- The settings that launcher/internal/runner/runner.go keeps, and their setters, which also save.
use egovframe_launcher.Base.{String, Bool}
use egovframe_launcher.Prog.{Prog, ◌>>=◌, ◌>>◌, reads, change}
use egovframe_launcher.Runner.Host.{Host}
use egovframe_launcher.Runner.Sys.{Sys, update_settings}

module _ (h : Host) where
  -- `Runner.Workspace`, `Runner.SkipTests` and `Runner.JavaHome`.
  unfoldable pub get_workspace : Prog (Sys h) String
  get_workspace = reads (λ s. s.workspace)

  unfoldable pub get_skip_tests : Prog (Sys h) Bool
  get_skip_tests = reads (λ s. s.skip_tests)

  unfoldable pub get_java_home : Prog (Sys h) String
  get_java_home = reads (λ s. s.java_home)

  -- `Runner.UseWorkspace`, for this session only.
  unfoldable pub use_workspace : String → Prog (Sys h) (Unit {0})
  use_workspace path = change (λ s. record s { workspace = path })

  unfoldable pub set_workspace : String → Prog (Sys h) (Unit {0})
  unfolding ◌>>=◌
  set_workspace path = do
    change (λ s. record s { workspace = path })
    update_settings (λ c. record c { workspace_path = path })

  unfoldable pub set_skip_tests : Bool → Prog (Sys h) (Unit {0})
  unfolding ◌>>=◌
  set_skip_tests skip = do
    change (λ s. record s { skip_tests = skip })
    update_settings (λ c. record c { skip_tests = skip })

  unfoldable pub set_java_home : String → Prog (Sys h) (Unit {0})
  unfolding ◌>>=◌
  set_java_home home = do
    change (λ s. record s { java_home = home })
    update_settings (λ c. record c { java_home = home })

-- ===== src/Server.antt =====
-- launcher/internal/server/server.go: the requests of the dashboard. A request is given by what
-- net/http and encoding/json make of it: the path's values, the query's values, the decoded body.
pub mod Config
pub mod Events
mod Tests
use egovframe_launcher.Base.{String, Bool, true, false, str_eq, if◌then◌else◌, ◌≡◌, refl}
use egovframe_launcher.Base.Int.{ℤ, pos}
use egovframe_launcher.Base.Atoi.{atoi}

-- The call that `handleAction` makes of the runner.
pub data Route : Type 0 where
  to_stop to_vscode to_rsp_setup to_db_setup : Route
  to_clone : Bool → Route
  to_tomcat : ℤ → Route
  to_run : ℤ → Route
  to_action : String → Route

-- The port of the query; the error of `Atoi` is dropped.
abbrev custom_port : String → ℤ
custom_port text = if str_eq text "" then pos 0 else (atoi text).0

-- The dispatch of `handleAction`, by the action and the query's `clean` and `port`.
unfoldable pub route : String → String → String → Route
unfolding atoi
route action clean port =
    if str_eq action "stop"
    then to_stop
    else if str_eq action "vscode"
    then to_vscode
    else if str_eq action "rsp-setup"
    then to_rsp_setup
    else if str_eq action "db-setup"
    then to_db_setup
    else if str_eq action "clone"
    then to_clone (str_eq clean "true")
    else if str_eq action "tomcat"
    then to_tomcat (custom_port port)
    else if str_eq action "run"
    then to_run (custom_port port)
    else to_action action

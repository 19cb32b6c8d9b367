-- ===== src/Runner/Requests.antt =====
-- The requests that the HTTP server makes of launcher/internal/runner/runner.go.
use egovframe_launcher.Base.{String, Bool, List}
use egovframe_launcher.Base.Int.{ℤ}
use egovframe_launcher.Prog.{Prog, ◌>>=◌, skip}
use egovframe_launcher.Runner.Host.{Host}
use egovframe_launcher.Runner.Sys.{Sys, state}
use egovframe_launcher.Runner.Tools.{Tools}
use egovframe_launcher.Runner.Stop.{stop}
use egovframe_launcher.Runner.Api.{do_with_options, do_with_port, follow}
use egovframe_launcher.Runner.Database.{Reader}
use egovframe_launcher.Runner.Database.Request.{request_setup_db}

-- The requests to the runner, each with the goroutine that it starts.
pub data Request (h : Host) : Prog (Sys h) (Unit {0}) → Type 0 where
  view : (id : String) → Request h (state id >>= λ _. skip)
  act :
      (id action : String) (clean : Bool)
      → Request h (do_with_options h id action clean >>= follow h)
  act_on_port :
      (id action : String) (custom : ℤ) → Request h (do_with_port h id action custom >>= follow h)
  halt : (id : String) → Request h (stop h id >>= λ _. skip)
  set_up_db :
      (tools : Tools h) (r : Reader h) (redis_turns rabbit_turns : List Bool) (id : String)
      → Request h (request_setup_db tools r redis_turns rabbit_turns id >>= follow h)

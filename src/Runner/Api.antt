-- ===== src/Runner/Api.antt =====
-- The requests of launcher/internal/runner/runner.go that check their input and start a goroutine:
-- Do, DoWithOptions and DoWithPort.
use egovframe_launcher.Base.{
  String, ◌<>◌, Bool, Option, none, some, List, [], ◌∷◌, str_eq, if◌then◌else◌,
}
use egovframe_launcher.Base.Int.{ℤ, pos}
use egovframe_launcher.Catalog.{Target, Command}
use egovframe_launcher.Prog.{Prog, ret, ◌>>=◌, skip}
use egovframe_launcher.Runner.Host.{Host}
use egovframe_launcher.Runner.Types.{building, done}
use egovframe_launcher.Runner.Sys.{Sys, job_for}
use egovframe_launcher.Runner.Steps.{run_steps, run_clone}
use egovframe_launcher.Runner.Chain.{run_long_with_port}

-- The error that the request returns, or the goroutine that it starts.
pub data Reply (h : Host) : Type 0 where
  rejected : String → Reply h
  started : Prog (Sys h) (Unit {0}) → Reply h

module _ (h : Host) where
  abbrev unknown_target : String → Reply h
  unknown_target id = rejected ("unknown target: " <> id)

  abbrev pub build_reply : String → Target → List Command → Reply h
  build_reply id t [] = rejected (id <> " has no build step")
  build_reply id t (c ∷ cs) = started (run_steps h t building done (c ∷ cs))

  abbrev pub run_reply : String → Target → List Command → ℤ → Reply h
  run_reply id t [] custom = rejected (id <> " is not runnable")
  run_reply id t (c ∷ cs) custom = started (run_long_with_port h t (c ∷ cs) custom)

  -- The `switch` of `DoWithPort`.
  unfoldable pub port_reply : String → String → ℤ → Target → Reply h
  port_reply id action custom t =
      if str_eq action "build"
      then build_reply id t t.build
      else if str_eq action "run"
      then run_reply id t t.run custom
      else rejected ("unknown action: " <> action)

  -- The reply to a job that `jobFor` found, or did not find.
  abbrev pub port_answer : String → String → ℤ → Option Target → Reply h
  port_answer id action custom none = unknown_target id
  port_answer id action custom (some t) = port_reply id action custom t

  -- `Runner.DoWithPort`
  unfoldable pub do_with_port : String → String → ℤ → Prog (Sys h) (Reply h)
  unfolding ◌>>=◌
  do_with_port id action custom = do found ← job_for id; ret (port_answer id action custom found)

  -- `Runner.Do`
  unfoldable pub do_action : String → String → Prog (Sys h) (Reply h)
  do_action id action = do_with_port id action (pos 0)

  abbrev pub options_answer : String → String → Bool → Option Target → Prog (Sys h) (Reply h)
  options_answer id action clean none = ret (unknown_target id)
  options_answer id action clean (some t) =
      if str_eq action "clone"
      then ret (started (run_clone h t clean))
      else do_with_port id action (pos 0)

  -- `Runner.DoWithOptions`
  unfoldable pub do_with_options : String → String → Bool → Prog (Sys h) (Reply h)
  unfolding ◌>>=◌
  do_with_options id action clean = do found ← job_for id; options_answer id action clean found

  -- `go ...`: the goroutine goes on where the request has answered.
  abbrev pub follow : Reply h → Prog (Sys h) (Unit {0})
  follow (rejected e) = skip
  follow (started m) = m

-- ===== src/Runner/Safety/Requests.antt =====
-- Any number of requests to the runner, with the goroutines that they start, interleaved step by
-- step: launcher/internal/runner/runner.go.
use egovframe_launcher.Base.{
  String, ◌≡◌, Bool, true, false, Option, none, some, List, [], ◌∷◌, str_eq, if◌then◌else◌,
}
use egovframe_launcher.Base.Int.{ℤ, pos}
use egovframe_launcher.Catalog.{Target, Command}
use egovframe_launcher.Prog.{Prog, ret, ◌>>=◌}
use egovframe_launcher.Prog.Kept.{Kept-bind, Kept-ret, Kept-assoc}
use egovframe_launcher.Prog.Pool.{Pool, Reach, Reach-IsSafe}
use egovframe_launcher.Runner.Host.{Host}
use egovframe_launcher.Runner.Types.{building, done}
use egovframe_launcher.Runner.Sys.{Sys, job_for}
use egovframe_launcher.Runner.Api.{
  Reply, started, build_reply, run_reply, port_reply, port_answer, do_with_port, options_answer,
  do_with_options, follow,
}
use egovframe_launcher.Runner.Requests.{Request, view, act, act_on_port, halt, set_up_db}
use egovframe_launcher.Runner.Safety.{SysOk, Safe, job_for-Safe, state-Safe}
use egovframe_launcher.Runner.Safety.Files.{run_steps-Safe, run_clone-Safe}
use egovframe_launcher.Runner.Safety.Chain.{run_long-Safe}
use egovframe_launcher.Runner.Safety.Stop.{stop-Safe}
use egovframe_launcher.Runner.Safety.SetupRequest.{request_setup_db-Safe}

module _ (h : Host) where
  build_reply-Safe :
      (id : String) (t : Target) (cs : List Command) → Safe h (follow h (build_reply h id t cs))
  build_reply-Safe id t [] = Kept-ret tt
  build_reply-Safe id t (c ∷ cs) = run_steps-Safe h t building done (c ∷ cs)

  run_reply-Safe :
      (id : String) (t : Target) (cs : List Command) (custom : ℤ)
      → Safe h (follow h (run_reply h id t cs custom))
  run_reply-Safe id t [] custom = Kept-ret tt
  run_reply-Safe id t (c ∷ cs) custom = run_long-Safe h t (c ∷ cs) custom

  follow-if :
      (b : Bool) (x y : Reply h)
      → Safe h (follow h x)
      → Safe h (follow h y)
      → Safe h (follow h (if b then x else y))
  follow-if true x y kx ky = kx
  follow-if false x y kx ky = ky

  bind-if :
      (b : Bool) (m : Prog (Sys h) (Unit {0})) (n : Prog (Sys h) (Reply h))
      → Safe h m
      → Safe h (n >>= follow h)
      → Safe h ((if b then ret (started m) else n) >>= follow h)
  unfolding ◌>>=◌
  bind-if true m n km kn = km
  bind-if false m n km kn = kn

  port_reply-Safe :
      (id action : String) (custom : ℤ) (t : Target)
      → Safe h (follow h (port_reply h id action custom t))
  unfolding port_reply
  port_reply-Safe id action custom t =
      follow-if (str_eq action "build") _ _ (build_reply-Safe id t t.build)
        (follow-if (str_eq action "run") _ _ (run_reply-Safe id t t.run custom) (Kept-ret tt))

  port_answer-Safe :
      (id action : String) (custom : ℤ) (o : Option Target)
      → Safe h (follow h (port_answer h id action custom o))
  port_answer-Safe id action custom none = Kept-ret tt
  port_answer-Safe id action custom (some t) = port_reply-Safe id action custom t

  do_with_port-Safe :
      (id action : String) (custom : ℤ) → Safe h (do_with_port h id action custom >>= follow h)
  unfolding do_with_port
  do_with_port-Safe id action custom =
      Kept-assoc (job_for id) (λ o. ret (port_answer h id action custom o)) (follow h)
        (Kept-bind _ _ (job_for-Safe h id)
          (λ o. unfold ◌>>=◌ in port_answer-Safe id action custom o))

  options_answer-Safe :
      (id action : String) (clean : Bool) (o : Option Target)
      → Safe h (options_answer h id action clean o >>= follow h)
  unfolding ◌>>=◌
  options_answer-Safe id action clean none = Kept-ret tt
  options_answer-Safe id action clean (some t) =
      bind-if (str_eq action "clone") _ _ (run_clone-Safe h t clean)
        (do_with_port-Safe id action (pos 0))

  do_with_options-Safe :
      (id action : String) (clean : Bool) → Safe h (do_with_options h id action clean >>= follow h)
  unfolding do_with_options
  do_with_options-Safe id action clean =
      Kept-assoc (job_for id) (options_answer h id action clean) (follow h)
        (Kept-bind _ _ (job_for-Safe h id) (λ o. options_answer-Safe id action clean o))

  Request-Safe : (m : Prog (Sys h) (Unit {0})) → Request h m → Safe h m
  Request-Safe m (view id) = Kept-bind _ _ (state-Safe h id) (λ _. Kept-ret tt)
  Request-Safe m (act id action clean) = do_with_options-Safe id action clean
  Request-Safe m (act_on_port id action custom) = do_with_port-Safe id action custom
  Request-Safe m (halt id) = Kept-bind _ _ (stop-Safe h id) (λ _. Kept-ret tt)
  Request-Safe m (set_up_db tools r redis_turns rabbit_turns id) =
      request_setup_db-Safe h tools r redis_turns rabbit_turns id

  -- Start with no jobs and no goroutines, and let requests come and their goroutines run in any
  -- order, one step at a time. Then every job stands under the id of its target, its target is an
  -- entry of the catalog, and its log is a valid buffer of 2000 lines.
  pub Reach-SysOk :
      (start : Sys h) (p : Pool (Sys h))
      → start.jobs ≡ []
      → Reach (Request h) (record { shared = start; threads = [] }) p
      → SysOk p.shared
  Reach-SysOk start p fresh r = (Reach-IsSafe (Request h) SysOk Request-Safe (rw fresh tt, tt) r).0

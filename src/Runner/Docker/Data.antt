-- ===== src/Runner/Docker/Data.antt =====
-- What keeps the data of the MySQL container: launcher/internal/runner/runner.go.
use egovframe_launcher.Base.{
  ℕ, zero, suc, ◌+◌, ◌≡◌, String, ◌==◌, str_eq, Bool, true, false, not, ◌&&◌, ◌||◌, arith, Option,
  none, some, List, [], ◌∷◌, ltb,
}
use Prim.Native.Char.{code}
use egovframe_launcher.Base.Int.{ℤ}
use egovframe_launcher.Base.Text.{trim_space}
use egovframe_launcher.Prog.{Prog, ret, ◌>>=◌, skip}
use egovframe_launcher.Prog.Kept.{Kept, Kept-bind, Kept-then, Kept-if, Kept-ret, Kept-step}
use egovframe_launcher.Runner.Host.{Host, Cmd}
use egovframe_launcher.Runner.Sys.{Sys, ask, look, tell, log}
use egovframe_launcher.Runner.Ports.{port_listening}
use egovframe_launcher.Runner.Tools.{Tools, no_error, wrapped, go_on, and_then}
use egovframe_launcher.Runner.Docker.{
  report_ready, reuse_line, found_docker, daemon_runs, port_err, docker, inspect, poll_ready,
  rounds, poll_out, await_ready, create_fresh, restart, is_crashed, revive, by_status, port_taken,
  bring_up, start_or_reuse, check_docker, ensure_docker_container,
}
use egovframe_launcher.Runner.Docker.Services.{
  case_warning, mysql_spec, mysql_root, mysql_container, warn_table_case, ensure_mysql_container,
}

abbrev harmless_word : String → Bool
harmless_word a =
    str_eq a "info" || str_eq a "inspect" || str_eq a "run" || str_eq a "start" || str_eq a "exec"

abbrev pub begins : String → String → Bool
begins String.[] s = true
begins (String.◌∷◌ c p) String.[] = false
begins (String.◌∷◌ c p) (String.◌∷◌ d s) = code c == code d && begins p s

-- An SQL statement behind `-e` that drops.
abbrev pub drops : List String → Bool
drops [] = false
drops (a ∷ []) = false
drops (a ∷ b ∷ more) = str_eq a "-e" && begins "DROP" b || drops (b ∷ more)

abbrev harmless_args : List String → Bool
harmless_args [] = false
harmless_args (a ∷ as_) = harmless_word a && not (drops as_)

-- The Docker commands other than `docker rm` and the statements that drop a database.
abbrev pub is_harmless : Cmd → Bool
is_harmless cmd = str_eq cmd.name "docker" && harmless_args cmd.args

abbrev pub status_of : {h : Host} → Tools h → h.World → String
status_of tools w = trim_space (tools.stdout (inspect "{{.State.Status}}" mysql_container) w).0.0

module _ (h : Host) (tools : Tools h) (P : h.World → Type 0) where
  -- Dials, sleeps, the import of a script and the Docker commands that neither remove a container
  -- nor drop a database keep `P`, and in a world of `P` Docker does not show the MySQL container as
  -- one that was created and never ran.
  pub record Guarded : Type 0 where
    pub run_cmd : (c : Cmd) (w : h.World) → is_harmless c ≡ true → P w → P (tools.run_cmd c w).1
    pub stdout : (c : Cmd) (w : h.World) → is_harmless c ≡ true → P w → P (tools.stdout c w).1
    pub combined : (c : Cmd) (w : h.World) → is_harmless c ≡ true → P w → P (tools.combined c w).1
    pub with_stdin :
        (c : Cmd) (text : String) (w : h.World)
        → is_harmless c ≡ true
        → P w
        → P (tools.with_stdin c text w).1
    pub dial : (port : ℤ) (n : ℕ) (w : h.World) → P w → P (h.dial port n w).1
    pub sleep : (n : ℕ) (w : h.World) → P w → P (h.sleep n w)
    pub has_run : (w : h.World) → P w → str_eq (status_of tools w) "created" ≡ false

  abbrev pub Keeps : {A : Type 0} → Prog (Sys h) A → Type 0
  Keeps m = Kept (λ s. P s.world) m

  module _ (g : Guarded) where
    pub log-Keeps : (id line : String) → Keeps (log {h = h} id line)
    log-Keeps id line = Kept-step _ _ (λ s p. p) (λ s p. Kept-ret tt)

    pub look-Keeps : {A : Type 0} (op : h.World → A) → Keeps (look {h = h} op)
    look-Keeps op = Kept-step _ _ (λ s p. p) (λ s p. Kept-ret _)

    pub ask-Keeps :
        {A : Type 0} (op : h.World → A × h.World)
        → ((w : h.World) → P w → P (op w).1)
        → Keeps (ask {h = h} op)
    ask-Keeps op k = Kept-step _ _ (λ s p. k s.world p) (λ s p. Kept-ret _)

    run-Keeps : (c : Cmd) → is_harmless c ≡ true → Keeps (ask {h = h} (tools.run_cmd c))
    run-Keeps c e = ask-Keeps _ (λ w p. g.run_cmd c w e p)

    stdout-Keeps : (c : Cmd) → is_harmless c ≡ true → Keeps (ask {h = h} (tools.stdout c))
    stdout-Keeps c e = ask-Keeps _ (λ w p. g.stdout c w e p)

    pub combined-Keeps : (c : Cmd) → is_harmless c ≡ true → Keeps (ask {h = h} (tools.combined c))
    combined-Keeps c e = ask-Keeps _ (λ w p. g.combined c w e p)

    pub go_on-Keeps :
        (next : Prog (Sys h) (Option String)) (o : Option String)
        → Keeps next
        → Keeps (go_on next o)
    go_on-Keeps next none k = k
    go_on-Keeps next (some e) k = Kept-ret _

    create-Keeps : (id : String) → Keeps (create_fresh tools id (mysql_spec tools))
    unfolding create_fresh mysql_spec
    create-Keeps id = Kept-then (log-Keeps id _) (
        Kept-bind _ _ (combined-Keeps (docker (mysql_spec tools).run_args) (ground arith))
          (λ made. Kept-ret (wrapped "MySQL 컨테이너 생성 실패" made)))

    restart-Keeps : (id : String) → Keeps (restart tools id (mysql_spec tools))
    unfolding restart mysql_spec
    restart-Keeps id = Kept-then (log-Keeps id _) (
        Kept-bind _ _ (combined-Keeps (docker ("start" ∷ mysql_container ∷ [])) (ground arith))
          (λ made. Kept-ret (wrapped "MySQL 컨테이너 재시작 실패" made)))

    -- The MySQL container is not one to be made again after a crash.
    revive-Keeps : (id : String) → Keeps (revive tools id (mysql_spec tools))
    unfolding revive is_crashed mysql_spec ◌>>=◌
    revive-Keeps id = restart-Keeps id

    by_status-Keeps :
        (id status : String)
        → str_eq status "created" ≡ false
        → Keeps (by_status tools id (mysql_spec tools) status)
    by_status-Keeps id status e =
        rw e (Kept-if (str_eq status "") _ _ (create-Keeps id) (revive-Keeps id))

    status-Keeps :
        (id : String)
        → Keeps (
            ask {h = h} (tools.stdout (inspect "{{.State.Status}}" mysql_container)) >>= λ status.
            by_status tools id (mysql_spec tools) (trim_space status.0))
    unfolding ◌>>=◌
    status-Keeps id =
        Kept-step _ _ (λ s p. g.stdout _ s.world (ground arith) p)
          (λ s p. by_status-Keeps id _ (g.has_run s.world p))

    bring_up-Keeps : (id : String) → Keeps (bring_up tools id (mysql_spec tools))
    unfolding bring_up port_taken port_listening mysql_spec
    bring_up-Keeps id = Kept-bind _ _ (ask-Keeps _ (λ w p. g.dial _ _ w p)) (λ taken.
        Kept-if taken _ _ (Kept-ret (some (port_err (mysql_spec tools)))) (status-Keeps id))

    start-Keeps : (id : String) → Keeps (start_or_reuse tools id (mysql_spec tools))
    unfolding start_or_reuse
    start-Keeps id =
        Kept-bind _ _
          (stdout-Keeps (inspect "{{.State.Running}}" (mysql_spec tools).name) (ground arith))
          (λ running.
            Kept-if (str_eq (trim_space running.0) "true") _ _
              (Kept-then (log-Keeps id (reuse_line (mysql_spec tools))) (Kept-ret none))
              (bring_up-Keeps id))

    sleep-Keeps : Keeps (tell {h = h} (h.sleep 2000))
    sleep-Keeps = Kept-step _ _ (λ s p. g.sleep 2000 s.world p) (λ s p. Kept-ret tt)

    poll-Keeps : (fuel deadline : ℕ) → Keeps (poll_ready fuel (mysql_spec tools) deadline)
    unfolding poll_ready mysql_spec ◌>>=◌
    poll-Keeps zero deadline = Kept-ret false
    poll-Keeps (suc fuel) deadline = Kept-bind _ _ (look-Keeps h.now) (λ now.
        Kept-if (ltb now deadline) _ _
          (Kept-bind _ _
            (Kept-bind _ _ (run-Keeps (mysql_root ("-e" ∷ "SELECT 1" ∷ [])) (ground arith))
              (λ e. Kept-ret (no_error e)))
            (λ up.
              Kept-if up _ _ (Kept-ret true) (Kept-then sleep-Keeps (poll-Keeps fuel deadline))))
          (Kept-ret false))

    report-Keeps : (id : String) (b : Bool) → Keeps (report_ready id (mysql_spec tools) b)
    report-Keeps id true = Kept-bind _ _ (log-Keeps id _) (λ _. Kept-ret none)
    report-Keeps id false = Kept-ret _

    poll_out-Keeps : (id : String) → Keeps (poll_out id (mysql_spec tools))
    unfolding poll_out
    poll_out-Keeps id = Kept-bind _ _ (look-Keeps h.now) (λ now.
        Kept-bind _ _ (poll-Keeps (rounds (mysql_spec tools)) (now + (mysql_spec tools).timeout))
          (λ up. report-Keeps id up))

    await-Keeps : (id : String) → Keeps (await_ready id (mysql_spec tools))
    unfolding await_ready mysql_spec
    await-Keeps id =
        Kept-then {m = skip} (Kept-ret tt) (Kept-then (log-Keeps id _) (poll_out-Keeps id))

    found-Keeps :
        (o : Option String)
        → Keeps (
            and_then (found_docker tools o) (
              ask {h = h} (tools.run_cmd (docker ("info" ∷ []))) >>= λ down.
              ret (daemon_runs tools down)))
    unfolding ◌>>=◌
    found-Keeps none =
        Kept-step _ _ (λ s p. g.run_cmd _ s.world (ground arith) p) (λ s p. Kept-ret _)
    found-Keeps (some e) = Kept-ret _

    docker-Keeps : Keeps (check_docker tools)
    unfolding check_docker ◌>>=◌
    docker-Keeps = Kept-bind _ _ (look-Keeps (tools.look_path "docker")) (λ o. found-Keeps o)

    case-Keeps : (id : String) → Keeps (warn_table_case tools id)
    unfolding warn_table_case
    case-Keeps id =
        Kept-bind _ _
          (stdout-Keeps (mysql_root ("-N" ∷ "-e" ∷ "SELECT @@lower_case_table_names" ∷ []))
            (ground arith))
          (λ mode.
            Kept-then
              (Kept-if (str_eq (trim_space mode.0) "0") _ _ (log-Keeps id case_warning)
                (Kept-ret tt))
              (Kept-ret none))

    ensure-Keeps : (id : String) → Keeps (ensure_docker_container tools id (mysql_spec tools))
    unfolding ensure_docker_container
    ensure-Keeps id = Kept-bind _ _ docker-Keeps (λ o.
        go_on-Keeps _ o (Kept-bind _ _ (start-Keeps id) (λ r. go_on-Keeps _ r (await-Keeps id))))

    pub ensure_mysql_container-Keeps : (id : String) → Keeps (ensure_mysql_container tools id)
    unfolding ensure_mysql_container
    ensure_mysql_container-Keeps id =
        Kept-bind _ _ (ensure-Keeps id) (λ r. go_on-Keeps _ r (case-Keeps id))

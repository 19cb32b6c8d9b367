-- ===== src/Runner/Safety/Docker.antt =====
-- The containers keep the invariant of the job map: launcher/internal/runner/runner.go.
use egovframe_launcher.Base.{
  ℕ, zero, suc, ◌+◌, ◌<>◌, String, str_eq, Bool, true, false, not, ◌&&◌, ltb, Option, none, some,
  [], ◌∷◌,
}
use egovframe_launcher.Base.Int.{ℤ, is_pos}
use egovframe_launcher.Base.Text.{trim_space, contains}
use egovframe_launcher.Prog.{Prog, ret, ◌>>=◌}
use egovframe_launcher.Prog.Kept.{Kept-bind, Kept-then, Kept-if, Kept-ret}
use egovframe_launcher.Runner.Host.{Host}
use egovframe_launcher.Runner.Sys.{Sys, ask}
use egovframe_launcher.Runner.Ports.{port_listening}
use egovframe_launcher.Runner.Tools.{Tools, wrapped, no_error, go_on, and_then}
use egovframe_launcher.Runner.Docker.{
  ContainerSpec, docker, inspect, remove, reuse_line, port_err, report_ready, poll_ready, rounds,
  poll_out, await_ready, run_after_start, create_fresh, replace, restart, is_crashed, revive,
  by_status, port_taken, bring_up, start_or_reuse, found_docker, daemon_runs, check_docker,
  ensure_docker_container,
}
use egovframe_launcher.Runner.Docker.Services.{
  redis_ping_args, rabbit_ping_args, app_user_sql, drop_sql, create_sql, mysql_spec, redis_spec,
  rabbit_spec, mysql_root, case_warning, warn_table_case, ensure_mysql_container,
  ensure_redis_container, ensure_rabbitmq_container, ensure_mysql_app_user, drop_create_schema,
}
use egovframe_launcher.Runner.Safety.{Safe, ask-Safe, look-Safe, tell-Safe, log-Safe}

module _ (h : Host) where
  pub go_on-Safe :
      (next : Prog (Sys h) (Option String)) (o : Option String)
      → Safe h next
      → Safe h (go_on next o)
  go_on-Safe next none k = k
  go_on-Safe next (some e) k = Kept-ret _

  pub and_then-Safe :
      (first next : Prog (Sys h) (Option String))
      → Safe h first
      → Safe h next
      → Safe h (and_then first next)
  and_then-Safe first next kf kn = Kept-bind first _ kf (λ o. go_on-Safe next o kn)

  -- A call of the host whose result is all that counts.
  pub asked-Safe :
      {A B : Type 0} (op : h.World → A × h.World) (g : A → B)
      → Safe h (ask {h = h} op >>= λ a. ret (g a))
  asked-Safe op g = Kept-bind _ _ (ask-Safe h op) (λ a. Kept-ret (g a))

  module _ (spec : ContainerSpec h) (ready : Safe h spec.ready) where
    poll-Safe : (fuel deadline : ℕ) → Safe h (poll_ready fuel spec deadline)
    unfolding poll_ready
    poll-Safe zero deadline = Kept-ret false
    poll-Safe (suc fuel) deadline = Kept-bind _ _ (look-Safe h h.now) (λ now.
        Kept-if (ltb now deadline) _ _
          (Kept-bind _ _ ready (λ up.
            Kept-if up _ _ (Kept-ret true)
              (Kept-then (tell-Safe h (h.sleep spec.poll_interval)) (poll-Safe fuel deadline))))
          (Kept-ret false))

    report-Safe : (id : String) (up : Bool) → Safe h (report_ready id spec up)
    report-Safe id true = Kept-then (log-Safe h id _) (Kept-ret none)
    report-Safe id false = Kept-ret _

    poll_out-Safe : (id : String) → Safe h (poll_out id spec)
    unfolding poll_out
    poll_out-Safe id = Kept-bind _ _ (look-Safe h h.now) (λ now.
        Kept-bind _ _ (poll-Safe (rounds spec) (now + spec.timeout)) (λ up. report-Safe id up))

    module _ (after : (id : String) → Safe h (run_after_start id spec spec.after_start))
        (tools : Tools h) where
      await-Safe : (id : String) → Safe h (await_ready id spec)
      unfolding await_ready
      await-Safe id = Kept-then (after id) (Kept-then (log-Safe h id _) (poll_out-Safe id))

      create-Safe : (id : String) → Safe h (create_fresh tools id spec)
      unfolding create_fresh
      create-Safe id = Kept-then (log-Safe h id _) (
          asked-Safe (tools.combined (docker spec.run_args))
            (wrapped (spec.display_name <> " 컨테이너 생성 실패")))

      replace-Safe : (id line : String) → Safe h (replace tools id spec line)
      unfolding replace
      replace-Safe id line =
          Kept-then (log-Safe h id line)
            (Kept-bind _ _ (ask-Safe h (tools.run_cmd (remove spec.name))) (λ _. create-Safe id))

      restart-Safe : (id : String) → Safe h (restart tools id spec)
      unfolding restart
      restart-Safe id = Kept-then (log-Safe h id _) (
          asked-Safe (tools.combined (docker ("start" ∷ spec.name ∷ [])))
            (wrapped (spec.display_name <> " 컨테이너 재시작 실패")))

      crashed-Safe : Safe h (is_crashed tools spec)
      unfolding is_crashed
      crashed-Safe =
          Kept-if spec.recreate_on_crash _ _
            (asked-Safe (tools.stdout (inspect "{{.State.ExitCode}}" spec.name))
              (λ code. not (str_eq (trim_space code.0) "0")))
            (Kept-ret false)

      revive-Safe : (id : String) → Safe h (revive tools id spec)
      unfolding revive
      revive-Safe id =
          Kept-bind _ _ crashed-Safe
            (λ crashed. Kept-if crashed _ _ (replace-Safe id _) (restart-Safe id))

      status-Safe : (id status : String) → Safe h (by_status tools id spec status)
      status-Safe id status =
          Kept-if (str_eq status "") _ _ (create-Safe id)
            (Kept-if (str_eq status "created") _ _ (replace-Safe id _) (revive-Safe id))

      taken-Safe : Safe h (port_taken tools spec)
      unfolding port_taken port_listening
      taken-Safe =
          Kept-if (is_pos spec.host_port) _ _ (ask-Safe h (h.dial spec.host_port 500))
            (Kept-ret false)

      bring_up-Safe : (id : String) → Safe h (bring_up tools id spec)
      unfolding bring_up
      bring_up-Safe id = Kept-bind _ _ taken-Safe (λ taken.
          Kept-if taken _ _ (Kept-ret (some (port_err spec))) (
            Kept-bind _ _ (ask-Safe h (tools.stdout (inspect "{{.State.Status}}" spec.name)))
              (λ status. status-Safe id (trim_space status.0))))

      start-Safe : (id : String) → Safe h (start_or_reuse tools id spec)
      unfolding start_or_reuse
      start-Safe id =
          Kept-bind _ _ (ask-Safe h (tools.stdout (inspect "{{.State.Running}}" spec.name)))
            (λ running.
              Kept-if (str_eq (trim_space running.0) "true") _ _
                (Kept-then (log-Safe h id (reuse_line spec)) (Kept-ret none)) (bring_up-Safe id))

      found-Safe : (o : Option String) → Safe h (found_docker tools o)
      found-Safe none = Kept-ret none
      found-Safe (some e) = Kept-ret _

      check-Safe : Safe h (check_docker tools)
      unfolding check_docker
      check-Safe = Kept-bind _ _ (look-Safe h (tools.look_path "docker")) (λ o.
          and_then-Safe _ _ (found-Safe o)
            (asked-Safe (tools.run_cmd (docker ("info" ∷ []))) (daemon_runs tools)))

      pub ensure_docker_container-Safe :
          (id : String) → Safe h (ensure_docker_container tools id spec)
      unfolding ensure_docker_container
      ensure_docker_container-Safe id = Kept-bind _ _ check-Safe (λ o.
          go_on-Safe _ o (Kept-bind _ _ (start-Safe id) (λ e. go_on-Safe _ e (await-Safe id))))

  module _ (tools : Tools h) where
    case-Safe : (id : String) → Safe h (warn_table_case tools id)
    unfolding warn_table_case
    case-Safe id =
        Kept-bind _ _
          (ask-Safe h
            (tools.stdout (mysql_root ("-N" ∷ "-e" ∷ "SELECT @@lower_case_table_names" ∷ []))))
          (λ mode.
            Kept-then
              (Kept-if (str_eq (trim_space mode.0) "0") _ _ (log-Safe h id case_warning)
                (Kept-ret tt))
              (Kept-ret none))

    pub ensure_mysql_container-Safe : (id : String) → Safe h (ensure_mysql_container tools id)
    unfolding ensure_mysql_container mysql_spec
    ensure_mysql_container-Safe id =
        Kept-bind _ _
          (ensure_docker_container-Safe (mysql_spec tools)
            (asked-Safe (tools.run_cmd (mysql_root ("-e" ∷ "SELECT 1" ∷ []))) no_error)
            (λ id. Kept-ret tt) tools id)
          (λ o. go_on-Safe _ o (case-Safe id))

    pub ensure_redis_container-Safe :
        (port : ℤ) (password id : String) → Safe h (ensure_redis_container tools port password id)
    unfolding ensure_redis_container redis_spec
    ensure_redis_container-Safe port password id =
        ensure_docker_container-Safe (redis_spec tools port password)
          (asked-Safe (tools.combined (docker (redis_ping_args password)))
            (λ said. no_error said.1 && contains said.0 "PONG"))
          (λ id. Kept-ret tt) tools id

    pub ensure_rabbitmq_container-Safe : (id : String) → Safe h (ensure_rabbitmq_container tools id)
    unfolding ensure_rabbitmq_container rabbit_spec
    ensure_rabbitmq_container-Safe id =
        ensure_docker_container-Safe (rabbit_spec tools)
          (asked-Safe (tools.run_cmd (docker rabbit_ping_args)) no_error) (λ id. Kept-ret tt) tools
          id

    pub ensure_mysql_app_user-Safe :
        (user pass : String) → Safe h (ensure_mysql_app_user tools user pass)
    unfolding ensure_mysql_app_user
    ensure_mysql_app_user-Safe user pass =
        asked-Safe (tools.combined (mysql_root ("-e" ∷ app_user_sql user pass ∷ [])))
          (wrapped "MySQL 사용자 생성 실패")

    pub drop_create_schema-Safe :
        (db_name id : String) → Safe h (drop_create_schema tools db_name id)
    unfolding drop_create_schema
    drop_create_schema-Safe db_name id = Kept-then (log-Safe h id _) (
        Kept-bind _ _ (ask-Safe h (tools.combined (mysql_root ("-e" ∷ drop_sql db_name ∷ []))))
          (λ _.
            asked-Safe (tools.combined (mysql_root ("-e" ∷ create_sql db_name ∷ [])))
              (wrapped "데이터베이스 생성 실패")))

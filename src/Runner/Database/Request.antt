-- ===== src/Runner/Database/Request.antt =====
-- The request that sets a database up: setupDB and SetupDB of launcher/internal/runner/runner.go.
use egovframe_launcher.Base.{
  String, ◌<>◌, str_eq, Bool, true, false, ◌&&◌, Option, none, some, List, [], ◌∷◌, if◌then◌else◌,
}
use egovframe_launcher.Base.Int.{ℤ, pos, is_pos}
use egovframe_launcher.Catalog.{Target, Command, targets}
use egovframe_launcher.Prog.{Prog, ret, ◌>>=◌, ◌>>◌, skip}
use egovframe_launcher.Prog.Beside.{beside}
use egovframe_launcher.Runner.Host.{Host}
use egovframe_launcher.Runner.Types.{error, building, done}
use egovframe_launcher.Runner.Sys.{Sys, look, log, set, dir, job_for}
use egovframe_launcher.Runner.Exec.{exec_all}
use egovframe_launcher.Runner.Tools.{Tools, no_error}
use egovframe_launcher.Runner.Docker.Services.{ensure_redis_container}
use egovframe_launcher.Runner.Api.{Reply, rejected, started}
use egovframe_launcher.Runner.Database.{
  Reader, DbKind, war, script, compose, bootprops, Pattern, detect_db_pattern,
}
use egovframe_launcher.Runner.Database.Parse.{parse_redis_config}
use egovframe_launcher.Runner.Database.Setup.{setup_project_database}
use egovframe_launcher.Runner.Database.Served.{setup_compose_database, setup_boot_props_database}

-- The port of the first target whose backend is `id`; 0 if there is none.
unfoldable pub frontend_port : String → List Target → ℤ
frontend_port id [] = pos 0
frontend_port id (t ∷ ts) =
    let rest = frontend_port id ts in if str_eq t.backend_id id then pos t.port else rest

abbrev pub no_commands : List Command → Bool
no_commands [] = true
no_commands (c ∷ cs) = false

abbrev pub compose_line : Target → String
compose_line t =
    if no_commands t.run && str_eq t.deploy_type "lib"
    then "[success] DB 설정 완료 — 이 템플릿은 원클릭 실행 미지원입니다. VSCode로 열어 README의 구동 절차를 따르세요"
    else "[success] DB 설정 완료 — 재빌드 불필요, 바로 Run 하세요"

module _ {h : Host} (tools : Tools h) (r : Reader h) where
  -- The end of the goroutine, on the error of the set-up.
  abbrev pub conclude : Target → Prog (Sys h) (Unit {0}) → Option String → Prog (Sys h) (Unit {0})
  conclude t rest none = rest >> set t.id done ""
  conclude t rest (some e) = set t.id error ("DB 구성 실패: " <> e)

  abbrev pub warn_redis : String → Option String → Prog (Sys h) (Unit {0})
  warn_redis id none = skip
  warn_redis id (some e) = log id ("[warn] Redis 자동 기동 실패: " <> e)

  abbrev pub start_redis : String → ℤ × String → Prog (Sys h) (Unit {0})
  start_redis id (port, pass) =
      if is_pos port then (ensure_redis_container tools port pass id >>= warn_redis id) else skip

  abbrev pub compose_db : List Bool → List Bool → Target → String → Prog (Sys h) (Unit {0})
  compose_db redis_turns rabbit_turns t d = parse_redis_config r d >>= λ redis.
      beside redis_turns (start_redis t.id redis)
        (setup_compose_database tools r rabbit_turns d t.id)
      >>= conclude t (log t.id (compose_line t))

  abbrev pub rebuild : Target → Prog (Sys h) (Unit {0})
  rebuild t =
      log t.id "[info] DB 설정 반영을 위해 재빌드합니다..."
      >> exec_all h t t.build
      >> log t.id "[success] DB 설정 및 재빌드 완료 — 이제 배포할 수 있습니다"

  -- The `switch` of `setupDB`.
  unfoldable pub set_up_kind :
      List Bool → List Bool → Target → String → DbKind → Pattern → Prog (Sys h) (Unit {0})
  unfolding ◌>>=◌
  set_up_kind redis_turns rabbit_turns t d compose p = compose_db redis_turns rabbit_turns t d
  set_up_kind redis_turns rabbit_turns t d bootprops p =
      setup_boot_props_database tools r p.sql_dir p.schema p.props_path (frontend_port t.id targets)
        t.id
      >>= conclude t (log t.id "[success] DB 설정 완료 — Run(재기동)하면 반영됩니다")
  set_up_kind redis_turns rabbit_turns t d script p =
      setup_project_database tools r d t.id
      >>= conclude t (log t.id "[success] DB 설정 완료 — 재빌드 불필요, 바로 배포/Run 하세요")
  set_up_kind redis_turns rabbit_turns t d war p =
      setup_project_database tools r d t.id >>= conclude t (rebuild t)

  abbrev pub set_up :
      List Bool → List Bool → Target → String → Option Pattern → Prog (Sys h) (Unit {0})
  set_up redis_turns rabbit_turns t d none = set t.id error "이 프로젝트는 DB 설정이 필요하지 않습니다"
  set_up redis_turns rabbit_turns t d (some p) =
      set t.id building "DB 구성 중..." >> set_up_kind redis_turns rabbit_turns t d p.kind p

  -- `Runner.setupDB`, the goroutine.
  unfoldable pub setup_db : List Bool → List Bool → Target → Prog (Sys h) (Unit {0})
  unfolding ◌>>=◌
  setup_db redis_turns rabbit_turns t = do
    d ← dir t.id
    absent ← look (r.stat_error d)
    if no_error absent
        then (do pattern_ ← detect_db_pattern r d; set_up redis_turns rabbit_turns t d pattern_)
        else set t.id error "먼저 Clone 하세요"

  abbrev pub setup_reply : List Bool → List Bool → String → Option Target → Reply h
  setup_reply redis_turns rabbit_turns id none = rejected ("unknown target: " <> id)
  setup_reply redis_turns rabbit_turns id (some t) = started (setup_db redis_turns rabbit_turns t)

  -- `Runner.SetupDB`
  unfoldable pub request_setup_db : List Bool → List Bool → String → Prog (Sys h) (Reply h)
  unfolding ◌>>=◌
  request_setup_db redis_turns rabbit_turns id = do
    found ← job_for id
    ret (setup_reply redis_turns rabbit_turns id found)

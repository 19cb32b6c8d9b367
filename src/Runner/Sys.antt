-- ===== src/Runner/Sys.antt =====
-- The runner's state in launcher/internal/runner/runner.go, and the single steps of its handlers:
-- each takes a lock once, or asks the host once. A job is reached through the id under which the
-- map holds it; jobs are never removed, so the pointer that a handler keeps stays good.
use egovframe_launcher.Base.{
  String, ◌<>◌, Bool, true, false, not, ◌&&◌, Option, none, some, List, [], ◌∷◌, str_eq,
  if◌then◌else◌,
}
use egovframe_launcher.Base.Dict.{lookup, insert, modify}
use egovframe_launcher.Base.Int.{is_zero, pos}
use egovframe_launcher.Catalog.{Target, targets, find_id}
use egovframe_launcher.LogBuf
use egovframe_launcher.LogBuf.{Buf}
use egovframe_launcher.Persist
use egovframe_launcher.Persist.{Config, Vars}
use egovframe_launcher.Prog.{Prog, ret, quit, step, ◌>>=◌, ◌>>◌, change, reads, skip}
use egovframe_launcher.Runner.Host.{Host}
use egovframe_launcher.Runner.Types.{Status, idle, error, JobView, Job, new_job}

pub record Sys (h : Host) : Type 0 where
  pub world : h.World
  pub settings : Vars
  pub workspace : String
  pub skip_tests : Bool
  pub java_home : String
  pub jobs : List (String × Job)
  pub needs_db_cache : List (String × Bool)  -- `needsDBCache`

abbrev pub append_log : String → Job → Job
append_log line j = record j { logs = LogBuf.append line j.logs }

abbrev pub or_else : Option Job → Option Target → Option Target
or_else none t = t
or_else (some j) t = some j.target

abbrev pub is_error : Status → Bool
is_error error = true
is_error _ = false

abbrev view : String → Option Job → JobView
view id none = record { id = id; status = idle; port = pos 0; err = ""; open_path = "" }
view id (some j) = record {
  id = id;
  status = j.status;
  port = if is_zero j.port then pos j.target.port else j.port;
  err = j.err;
  open_path = j.open_path;
}

abbrev log_or_new : Option Job → Buf
log_or_new none = LogBuf.new (pos 1)
log_or_new (some j) = j.logs

module _ {h : Host} where
  abbrev pub with_job : String → (Job → Job) → Sys h → Sys h
  with_job id f s = record s { jobs = modify id f s.jobs }

  -- One write, or one locked group of writes, to the job's fields.
  abbrev pub edit : String → (Job → Job) → Prog (Sys h) (Unit {0})
  edit id f = change (with_job id f)

  -- `j.logs.Append(line)`
  abbrev pub log : String → String → Prog (Sys h) (Unit {0})
  log id line = edit id (append_log line)

  unfoldable pub log_each : String → List String → Prog (Sys h) (Unit {0})
  unfolding ◌>>=◌
  log_each id [] = skip
  log_each id (line ∷ more) = do log id line; log_each id more

  -- A call that may change the world, and one that only looks.
  abbrev pub ask : {A : Type 0} → (h.World → A × h.World) → Prog (Sys h) A
  ask op = step (λ s. record s { world = (op s.world).1 }) (λ s. ret (op s.world).0)

  abbrev pub look : {A : Type 0} → (h.World → A) → Prog (Sys h) A
  look op = reads (λ s. op s.world)

  abbrev pub tell : (h.World → h.World) → Prog (Sys h) (Unit {0})
  tell op = change (λ s. record s { world = op s.world })

  abbrev pub or_quit : {A : Type 0} → (Job → A) → Option Job → Prog (Sys h) A
  or_quit g none = quit
  or_quit g (some j) = ret (g j)

  abbrev pub read_job : {A : Type 0} → String → (Job → A) → Prog (Sys h) A
  read_job id g = step (λ s. s) (λ s. or_quit g (lookup id s.jobs))

  abbrev pub make_job : String → Option Job → Option Target → Sys h → Sys h
  make_job id (some j) t s = s
  make_job id none none s = s
  make_job id none (some t) s = record s { jobs = insert id (new_job t) s.jobs }

  -- `jobFor`: the target of the job, which is made on first use; `none` for an unknown id.
  unfoldable pub job_for : String → Prog (Sys h) (Option Target)
  job_for id =
      step (λ s. make_job id (lookup id s.jobs) (find_id id targets) s)
        (λ s. ret (or_else (lookup id s.jobs) (find_id id targets)))

  -- `job.set`
  unfoldable pub set : String → Status → String → Prog (Sys h) (Unit {0})
  unfolding ◌>>=◌
  set id st msg = do
    edit id (λ j. record j { status = st; err = msg })
    if is_error st && not (str_eq msg "")
        then (do
          last ← read_job id (λ j. LogBuf.last_line j.logs)
          if str_eq last ("[error] " <> msg) then skip else log id ("[error] " <> msg))
        else skip

  -- `Runner.State`
  unfoldable pub state : String → Prog (Sys h) JobView
  unfolding ◌>>=◌
  state id = do _ ← job_for id; reads (λ s. view id (lookup id s.jobs))

  -- `Runner.Logs`, the buffer as it is at the call.
  unfoldable pub logs_of : String → Prog (Sys h) Buf
  unfolding ◌>>=◌
  logs_of id = do _ ← job_for id; reads (λ s. log_or_new (lookup id s.jobs))

  -- `Runner.dir`
  unfoldable pub dir : String → Prog (Sys h) String
  dir id = reads (λ s. h.join (s.workspace ∷ id ∷ []))

  -- `persist.Load`, with the whole file system behind one step.
  unfoldable pub load_settings : Prog (Sys h) Config
  load_settings =
      step (λ s. record s { settings = (Persist.load h.disk (h.files s.world) s.settings).1 })
        (λ s. ret (Persist.load h.disk (h.files s.world) s.settings).0)

  abbrev pub save_step : Config → Sys h → Sys h
  save_step c s =
      let (err, v, files) = Persist.save h.disk c s.settings (h.files s.world) in
      record s { settings = v; world = h.set_files files s.world }

  -- `_ = persist.Update(f)`: two locked steps, and the error is dropped.
  unfoldable pub update_settings : (Config → Config) → Prog (Sys h) (Unit {0})
  unfolding ◌>>=◌
  update_settings f = do c ← reads (λ s. s.settings.current); change (save_step (f c))

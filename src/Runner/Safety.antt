-- ===== src/Runner/Safety.antt =====
-- The invariant of the job map in launcher/internal/runner/runner.go, and the steps that keep it.
pub mod Exec
pub mod Files
pub mod Chain
pub mod Stop
pub mod Docker
pub mod Database
pub mod SetupDb
pub mod SetupRequest
pub mod Requests
use egovframe_launcher.Base.{
  ℕ, String, ◌≡◌, refl, sym, ◌∙◌, ap, Bool, true, false, Option, none, some, List, [], ◌∷◌, All,
  arith, str_eq, eq_iff, Bool-cases, Option-cases, inl, inr, not, ◌&&◌, ◌<>◌, if◌then◌else◌,
}
use egovframe_launcher.Base.Dict.{lookup, insert, modify}
use mathlib.Core.List.{Memᴰ}
use egovframe_launcher.Catalog.{Target, targets, find_id}
use egovframe_launcher.Catalog.Lookup.{find_id_sound}
use egovframe_launcher.LogBuf
use egovframe_launcher.LogBuf.{Buf, new}
use egovframe_launcher.LogBuf.Steps.{IsValid, append-IsValid, new-IsValid}
use egovframe_launcher.LogBuf.Tail.{append-cap}
use egovframe_launcher.Base.Int.{pos}
use egovframe_launcher.Persist.{Config}
use egovframe_launcher.Prog.{Prog, ret, quit, step, ◌>>=◌, reads}
use egovframe_launcher.Prog.Kept.{
  Kept, Kept-bind, Kept-then, Kept-if, Kept-ret, Kept-quit, Kept-step, keeping,
}
use egovframe_launcher.Runner.Host.{Host}
use egovframe_launcher.Runner.Types.{Status, Job, new_job}
use egovframe_launcher.Runner.Sys.{
  Sys, with_job, edit, append_log, log, log_each, ask, look, tell, read_job, or_quit, job_for,
  or_else, is_error, make_job, save_step, set, state, dir, load_settings, update_settings,
}

-- The job stands under the id of its target, the target is an entry of the catalog, and the log is
-- a valid buffer of 2000 lines.
pub record JobOk (id : String) (j : Job) : Type 0 where
  pub keyed : j.target.id ≡ id
  pub listed : Memᴰ j.target targets
  pub logged : IsValid j.logs
  pub bounded : j.logs.cap ≡ 2000

abbrev pub EntryOk : String × Job → Type 0
EntryOk (id, j) = JobOk id j

abbrev pub SysOk : {h : Host} → Sys h → Type 0
SysOk s = All EntryOk s.jobs

append_log-JobOk :
    (line : String) {id : String} {j : Job} → JobOk id j → JobOk id (append_log line j)
append_log-JobOk line {j} v = record {
  keyed = v.keyed;
  listed = v.listed;
  logged = append-IsValid line j.logs v.logged;
  bounded = append-cap line j.logs ∙ v.bounded;
}

new_job-JobOk : (t : Target) → Memᴰ t targets → JobOk t.id (new_job t)
unfolding new_job
new_job-JobOk t m = record {
  keyed = refl;
  listed = m;
  logged = new-IsValid (pos 2000);
  bounded = unfold new in refl;
}

modify-All :
    (id : String) (f : Job → Job) (jobs : List (String × Job))
    → ((j : Job) → JobOk id j → JobOk id (f j))
    → All EntryOk jobs
    → All EntryOk (modify id f jobs)
unfolding modify
modify-All id f [] keep ok = tt
modify-All id f ((k, j) ∷ jobs) keep (o, ok) = elim (Bool-cases (str_eq k id)) [
  | inl same ↦ rw same (rw ((eq_iff k id).0 same) (keep j (rw ((eq_iff k id).0 same) at o)), ok)
  | inr other ↦ rw other (o, modify-All id f jobs keep ok)
]

insert-All :
    (id : String) (j : Job) (jobs : List (String × Job))
    → JobOk id j
    → All EntryOk jobs
    → All EntryOk (insert id j jobs)
unfolding insert
insert-All id j [] new ok = (new, tt)
insert-All id j ((k, i) ∷ jobs) new (o, ok) = elim (Bool-cases (str_eq k id)) [
  | inl same ↦ rw same (rw ((eq_iff k id).0 same) new, ok)
  | inr other ↦ rw other (o, insert-All id j jobs new ok)
]

module _ (h : Host) where
  abbrev pub Safe : {A : Type 0} → Prog (Sys h) A → Type 0
  Safe m = Kept SysOk m

  pub edit-Safe :
      (id : String) (f : Job → Job)
      → ((j : Job) → JobOk id j → JobOk id (f j))
      → Safe (edit {h = h} id f)
  edit-Safe id f keep = Kept-step _ _ (λ s ok. modify-All id f s.jobs keep ok) (λ s ok. Kept-ret tt)

  pub ask-Safe : {A : Type 0} (op : h.World → A × h.World) → Safe (ask {h = h} op)
  ask-Safe op = Kept-step _ _ (λ s ok. ok) (λ s ok. Kept-ret _)

  pub look-Safe : {A : Type 0} (op : h.World → A) → Safe (look {h = h} op)
  look-Safe op = Kept-step _ _ (λ s ok. ok) (λ s ok. Kept-ret _)

  pub reads-Safe : {A : Type 0} (g : Sys h → A) → Safe (reads g)
  reads-Safe g = Kept-step _ _ (λ s ok. ok) (λ s ok. Kept-ret _)

  pub tell-Safe : (op : h.World → h.World) → Safe (tell {h = h} op)
  tell-Safe op = Kept-step _ _ (λ s ok. ok) (λ s ok. Kept-ret tt)

  -- An edit that keeps the target and the log.
  pub same-Safe :
      (id : String) (f : Job → Job)
      → ((j : Job) → (f j).target ≡ j.target)
      → ((j : Job) → (f j).logs ≡ j.logs)
      → Safe (edit {h = h} id f)
  same-Safe id f target logs = edit-Safe id f (λ j v. record {
    keyed = rw (target j) v.keyed;
    listed = rw (target j) v.listed;
    logged = rw (logs j) v.logged;
    bounded = rw (logs j) v.bounded;
  })

  pub log-Safe : (id line : String) → Safe (log {h = h} id line)
  log-Safe id line = edit-Safe id (append_log line) (λ j v. append_log-JobOk line v)

  pub log_each-Safe : (id : String) (lines : List String) → Safe (log_each {h = h} id lines)
  unfolding log_each
  log_each-Safe id [] = Kept-ret tt
  log_each-Safe id (line ∷ more) = Kept-bind _ _ (log-Safe id line) (λ _. log_each-Safe id more)

  pub or_quit-Safe : {A : Type 0} (g : Job → A) (o : Option Job) → Safe (or_quit {h = h} g o)
  or_quit-Safe g none = Kept-quit _
  or_quit-Safe g (some j) = Kept-ret (g j)

  pub read_job-Safe : {A : Type 0} (id : String) (g : Job → A) → Safe (read_job {h = h} id g)
  read_job-Safe id g = Kept-step _ _ (λ s ok. ok) (λ s ok. or_quit-Safe g (lookup id s.jobs))

  -- A locked part that edits the job and hands on what it read of the job.
  pub edit_read-Safe :
      {A : Type 0} (id : String) (f : Job → Job) (g : Option Job → Prog (Sys h) A)
      → ((j : Job) → (f j).target ≡ j.target)
      → ((j : Job) → (f j).logs ≡ j.logs)
      → ((o : Option Job) → Safe (g o))
      → Safe (step (with_job id f) (λ s. g (lookup id s.jobs)))
  edit_read-Safe id f g target logs kg =
      Kept-step _ _ (λ s ok. (((same-Safe id f target logs).each s ok).0))
        (λ s ok. kg (lookup id s.jobs))

  make_job-SysOk :
      (id : String) (o : Option Job) (t : Option Target) (s : Sys h)
      → find_id id targets ≡ t
      → SysOk s
      → SysOk (make_job id o t s)
  make_job-SysOk id (some j) t s e ok = ok
  make_job-SysOk id none none s e ok = ok
  make_job-SysOk id none (some t) s e ok =
      let (listed, named) = find_id_sound id targets e in
      insert-All id (new_job t) s.jobs (rw (← named) (new_job-JobOk t listed)) ok

  pub set-Safe : (id : String) (st : Status) (msg : String) → Safe (set {h = h} id st msg)
  unfolding set
  set-Safe id st msg =
      Kept-then (same-Safe id (λ j. record j { status = st; err = msg }) (λ j. refl) (λ j. refl)) (
        Kept-if _ _ _
          (Kept-bind _ _ (read_job-Safe id (λ j. LogBuf.last_line j.logs))
            (λ last. Kept-if _ _ _ (Kept-ret tt) (log-Safe id _)))
          (Kept-ret tt))

  pub job_for-Safe : (id : String) → Safe (job_for {h = h} id)
  unfolding job_for
  job_for-Safe id =
      Kept-step _ _ (λ s ok. make_job-SysOk id (lookup id s.jobs) (find_id id targets) s refl ok)
        (λ s ok. Kept-ret _)

  pub state-Safe : (id : String) → Safe (state {h = h} id)
  unfolding state
  state-Safe id = Kept-bind _ _ (job_for-Safe id) (λ _. reads-Safe _)

  pub dir-Safe : (id : String) → Safe (dir {h = h} id)
  unfolding dir
  dir-Safe id = reads-Safe _

  pub load_settings-Safe : Safe (load_settings {h = h})
  unfolding load_settings
  load_settings-Safe = Kept-step _ _ (λ s ok. ok) (λ s ok. Kept-ret _)

  pub update_settings-Safe : (f : Config → Config) → Safe (update_settings {h = h} f)
  unfolding update_settings
  update_settings-Safe f =
      Kept-bind _ _ (reads-Safe (λ s. s.settings.current))
        (λ c. Kept-step (save_step (f c)) _ (λ s ok. ok) (λ s ok. Kept-ret tt))

-- The rules that most handlers need.
pub ruleset safe_steps =
    (keeping, ask-Safe, look-Safe, tell-Safe, log-Safe, log_each-Safe, set-Safe, dir-Safe)

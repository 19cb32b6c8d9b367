-- ===== src/Persist/Races.antt =====
-- `Update` gives up the lock between reading the settings and saving them, so two of them can
-- interleave: runWAR stores the path of the Tomcat it installed while a request saves the settings.
use egovframe_launcher.Base.{String, ◌≢◌, none, sym, ap, ◌∙◌, ◌≡◌, refl, List, [], ◌∷◌, ◌++◌}
use egovframe_launcher.Persist.{Config, Vars, Disk, start, init, load, save}
use egovframe_launcher.Persist.Laws.{IsLawful, load-save, with_path_named}

-- The settings, the files, and the updates that have read the settings and not saved yet.
pub record Shared (d : Disk) : Type 0 where
  pub vars : Vars
  pub files : d.Files
  pub pending : List Config

-- What an update does under the lock: it reads the settings, which its function maps, or it saves.
pub data Action : Type 0 where
  reads : (Config → Config) → Action
  saves : Config → Action

module _ (d : Disk) where
  abbrev saved : Config → Shared d → List Config → Shared d
  saved c s rest =
      let (err, vars, files) = save d c s.vars s.files in
      record { vars = vars; files = files; pending = rest }

  pub data Step (s : Shared d) : Action → Shared d → Type 0 where
    -- The first locked part of `Update`, and the call of its function on the copy.
    begin :
        (f : Config → Config)
        → Step s (reads f) (record s { pending = f s.vars.current ∷ s.pending })
    -- The second: `Save`, of any update that is waiting.
    commit :
        (before after : List Config) (c : Config)
        → s.pending ≡ before ++ c ∷ after
        → Step s (saves c) (saved c s (before ++ after))

  -- The actions of a run, in their order.
  pub data Run (s : Shared d) : List Action → Shared d → Type 0 where
    here : Run s [] s
    next :
        {actions : List Action} {a : Action} {t u : Shared d}
        → Run s actions t
        → Step t a u
        → Run s (actions ++ a ∷ []) u

  -- What the next process loads from the file that the settings name.
  abbrev pub restarted : Shared d → Config
  restarted s = (load d s.files (init s.vars.file_path start)).0

  saved-path :
      (c : Config) (t : Shared d) (rest : List Config)
      → t.vars.file_path ≢ ""
      → (saved c t rest).vars.file_path ≡ t.vars.file_path
  unfolding save
  saved-path c t rest named = ap (λ v. v.file_path) (with_path_named d t.vars named)

  restarted-saved :
      IsLawful d
      → ((path : String) (text : d.Text) (files : d.Files) → (d.write path text files).0 ≡ none)
      → (c : Config) (t : Shared d) (rest : List Config) → t.vars.file_path ≢ ""
      → restarted (saved c t rest) ≡ c
  unfolding save
  restarted-saved L writes c t rest named =
      ap (λ path. (load d (save d c t.vars t.files).2 (init path start)).0)
        (saved-path c t rest named)
      ∙ load-save d L c t.vars t.files named (writes _ _ _)

  -- If the file of the settings is named, on a disk that keeps what is written and where every write
  -- succeeds: any two updates have a run in which both read the settings before either saves, both
  -- save, and the settings in memory and those that the next process loads are what the second makes
  -- of the old ones, without the effect of the first. They have a run one after the other as well,
  -- which ends with what the second makes of the result of the first.
  pub update_lost :
      IsLawful d
      → ((path : String) (text : d.Text) (files : d.Files) → (d.write path text files).0 ≡ none)
      → (f g : Config → Config) (s : Shared d) → s.vars.file_path ≢ ""
      → let c = s.vars.current in
        ((t : Shared d) × Run s (reads f ∷ reads g ∷ saves (f c) ∷ saves (g c) ∷ []) t
          × (t.vars.current ≡ g c)
          × (restarted t ≡ g c)
          × (t.pending ≡ s.pending))
        × ((u : Shared d) × Run s (reads f ∷ saves (f c) ∷ reads g ∷ saves (g (f c)) ∷ []) u
            × (u.vars.current ≡ g (f c))
            × (restarted u ≡ g (f c))
            × (u.pending ≡ s.pending))
  unfolding save
  update_lost L writes f g s named =
      let c = s.vars.current in
      let s1 : Shared d = record s { pending = g c ∷ f c ∷ s.pending } in
      let s2 : Shared d = record s { pending = f c ∷ s.pending } in
      let both : Shared d = saved (f c) s1 (g c ∷ s.pending) in
      let alone : Shared d = saved (f c) s2 s.pending in
      let again : Shared d = record alone { pending = g (f c) ∷ s.pending } in
      (
        (
          _,
          next
              (next (next (next here (begin f)) (begin g)) (commit (g c ∷ []) s.pending (f c) refl))
              (commit [] s.pending (g c) refl),
          refl,
          restarted-saved L writes (g c) both s.pending
              (λ e. named (sym (saved-path (f c) s1 (g c ∷ s.pending) named) ∙ e)),
          refl,
        ),
        (
          _,
          next (next (next (next here (begin f)) (commit [] s.pending (f c) refl)) (begin g))
              (commit [] s.pending (g (f c)) refl),
          refl,
          restarted-saved L writes (g (f c)) again s.pending
              (λ e. named (sym (saved-path (f c) s2 s.pending named) ∙ e)),
          refl,
        ),
      )

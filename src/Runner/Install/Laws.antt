-- ===== src/Runner/Install/Laws.antt =====
-- What unzip of launcher/internal/runner/runner.go may write.
use egovframe_launcher.Base.{
  ◌<>◌, starts_with, ◌||◌, Bool, false, ◌≡◌, String, true, not, none, List, [], ◌∷◌, arith,
}
use egovframe_launcher.Base.Text.{contains, ends_with}
use egovframe_launcher.Base.Outcome.{Outcome, got, fault}
use egovframe_launcher.Prog.Kept.{Kept}
use egovframe_launcher.Prog.Ends.{Any, Ends-bind, Ends-ret, Ends-if, Ends-Kept}
use egovframe_launcher.Runner.Host.{Host}
use egovframe_launcher.Runner.Install.{ZipEntry, Installer}
use egovframe_launcher.Runner.Install.Unpack.{
  entry_path, is_below, write_entry, unzip_entry, unzip_all, unzip_opened, unzip,
}
use egovframe_launcher.Runner.WorldEnds.{
  OnWorld, Well, ask-Ends, look-Ends, go_on-Ends, ask_go-Ends,
}

-- The path has an element "..", behind its first.
abbrev pub climbs : String → String → Bool
climbs separator path =
    contains path (separator <> ".." <> separator) || ends_with path (separator <> "..")

-- Documented behaviour of filepath.Join: its result is cleaned, so that one which begins with an
-- absolute path has no element "..".
pub record JoinsClean (h : Host) (separator : String) : Type 0 where
  pub no_climb :
      (folder name : String)
      → h.is_abs folder ≡ true
      → climbs separator (h.join (folder ∷ name ∷ [])) ≡ false

module _ {h : Host} (inst : Installer h) where
  -- The path leads to a place in the folder: it is the folder, a separator and further elements of
  -- which none is "..".
  pub record Inside (dest path : String) : Type 0 where
    pub begins : starts_with path (inst.clean dest <> inst.separator) ≡ true
    pub stays : climbs inst.separator path ≡ false

module _ {h : Host} (inst : Installer h) (P : h.World → Type 0) where
  -- What is done to a place in the folder, or to the folder that such a place is in, keeps `P`.
  pub record Confined (dest : String) : Type 0 where
    pub mkdir_all :
        (path : String) (w : h.World) → Inside inst dest path → P w → P (h.mkdir_all path w).1
    pub mkdir_parent :
        (path : String) (w : h.World)
        → Inside inst dest path
        → P w
        → P (h.mkdir_all (inst.parent path) w).1
    pub create :
        (path : String) (e : ZipEntry) (w : h.World)
        → Inside inst dest path
        → P w
        → P (inst.create path e w).1
    pub open_entry :
        (path : String) (e : ZipEntry) (w : h.World) → P w → P (inst.open_entry path e w).1
    pub copy_entry :
        (path : String) (e : ZipEntry) (w : h.World)
        → Inside inst dest path
        → P w
        → P (inst.copy_entry path e w).1

  module _ (dest : String) (c : Confined dest) (clean : JoinsClean h inst.separator)
      (absolute : h.is_abs dest ≡ true) where
    write-Ends :
        (path : String) (e : ZipEntry)
        → Inside inst dest path
        → Well P Any (write_entry inst path e)
    unfolding write_entry
    write-Ends path e below =
        ask_go-Ends P (h.mkdir_all (inst.parent path)) _ (λ w p. c.mkdir_parent path w below p)
          (ask_go-Ends P (inst.create path e) _ (λ w p. c.create path e w below p)
            (ask_go-Ends P (inst.open_entry path e) _ (λ w p. c.open_entry path e w p)
              (ask-Ends P (inst.copy_entry path e) (λ w p. c.copy_entry path e w below p)
                (λ w p. tt))))

    entry-Ends : (e : ZipEntry) → Well P Any (unzip_entry inst dest e)
    unfolding unzip_entry
    entry-Ends e =
        let path = entry_path inst dest e in
        Ends-if (not (is_below inst dest path)) _ _ (λ out. Ends-ret _ tt)
          (λ inside.
            let below : Inside inst dest path = record {
              begins = ground (arith, inside);
              stays = clean.no_climb dest e.name absolute;
            } in
            Ends-if e.is_dir _ _
              (λ _.
                Ends-bind {R = Any} _ _
                  (ask-Ends P (h.mkdir_all path) (λ w p. c.mkdir_all path w below p) (λ w p. tt))
                  (λ _ _. Ends-ret none tt))
              (λ _. write-Ends path e below))

    all-Ends : (es : List ZipEntry) → Well P Any (unzip_all inst dest es)
    unfolding unzip_all
    all-Ends [] = Ends-ret none tt
    all-Ends (e ∷ es) =
        Ends-bind {R = Any} _ _ (entry-Ends e) (λ o _. go_on-Ends P _ o (all-Ends es))

    opened-Ends : (o : Outcome (List ZipEntry)) → Well P Any (unzip_opened inst dest o)
    opened-Ends (fault e) = Ends-ret _ tt
    opened-Ends (got es) = all-Ends es

    -- If the folder is an absolute path, and paths are joined to clean ones: whatever other
    -- goroutines do between its steps and whatever the names in the archive, unzip keeps every
    -- property that is kept by what is done to places in the folder, by making the folders that
    -- such places are in, and by opening an entry. A place in the folder has a path that begins
    -- with the cleaned folder and a separator and has no element "..", so an entry whose path leads
    -- elsewhere is never written.
    pub unzip-Kept : (src : String) → Kept (OnWorld P) (unzip inst src dest)
    unfolding unzip
    unzip-Kept src = Ends-Kept _ (
        Ends-bind {R = Any} _ _ (look-Ends P (inst.open_zip src) (λ w p. tt))
          (λ o _. opened-Ends o))

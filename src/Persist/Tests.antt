-- ===== src/Persist/Tests.antt =====
-- A disk that keeps one settings file, and the theorems on it.
use egovframe_launcher.Base.{
  String, ◌<>◌, ◌≡◌, refl, true, none, List, [], ◌∷◌, arith, eq_iff, eq_refl,
}
use egovframe_launcher.Base.Dict.{lookup, insert, lookup-insert}
use egovframe_launcher.Persist.{Config, zero_config, Vars, start, Disk, init, load, save}
use egovframe_launcher.Persist.Laws.{IsLawful, load-save, load-load}
use egovframe_launcher.Persist.Races.{Shared, reads, saves, Run, restarted, update_lost}

-- A file's text is the settings themselves.
abbrev disk : Disk
disk = record {
  Files = List (String × Config);
  Text = Config;
  home = "/home/me";
  join = λ a b. a <> "/" <> b;
  read = λ files path. lookup path files;
  make_parent = λ path files. files;
  write = λ path c files. (none, insert path c files);
  encode = λ c. c;
  decode = λ text c. text;
}

disk-IsLawful : IsLawful disk
disk-IsLawful = record {
  read-write =
      λ path text files files' e. ground (arith, lookup-insert path path text files, eq_refl path);
  decode-encode = λ c. refl;
}

abbrev with_tomcat : Config → Config
with_tomcat c = record c { tomcat_path = "/opt/tomcat" }

abbrev skipping : Config → Config
skipping c = record c { skip_tests = true }

abbrev here_vars : Vars
here_vars = record start { file_path = "/cfg" }

load-save_example :
    (load disk (save disk (skipping zero_config) here_vars []).2 (init "/cfg" start)).0
    ≡ skipping zero_config
unfolding save
load-save_example =
    load-save disk disk-IsLawful (skipping zero_config) here_vars []
      (ground (arith, eq_iff "/cfg" "")) refl

load-load_example : load disk [] (load disk [] here_vars).1 ≡ load disk [] here_vars
load-load_example = load-load disk [] [] here_vars

abbrev shared : Shared disk
shared = record { vars = here_vars; files = []; pending = [] }

-- The run that loses the Tomcat path, and the one that keeps it.
abbrev both_orders : Config
both_orders = record zero_config { tomcat_path = "/opt/tomcat"; skip_tests = true }

update_lost_example :
    ((t : Shared disk) × Run disk shared
        (reads with_tomcat
          ∷ reads skipping
          ∷ saves (with_tomcat zero_config)
          ∷ saves (skipping zero_config)
          ∷ [])
        t
      × (t.vars.current ≡ skipping zero_config)
      × (restarted disk t ≡ skipping zero_config)
      × (t.pending ≡ []))
    × ((u : Shared disk) × Run disk shared
          (reads with_tomcat
            ∷ saves (with_tomcat zero_config)
            ∷ reads skipping
            ∷ saves both_orders
            ∷ [])
          u
        × (u.vars.current ≡ both_orders)
        × (restarted disk u ≡ both_orders)
        × (u.pending ≡ []))
update_lost_example =
    update_lost disk disk-IsLawful (λ path text files. refl) with_tomcat skipping shared
      (ground (arith, eq_iff "/cfg" ""))

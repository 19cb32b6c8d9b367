-- ===== src/Runner/Tomcat.antt =====
-- What launcher/internal/runner/runner.go reads of a Tomcat's folder, and what it clears there.
use egovframe_launcher.Base.{
  ℕ, zero, suc, ◌+◌, String, ◌<>◌, Bool, true, false, ◌||◌, Option, none, some, List, [], ◌∷◌,
  str_eq, ◌≡◌, refl, if◌then◌else◌,
}
use Prim.Native.String.{len, slice}
use text.Mathlib.Text.{find?}
use egovframe_launcher.Base.Atoi.{atoi}
use egovframe_launcher.Base.Int.{ℤ, pos, eq_ℤ}
use egovframe_launcher.Base.Text.{trim_space}
use egovframe_launcher.Prog.{Prog, ◌>>=◌, ◌>>◌, skip}
use egovframe_launcher.Runner.Host.{Host, Entry}
use egovframe_launcher.Runner.Sys.{Sys, ask, look, log}

abbrev release_marker : String
release_marker = "Apache Tomcat Version "

abbrev number_or_zero : ℤ × Bool → ℤ
number_or_zero (n, true) = n
number_or_zero (n, false) = pos 0

-- The number before the first dot, which has to stand behind something.
abbrev major_before : String → Option ℕ → ℤ
major_before rest none = pos 0
major_before rest (some zero) = pos 0
major_before rest (some (suc dot)) = number_or_zero (atoi (trim_space (slice rest 0 (suc dot))))

abbrev major_behind : String → Option ℕ → ℤ
major_behind notes none = pos 0
major_behind notes (some i) =
    let rest = trim_space (slice notes (i + len release_marker) (len notes)) in
    major_before rest (find? rest ".")

-- `tomcatMajorVersion`, of the text of RELEASE-NOTES; `none` where it cannot be read.
unfoldable pub tomcat_major_version : Option String → ℤ
unfolding atoi trim_space
tomcat_major_version none = pos 0
tomcat_major_version (some notes) = major_behind notes (find? notes release_marker)

-- `rspTomcatTypeID`
unfoldable pub rsp_tomcat_type_id : Option String → String
unfolding tomcat_major_version
rsp_tomcat_type_id notes =
    if eq_ℤ (tomcat_major_version notes) (pos 11)
    then "org.jboss.ide.eclipse.as.server.tomcat.110"
    else "org.jboss.ide.eclipse.as.server.tomcat.100"

abbrev is_own_webapp : String → Bool
is_own_webapp name =
    str_eq name "ROOT"
    || str_eq name "docs"
    || str_eq name "examples"
    || str_eq name "manager"
    || str_eq name "host-manager"

module _ (h : Host) where
  -- The loop of `cleanTomcatWebapps` over the entries of `webapps`.
  unfoldable pub clean_entries : String → String → List Entry → Prog (Sys h) (Unit {0})
  unfolding ◌>>=◌
  clean_entries id webapps [] = skip
  clean_entries id webapps (e ∷ more) = do
    if is_own_webapp e.name then skip else (do
      log id ("[info] webapps 잔여 디렉터리 자동 정리: " <> e.name)
      _ ← ask (h.remove_all (h.join (webapps ∷ e.name ∷ [])))
      skip)
    clean_entries id webapps more

  abbrev clean_found : String → String → Option (List Entry) → Prog (Sys h) (Unit {0})
  clean_found id webapps none = skip
  clean_found id webapps (some entries) = clean_entries id webapps entries

  -- `cleanTomcatWebapps`, with the log of a job.
  unfoldable pub clean_tomcat_webapps : String → String → Prog (Sys h) (Unit {0})
  unfolding ◌>>=◌
  clean_tomcat_webapps id tomcat_home = do
    let webapps = h.join (tomcat_home ∷ "webapps" ∷ [])
    entries ← look (h.read_dir webapps)
    clean_found id webapps entries

tomcat_ten : tomcat_major_version (some "x Apache Tomcat Version 10.1.25 y") ≡ pos 10
unfolding tomcat_major_version
tomcat_ten = refl

-- ===== src/Runner/Install/Tests.antt =====
-- A host whose world is the list of the paths that were written, and the theorems on it.
use egovframe_launcher.Base.{
  refl, Bool, starts_with, true, false, ◌≡◌, String, true, false, str_eq, ap, none, List, [], ◌∷◌,
  All, arith,
}
use egovframe_launcher.Base.Outcome.{Outcome, got, fault}
use egovframe_launcher.Base.Text.{join}
use egovframe_launcher.Prog.Kept.{Kept}
use egovframe_launcher.Runner.Host.{Host}
use egovframe_launcher.Runner.Tests.{idle_host}
use egovframe_launcher.Runner.Digest.{Hashed, digest, unreadable, verify_local_sha512_iff}
use egovframe_launcher.Runner.Install.{ZipEntry, Installer, tomcat_zip_sha512}
use egovframe_launcher.Runner.Install.Unpack.{unzip, auto_install_tomcat}
use egovframe_launcher.Runner.Install.Laws.{climbs, JoinsClean, Inside, Confined, unzip-Kept}
use egovframe_launcher.Runner.Install.Gate.{Unverified, auto_install_tomcat-Kept}

-- A path that leads upwards is cleaned to the root.
abbrev tidy : Bool → String → String
tidy true path = "/"
tidy false path = path

abbrev disk_host : Host
disk_host = record (idle_host (List String)) {
  join = λ parts. tidy (climbs "/" (join parts "/")) (join parts "/");
  is_abs = λ path. starts_with path "/";
}

tidy-climbs : (b : Bool) (path : String) → climbs "/" path ≡ b → climbs "/" (tidy b path) ≡ false
tidy-climbs true path e = refl
tidy-climbs false path e = e

disk_host-JoinsClean : JoinsClean disk_host "/"
disk_host-JoinsClean = record {
  no_climb = λ folder name absolute.
      tidy-climbs (climbs "/" (join (folder ∷ name ∷ []) "/")) (join (folder ∷ name ∷ []) "/") refl;
}

-- An archive with an entry that leads out of the folder, and with a wrong digest.
abbrev entries : List ZipEntry
entries =
    record { name = "bin/catalina.sh"; is_dir = false; at = 0 }
    ∷ record { name = "../../.bashrc"; is_dir = false; at = 1 }
    ∷ []

abbrev installer : Installer disk_host
installer = record {
  user_home = λ w. got "/home/me";
  sha512_hex = λ w path. digest "ab12";
  chmod = λ path w. w;
  http_get = λ url w. (got 200, w);
  create_temp = λ w. (got "/tmp/a.zip", w);
  save_body = λ url path w. (got "ab12", w);
  remove = λ path w. w;
  clean = λ path. path;
  parent = λ path. path;
  separator = "/";
  open_zip = λ path w. got entries;
  create = λ path e w. (none, path ∷ w);
  open_entry = λ path e w. (none, w);
  copy_entry = λ path e w. (none, path ∷ w);
}

abbrev AllInside : String → List String → Type 0
AllInside dest paths = All (λ path. Inside installer dest path) paths

installer-Confined : (dest : String) → Confined installer (AllInside dest) dest
installer-Confined dest = record {
  mkdir_all = λ path w below p. p;
  mkdir_parent = λ path w below p. p;
  create = λ path e w below p. (below, p);
  open_entry = λ path e w p. p;
  copy_entry = λ path e w below p. (below, p);
}

unzip-Kept_example : Kept (λ s. AllInside "/opt" s.world) (unzip installer "/tmp/a.zip" "/opt")
unzip-Kept_example =
    unzip-Kept installer (AllInside "/opt") "/opt" (installer-Confined "/opt") disk_host-JoinsClean
      refl "/tmp/a.zip"

abbrev text_of : Hashed → String
text_of (digest s) = s
text_of (unreadable s) = s

abbrev body_of : Outcome String → String
body_of (got s) = s
body_of (fault s) = s

wrong-Fails : "ab12" ≡ tomcat_zip_sha512 → ⊥
wrong-Fails e = let same : true ≡ false = ap (λ s. str_eq s "ab12") e in ground (arith, same)

installer-Unverified : Unverified installer (λ w. w ≡ [])
installer-Unverified = record {
  mkdir_all = λ path w p. p;
  http_get = λ url w p. p;
  create_temp = λ w p. p;
  save_body = λ url path w p. p;
  remove = λ path w p. p;
  local_differs = λ path w p e.
      wrong-Fails
        (ap text_of ((verify_local_sha512_iff (λ path. digest "ab12") path tomcat_zip_sha512).0 e));
  body_differs = λ url path w p e. wrong-Fails (ap body_of e);
}

auto_install_tomcat-Kept_example : Kept (λ s. s.world ≡ []) (auto_install_tomcat installer "web")
auto_install_tomcat-Kept_example =
    auto_install_tomcat-Kept installer (λ w. w ≡ []) installer-Unverified "web"

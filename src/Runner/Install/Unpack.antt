-- ===== src/Runner/Install/Unpack.antt =====
-- unzip and autoInstallTomcat in launcher/internal/runner/runner.go.
use egovframe_launcher.Base.{
  String, ◌<>◌, starts_with, Bool, true, false, not, Option, none, some, List, [], ◌∷◌,
  if◌then◌else◌,
}
use egovframe_launcher.Base.Outcome.{Outcome, got, fault}
use egovframe_launcher.Prog.{Prog, ret, ◌>>=◌, ◌>>◌, skip}
use egovframe_launcher.Runner.Host.{Host}
use egovframe_launcher.Runner.Sys.{Sys, ask, look, tell, log}
use egovframe_launcher.Runner.Command.{is_present}
use egovframe_launcher.Runner.Digest.{verify_local_sha512}
use egovframe_launcher.Runner.Rsp.{catalina}
use egovframe_launcher.Runner.Tools.{go_on}
use egovframe_launcher.Runner.Install.{
  ZipEntry, Installer, tomcat_dir_name, tomcat_zip_url, tomcat_zip_sha512,
  download_and_verify_sha512,
}

module _ {h : Host} (inst : Installer h) where
  -- Where an entry goes.
  abbrev pub entry_path : String → ZipEntry → String
  entry_path dest e = h.join (dest ∷ e.name ∷ [])

  -- The path is below the folder.
  abbrev pub is_below : String → String → Bool
  is_below dest path = starts_with path (inst.clean dest <> inst.separator)

  unfoldable pub write_entry : String → ZipEntry → Prog (Sys h) (Option String)
  unfolding ◌>>=◌
  write_entry path e = do
    no_folder ← ask (h.mkdir_all (inst.parent path))
    go_on
        (ask (inst.create path e)
          >>= go_on (ask (inst.open_entry path e) >>= go_on (ask (inst.copy_entry path e))))
        no_folder

  -- One round of `unzip`.
  unfoldable pub unzip_entry : String → ZipEntry → Prog (Sys h) (Option String)
  unfolding ◌>>=◌
  unzip_entry dest e =
      if not (is_below dest (entry_path dest e))
      then ret (some ("illegal file path in zip: " <> e.name))
      else if e.is_dir
      then (ask (h.mkdir_all (entry_path dest e)) >>= λ _. ret none)
      else write_entry (entry_path dest e) e

  unfoldable pub unzip_all : String → List ZipEntry → Prog (Sys h) (Option String)
  unfolding ◌>>=◌
  unzip_all dest [] = ret none
  unzip_all dest (e ∷ es) = unzip_entry dest e >>= go_on (unzip_all dest es)

  abbrev pub unzip_opened : String → Outcome (List ZipEntry) → Prog (Sys h) (Option String)
  unzip_opened dest (fault e) = ret (some e)
  unzip_opened dest (got es) = unzip_all dest es

  -- `unzip`
  unfoldable pub unzip : String → String → Prog (Sys h) (Option String)
  unfolding ◌>>=◌
  unzip src dest = do opened ← look (inst.open_zip src); unzip_opened dest opened

  abbrev pub no_files : Option (List String) → List String
  no_files none = []
  no_files (some fs) = fs

  unfoldable pub chmod_each : List String → Prog (Sys h) (Unit {0})
  unfolding ◌>>=◌
  chmod_each [] = skip
  chmod_each (f ∷ fs) = do tell (inst.chmod f); chmod_each fs

  abbrev pub make_executable : String → Prog (Sys h) (Unit {0})
  make_executable home =
      if h.windows
      then skip
      else (look (h.glob (h.join (home ∷ "bin" ∷ "*.sh" ∷ []))) >>= λ fs. chmod_each (no_files fs))

  abbrev pub after_unzip : String → String → Option String → Prog (Sys h) (Outcome String)
  after_unzip home id (some e) = ret (fault ("failed to unzip Tomcat: " <> e))
  after_unzip home id none =
      make_executable home
      >> log id ("[info] Tomcat 10.1.25 설치 및 실행 준비 완료: " <> home)
      >> ret (got home)

  -- From an archive that has passed the check.
  unfoldable pub install_from : String → String → String → String → Prog (Sys h) (Outcome String)
  unfolding ◌>>=◌
  install_from zip_path install_dir home id = do
    log id ("[info] Tomcat zip 압축 해제 중: " <> home)
    failed ← unzip zip_path install_dir
    after_unzip home id failed

  abbrev pub from_local :
      String → String → String → String → Option String → Prog (Sys h) (Outcome String)
  from_local zip_path install_dir home id (some e) = ret (fault e)
  from_local zip_path install_dir home id none = install_from zip_path install_dir home id

  -- The downloaded file is removed at the end.
  abbrev pub from_download :
      String → String → String → Outcome String → Prog (Sys h) (Outcome String)
  from_download install_dir home id (fault e) = ret (fault e)
  from_download install_dir home id (got path) = install_from path install_dir home id >>= λ result.
      tell (inst.remove path) >>= λ _. ret result

  -- The archive that was put in place, or the one of the server.
  unfoldable pub take_archive :
      String → String → String → String → Bool → Prog (Sys h) (Outcome String)
  unfolding ◌>>=◌
  take_archive offline install_dir home id true = do
    log id ("[info] 사전 배치된 Tomcat 아카이브 사용(오프라인 설치): " <> offline)
    failed ← look (λ w. verify_local_sha512 (inst.sha512_hex w) offline tomcat_zip_sha512)
    from_local offline install_dir home id failed
  take_archive offline install_dir home id false = do
    log id ("[info] Tomcat 10.1.25 다운로드 시작(네트워크): " <> tomcat_zip_url)
    path ← download_and_verify_sha512 inst tomcat_zip_url tomcat_zip_sha512 id
    from_download install_dir home id path

  unfoldable pub install_archive : String → String → String → Prog (Sys h) (Outcome String)
  unfolding ◌>>=◌
  install_archive install_dir home id = do
    let offline = h.join (install_dir ∷ (tomcat_dir_name <> ".zip") ∷ [])
    found ← look (h.stat offline)
    take_archive offline install_dir home id (is_present found)

  unfoldable pub unless_installed : String → String → String → Bool → Prog (Sys h) (Outcome String)
  unfolding ◌>>=◌
  unless_installed install_dir home id true = do
    log id ("[info] 이미 설치된 Tomcat 10.1.25가 존재합니다: " <> home)
    ret (got home)
  unless_installed install_dir home id false = install_archive install_dir home id

  abbrev pub with_folder : String → String → Option String → Prog (Sys h) (Outcome String)
  with_folder install_dir id (some e) = ret (fault e)
  with_folder install_dir id none = do
    let home = h.join (install_dir ∷ tomcat_dir_name ∷ [])
    installed ← look (h.stat (catalina h home))
    unless_installed install_dir home id (is_present installed)

  abbrev pub with_home : String → Outcome String → Prog (Sys h) (Outcome String)
  with_home id (fault e) = ret (fault e)
  with_home id (got home) = do
    let install_dir = h.join (home ∷ ".egov-launcher" ∷ [])
    failed ← ask (h.mkdir_all install_dir)
    with_folder install_dir id failed

  -- `autoInstallTomcat`
  unfoldable pub auto_install_tomcat : String → Prog (Sys h) (Outcome String)
  unfolding ◌>>=◌
  auto_install_tomcat id = do home ← look inst.user_home; with_home id home

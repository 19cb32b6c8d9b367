-- ===== src/Runner/Install.antt =====
-- The installation of Tomcat in launcher/internal/runner/runner.go: autoInstallTomcat,
-- downloadAndVerifySHA512 and unzip.
pub mod Unpack
pub mod Laws
pub mod Gate
pub mod Tests
use egovframe_launcher.Base.{
  ℕ, String, ◌<>◌, str_eq, starts_with, Bool, true, false, not, ◌==◌, Option, none, some, List, [],
  ◌∷◌, if◌then◌else◌,
}
use egovframe_launcher.Base.Int.{pos}
use egovframe_launcher.Base.Outcome.{Outcome, got, fault}
use egovframe_launcher.Base.Text.{itoa}
use egovframe_launcher.Prog.{Prog, ret, step, ◌>>=◌, ◌>>◌, skip}
use egovframe_launcher.Runner.Host.{Host}
use egovframe_launcher.Runner.Sys.{Sys, ask, look, tell, log}
use egovframe_launcher.Runner.Command.{is_present}
use egovframe_launcher.Runner.Digest.{
  Hashed, digest, unreadable, verify_local_sha512, sha512_mismatch_err,
}
use egovframe_launcher.Runner.Rsp.{catalina}

-- `zip.File`: its name and whether it is a folder; `at` tells it from the others.
pub record ZipEntry : Type 0 where
  pub name : String
  pub is_dir : Bool
  pub at : ℕ

-- Files, archives and downloads.
pub record Installer (h : Host) : Type 0 where
  -- `os.UserHomeDir`
  pub user_home : h.World → Outcome String
  -- What sha512Hex makes of a file.
  pub sha512_hex : h.World → String → Hashed
  pub chmod : String → h.World → h.World
  -- `http.Get`, up to the status of the response.
  pub http_get : String → h.World → Outcome ℕ × h.World
  pub create_temp : h.World → Outcome String × h.World
  -- `io.Copy` of the response into the file and the hash, with the digest of what was copied.
  pub save_body : String → String → h.World → Outcome String × h.World
  pub remove : String → h.World → h.World
  pub clean : String → String
  pub parent : String → String
  pub separator : String
  pub open_zip : String → h.World → Outcome (List ZipEntry)
  -- `os.OpenFile` of the target, `f.Open` of the entry, and `io.Copy` with the two closes.
  pub create : String → ZipEntry → h.World → Option String × h.World
  pub open_entry : String → ZipEntry → h.World → Option String × h.World
  pub copy_entry : String → ZipEntry → h.World → Option String × h.World

abbrev pub tomcat_dir_name : String
tomcat_dir_name = "apache-tomcat-10.1.25"

abbrev pub tomcat_zip_url : String
tomcat_zip_url =
    "https://archive.apache.org/dist/tomcat/tomcat-10/v10.1.25/bin/apache-tomcat-10.1.25.zip"

abbrev pub tomcat_zip_sha512 : String
tomcat_zip_sha512 =
    "506eb118382ddde0a909cdeaa8074e960fe27c7d8a38bfe27f7eff7230a0a1c3b7c533e9abb33343824eab9ecb751171b637991fb8111bd240f98bf7d7f1e8c1"

module _ {h : Host} (inst : Installer h) where
  abbrev pub checked_digest :
      String → String → String → String → Outcome String → Prog (Sys h) (Outcome String)
  checked_digest url expected path id (fault e) =
      tell (inst.remove path) >> ret (fault ("failed to save downloaded file: " <> e))
  checked_digest url expected path id (got actual) =
      if str_eq actual expected
      then (log id ("[info] SHA-512 검증 완료: " <> url) >> ret (got path))
      else (tell (inst.remove path) >> ret (fault (sha512_mismatch_err url expected actual)))

  abbrev pub into_temp : String → String → String → Outcome String → Prog (Sys h) (Outcome String)
  into_temp url expected id (fault e) = ret (fault e)
  into_temp url expected id (got path) =
      log id ("[info] 파일 서버에서 수신 중: " <> url)
      >> (ask (inst.save_body url path) >>= checked_digest url expected path id)

  abbrev pub on_response : String → String → String → Outcome ℕ → Prog (Sys h) (Outcome String)
  on_response url expected id (fault e) = ret (fault ("download failed: " <> e))
  on_response url expected id (got status) =
      if status == 200
      then (ask inst.create_temp >>= into_temp url expected id)
      else ret (fault ("download failed: HTTP status " <> itoa (pos status)))

  -- `downloadAndVerifySHA512`, with a log.
  unfoldable pub download_and_verify_sha512 :
      String → String → String → Prog (Sys h) (Outcome String)
  unfolding ◌>>=◌
  download_and_verify_sha512 url expected id = do
    response ← ask (inst.http_get url)
    on_response url expected id response

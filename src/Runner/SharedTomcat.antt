-- ===== src/Runner/SharedTomcat.antt =====
-- The Tomcat that the projects share, before VS Code starts it: its encodings and the port of its
-- connector, in launcher/internal/runner/runner.go.
pub mod PortRange
pub mod Tests
use egovframe_launcher.Base.{
  ℕ, String, ◌<>◌, str_eq, starts_with, Bool, false, true, not, ◌&&◌, ◌==◌, Option, none, some,
  List, [], ◌∷◌, if◌then◌else◌,
}
use Prim.Native.String.{len, slice}
use Prim.Native.Char.{Char, code}
use egovframe_launcher.Base.Atoi.{atoi}
use egovframe_launcher.Base.Int.{ℤ, pos, negsuc, is_pos, eq_ℤ, add_ℕ}
use egovframe_launcher.Base.Outcome.{Outcome, got, fault}
use egovframe_launcher.Base.Text.{itoa, trim_space}
use egovframe_launcher.Prog.{Prog, ret, ◌>>=◌, ◌>>◌, skip}
use egovframe_launcher.Runner.Host.{Host, Stat, missing}
use egovframe_launcher.Runner.Sys.{Sys, ask, look, tell, log}
use egovframe_launcher.Runner.Command.{is_missing}
use egovframe_launcher.Runner.Tools.{Tools, cmd_of}
use egovframe_launcher.Runner.Ports.{max_int, port_listening, find_available_port}
use egovframe_launcher.Runner.Rsp.{stop_tomcat_catalina}
use egovframe_launcher.Runner.Tomcat.{clean_tomcat_webapps}
use egovframe_launcher.Runner.Database.{Reader, group}
use egovframe_launcher.Runner.Database.Parse.{split_lines}
use egovframe_launcher.Runner.RspClient.{Json, text, truth, object, member, none_more, Wire, call}
use egovframe_launcher.Runner.RspClient.Servers.{Decoders, with_client}

abbrev pub setenv_sh : String
setenv_sh =
    "export JAVA_OPTS=\"$JAVA_OPTS -Dfile.encoding=UTF-8 -Dfile.client.encoding=UTF-8 -Dclient.encoding.override=UTF-8\"\nexport CATALINA_OPTS=\"$CATALINA_OPTS -Dfile.encoding=UTF-8 -Dfile.client.encoding=UTF-8 -Dclient.encoding.override=UTF-8\"\n"

abbrev pub setenv_bat : String
setenv_bat =
    "@echo off\nset \"JAVA_OPTS=%JAVA_OPTS% -Dfile.encoding=UTF-8 -Dfile.client.encoding=UTF-8 -Dclient.encoding.override=UTF-8\"\nset \"CATALINA_OPTS=%CATALINA_OPTS% -Dfile.encoding=UTF-8 -Dfile.client.encoding=UTF-8 -Dclient.encoding.override=UTF-8\"\n"

abbrev pub console_regexp : String
console_regexp = "(?m)^\\s*java\\.util\\.logging\\.ConsoleHandler\\.encoding\\s*=.*$"

abbrev pub http_regexp : String
http_regexp = "(<Connector port=\")(\\d+)(\"\\s+protocol=\"HTTP/1\\.1\")"

-- `strings.TrimRight(s, "\n")`
abbrev put_before : Char → String → String
put_before c s = if code c == 10 && str_eq s "" then "" else String.◌∷◌ c s

unfoldable pub trim_newlines : String → String
trim_newlines String.[] = ""
trim_newlines (String.◌∷◌ c s) = put_before c (trim_newlines s)

-- The value that a line of the settings of a JVM gives to `file.encoding`.
abbrev encoding_in : String → Option String
encoding_in line =
    let marker : String = "file.encoding =" in
    if starts_with line marker then some (trim_space (slice line (len marker) (len line))) else none

abbrev encoding_or : Option String → String → String
encoding_or none other = other
encoding_or (some v) other = v

unfoldable pub first_encoding : List String → String
unfolding trim_space
first_encoding [] = ""
first_encoding (line ∷ lines) = encoding_or (encoding_in (trim_space line)) (first_encoding lines)

-- What the Java program printed, and its error.
abbrev pub encoding_of : String × Option String → String
encoding_of (out, some e) = ""
encoding_of (out, none) = first_encoding (split_lines out)

-- `port + 1` on a 64-bit int.
abbrev pub next_int : ℤ → ℤ
next_int (pos n) = if n == max_int then negsuc max_int else add_ℕ (pos n) 1
next_int (negsuc n) = add_ℕ (negsuc n) 1

module _ {h : Host} where
  -- `ensureTomcatUTF8Setenv`
  unfoldable pub ensure_tomcat_utf8_setenv : String → Prog (Sys h) (Unit {0})
  unfolding ◌>>=◌
  ensure_tomcat_utf8_setenv home = do
    let bin = h.join (home ∷ "bin" ∷ [])
    found ← look (h.stat bin)
    if is_missing found then skip else (do
      _ ← ask (h.write_file (h.join (bin ∷ "setenv.sh" ∷ [])) setenv_sh)
      _ ← ask (h.write_file (h.join (bin ∷ "setenv.bat" ∷ [])) setenv_bat)
      skip)

  -- `javaDefaultFileEncoding`
  unfoldable pub java_default_file_encoding : Tools h → String → Prog (Sys h) String
  unfolding ◌>>=◌
  java_default_file_encoding tools java_home = do
    let java = if str_eq java_home "" then "java" else h.join (java_home ∷ "bin" ∷ "java" ∷ [])
    printed ← ask (tools.combined (cmd_of java ("-XshowSettings:properties" ∷ "-version" ∷ [])))
    ret (encoding_of printed)

module _ {h : Host} (r : Reader h) where
  abbrev pub with_console : String → String → Option (List String) → String
  with_console data_ line none = trim_newlines data_ <> "\n" <> line <> "\n"
  with_console data_ line (some ms) = r.replace console_regexp data_ line

  abbrev pub put_console : String → String → Outcome String → Prog (Sys h) (Option String)
  put_console path enc (fault e) = ret (some e)
  put_console path enc (got data_) =
      let line = "java.util.logging.ConsoleHandler.encoding = " <> enc in
      ask (h.write_file path (with_console data_ line (r.find console_regexp data_)))

  -- `setTomcatConsoleEncoding`
  unfoldable pub set_tomcat_console_encoding : String → String → Prog (Sys h) (Option String)
  unfolding ◌>>=◌
  set_tomcat_console_encoding conf enc = do
    let path = h.join (conf ∷ "logging.properties" ∷ [])
    data_ ← look (r.read_text path)
    put_console path enc data_

  abbrev pub report_encoding : Bool → String → String → Option String → Prog (Sys h) (Unit {0})
  report_encoding is_utf8 enc id (some e) = log id ("[warn] Tomcat 콘솔 로그 인코딩 설정 실패: " <> e)
  report_encoding is_utf8 enc id none =
      if is_utf8
      then skip
      else log id
          ("[info] Tomcat 콘솔 로그 인코딩을 RSP 백엔드 문자셋(" <> enc <> ")에 맞췄습니다 (VSCode 한글 로그 깨짐 방지)")

  -- `alignTomcatConsoleEncodingWithRSP`, with `strings.EqualFold`.
  unfoldable pub align_tomcat_console_encoding :
      Tools h → (String → String → Bool) → String → String → String → Prog (Sys h) (Unit {0})
  unfolding ◌>>=◌
  align_tomcat_console_encoding tools equal_fold home java_home id = do
    enc ← java_default_file_encoding tools java_home
    if str_eq enc "" then skip else (do
      failed ← set_tomcat_console_encoding (h.join (home ∷ "conf" ∷ [])) enc
      report_encoding (equal_fold enc "UTF-8") enc id failed)

module _ {h : Host} (r : Reader h) (wire : Wire h) (d : Decoders) where
  -- Asks the RSP backend, if there is one, to stop the server; errors are dropped.
  abbrev pub stop_on_rsp : ℤ → String → Prog (Sys h) (Option String)
  stop_on_rsp rsp_port server =
      if is_pos rsp_port
      then with_client wire d rsp_port (λ c. do
        let params = object (member "id" (text server) (member "force" (truth true) none_more))
        _ ← call wire "server/stopServerAsync" params 5000 c
        ret none)
      else ret none

  -- Stops whatever Tomcat has the port.
  unfoldable pub free_http_port : String → ℤ → ℤ → String → String → Prog (Sys h) (Unit {0})
  unfolding ◌>>=◌
  free_http_port home port rsp_port server id = do
    up ← port_listening h port 500
    if not up then skip else (do
      log id ("[info] 포트 " <> itoa port <> "가 점유 중입니다. 실행 중인 Tomcat 정지를 시도합니다")
      _ ← stop_tomcat_catalina h id home
      _ ← stop_on_rsp rsp_port server
      tell (h.sleep 1000))

  abbrev pub fall_back : String → ℤ → ℤ → Prog (Sys h) ℤ
  fall_back id port fallback =
      if is_pos fallback
      then (log id (
            "[warning] 포트 "
            <> itoa port
            <> "가 타 프로세스에 의해 사용 중입니다 → 빈 포트 "
            <> itoa fallback
            <> "로 자동 충돌 회피")
          >> ret fallback)
      else ret port

  -- The port, or a free one behind it while another program has it.
  unfoldable pub choose_http_port : String → ℤ → Prog (Sys h) ℤ
  unfolding ◌>>=◌
  choose_http_port id port = do
    up ← port_listening h port 500
    if not up
        then ret port
        else (do fallback ← find_available_port h (next_int port); fall_back id port fallback)

  abbrev pub report_port : String → ℤ → ℤ → Option String → Prog (Sys h) (ℤ × Option String)
  report_port id current target (some e) = ret (current, some e)
  report_port id current target none =
      log id ("[success] server.xml Connector 포트를 " <> itoa target <> "로 변경했습니다")
      >> ret (target, none)

  -- Writes the port into the connector unless it has it.
  unfoldable pub put_http_port : String → String → String → ℤ → ℤ → Prog (Sys h) (ℤ × Option String)
  unfolding ◌>>=◌
  put_http_port id server_xml data_ current target =
      if eq_ℤ current target then ret (target, none) else (do
        log id ("[info] Tomcat HTTP 포트를 " <> itoa current <> " → " <> itoa target <> "로 변경합니다")
        let new_data = r.replace http_regexp data_ ("${1}" <> itoa target <> "${3}")
        failed ← ask (h.write_file server_xml new_data)
        report_port id current target failed)

  abbrev pub on_connector :
      String
      → ℤ
      → ℤ
      → String
      → String
      → String
      → String
      → Option (List String)
      → Prog (Sys h) (ℤ × Option String)
  on_connector home desired rsp_port server id server_xml data_ none =
      ret (desired, some "server.xml에서 HTTP Connector를 찾지 못했습니다")
  on_connector home desired rsp_port server id server_xml data_ (some groups) = do
    free_http_port home desired rsp_port server id
    target ← choose_http_port id desired
    put_http_port id server_xml data_ (atoi (group 2 groups)).0 target

  abbrev pub on_server_xml :
      String → ℤ → ℤ → String → String → String → Outcome String → Prog (Sys h) (ℤ × Option String)
  on_server_xml home desired rsp_port server id server_xml (fault e) = ret (desired, some e)
  on_server_xml home desired rsp_port server id server_xml (got data_) =
      on_connector home desired rsp_port server id server_xml data_ (r.find http_regexp data_)

  -- `ensureTomcatHTTPPort`, with the port that it gives and its error.
  unfoldable pub ensure_tomcat_http_port :
      String → ℤ → ℤ → String → String → Prog (Sys h) (ℤ × Option String)
  unfolding ◌>>=◌
  ensure_tomcat_http_port home desired rsp_port server id = do
    ensure_tomcat_utf8_setenv home
    clean_tomcat_webapps h id home
    let server_xml = h.join (home ∷ "conf" ∷ "server.xml" ∷ [])
    data_ ← look (r.read_text server_xml)
    on_server_xml home desired rsp_port server id server_xml data_

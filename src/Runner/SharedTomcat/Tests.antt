-- ===== src/Runner/SharedTomcat/Tests.antt =====
-- The encoding that a JVM reports, and a server.xml with a connector at 8080.
use egovframe_launcher.Base.{◌≡◌, refl, none, some, [], ◌∷◌, arith}
use egovframe_launcher.Base.Int.{pos}
use egovframe_launcher.Base.Outcome.{got}
use egovframe_launcher.Runner.Database.{Reader, unread}
use egovframe_launcher.Runner.RspClient.Servers.{Decoders}
use egovframe_launcher.Runner.RspClient.Tests.{peer_host, peer}
use egovframe_launcher.Runner.Database.Parse.{split_lines}
use egovframe_launcher.Runner.SharedTomcat.{
  encoding_of, first_encoding, trim_newlines, ensure_tomcat_http_port,
}
use egovframe_launcher.Runner.SharedTomcat.PortRange.{Fits, Always, ensure_tomcat_http_port-Always}

encodings :
    (encoding_of ("Property settings:\n    file.encoding = MS949\n    file.encoding = x", none)
      ≡ "MS949")
    × (encoding_of ("file.encoding = MS949", some "exit status 1") ≡ "")
    × (trim_newlines "a\nb\n\n" ≡ "a\nb")
unfolding first_encoding split_lines trim_newlines
encodings = (refl, refl, refl)

abbrev tomcat_reader : Reader peer_host
tomcat_reader = record {
  tree = λ dir w. unread;
  read_text = λ path w. got "<Connector port=\"8080\" protocol=\"HTTP/1.1\"";
  list_dir = λ path w. got [];
  stat_error = λ path w. none;
  base = λ path. path;
  parent = λ path. path;
  to_lower = λ s. s;
  find = λ re text. some (text ∷ "<Connector port=\"" ∷ "8080" ∷ "\" protocol=\"HTTP/1.1\"" ∷ []);
  replace = λ re text new. text;
}

abbrev decoders : Decoders
decoders = record {
  state_of = λ s. (s, pos 4);
  handles_of = λ s. [];
  status_severity = λ s. none;
  severity = λ s. none;
  port_of = λ s. none;
  to_slash = λ s. s;
}

ensure_tomcat_http_port-Always_example : Always (Fits 8081) (
    ensure_tomcat_http_port tomcat_reader peer decoders "/opt/tomcat"
      (pos 8081)
      (pos 27511)
      "launcher"
      "web")
ensure_tomcat_http_port-Always_example =
    ensure_tomcat_http_port-Always tomcat_reader peer decoders "/opt/tomcat" 8081 (pos 27511)
      "launcher" "web" (omega arith)

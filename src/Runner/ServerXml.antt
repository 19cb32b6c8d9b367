-- ===== src/Runner/ServerXml.antt =====
-- The server.xml of a project's Tomcat in launcher/internal/runner/runner.go: patchServerXML and
-- the functions on a tag that it calls. Positions in a text count its characters.
pub mod Laws
pub mod Tests
use egovframe_launcher.Base.{
  ℕ, ◌+◌, ◌-◌, String, ◌<>◌, Bool, false, not, ◌&&◌, ◌||◌, Option, none, some, List, [], ◌∷◌, leb,
  ltb, if◌then◌else◌,
}
use egovframe_launcher.Base.Int.{ℤ}
use egovframe_launcher.Base.Outcome.{Outcome, got, fault}
use egovframe_launcher.Base.Text.{contains, ends_with, itoa}
use Prim.Native.String.{len, slice}

-- Where a match begins and where it ends.
pub record Loc : Type 0 where
  pub first : ℕ
  pub last : ℕ

-- What the runner asks of regexp, with the expression as it is written: `FindStringIndex`,
-- `FindAllStringIndex`, `MatchString` and `ReplaceAllString`.
pub record Patterns : Type 0 where
  pub find_index : String → String → Option Loc
  pub find_all_index : String → String → List Loc
  pub matches : String → String → Bool
  pub replace : String → String → String → String

abbrev pub comment_regexp : String
comment_regexp = "(?s)<!--.*?-->"

abbrev pub server_regexp : String
server_regexp = "<Server\\b[^>]*>"

abbrev pub connector_regexp : String
connector_regexp = "<Connector\\b[^>]*>"

abbrev pub port_regexp : String
port_regexp = "port=\"\\d+\""

-- `text[:loc[0]] + new + text[loc[1]:]` and `text[loc[0]:loc[1]]`
abbrev pub splice : String → Loc → String → String
splice text loc new = slice text 0 loc.first <> new <> slice text loc.last (len text)

abbrev pub tag_at : String → Loc → String
tag_at text loc = slice text loc.first loc.last

-- `serverXMLEnsureAttr`
unfoldable pub ensure_attr : String → String → String → String
ensure_attr tag name value =
    let insert = " " <> name <> "=\"" <> value <> "\"" in
    if contains tag (name <> "=")
    then tag
    else if ends_with tag "/>"
    then slice tag 0 (len tag - 2) <> insert <> "/>"
    else slice tag 0 (len tag - 1) <> insert <> ">"

-- `inComment`
unfoldable pub in_comment : List Loc → ℕ → Bool
in_comment [] idx = false
in_comment (r ∷ rs) idx = (leb r.first idx && ltb idx r.last) || in_comment rs idx

-- The tag at the place is of an HTTP connector that is in use.
abbrev pub is_http : String → List Loc → Loc → Bool
is_http xml comments loc =
    not (in_comment comments loc.first)
    && contains (tag_at xml loc) "protocol=\"HTTP/1.1\""
    && not (contains (tag_at xml loc) "SSLEnabled=\"true\"")

-- The loop over the tags of connectors.
unfoldable pub first_http : String → List Loc → List Loc → Option Loc
first_http xml comments [] = none
first_http xml comments (loc ∷ more) =
    let rest = first_http xml comments more in if is_http xml comments loc then some loc else rest

module _ (p : Patterns) where
  -- `serverXMLReplacePort`
  unfoldable pub replace_port : String → ℤ → Outcome String
  replace_port tag new_port =
      if p.matches port_regexp tag
      then got (p.replace port_regexp tag ("port=\"" <> itoa new_port <> "\""))
      else fault "port 속성을 찾을 수 없습니다"

  abbrev pub put_connector : String → Loc → Outcome String → Outcome String
  put_connector xml loc (fault e) =
      fault "server.xml의 HTTP Connector에서 port 속성을 찾을 수 없습니다 — 비표준 Tomcat 설치"
  put_connector xml loc (got tag) = got (
      splice xml loc
        (ensure_attr (ensure_attr tag "URIEncoding" "UTF-8") "useBodyEncodingForURI" "true"))

  abbrev pub patch_connector : String → ℤ → Option Loc → Outcome String
  patch_connector xml http_port none =
      fault "server.xml에서 사용 가능한 HTTP Connector를 찾을 수 없습니다 — 비표준 Tomcat 설치"
  patch_connector xml http_port (some loc) =
      put_connector xml loc (replace_port (tag_at xml loc) http_port)

  -- The connector that the loop takes.
  abbrev pub connector_of : String → Option Loc
  connector_of xml =
      first_http xml (p.find_all_index comment_regexp xml) (p.find_all_index connector_regexp xml)

  abbrev pub put_server : String → Loc → ℤ → Outcome String → Outcome String
  put_server xml loc http_port (fault e) =
      fault "server.xml의 <Server> 태그에서 shutdown port를 찾을 수 없습니다 — 비표준 Tomcat 설치"
  put_server xml loc http_port (got tag) =
      let patched = splice xml loc tag in patch_connector patched http_port (connector_of patched)

  abbrev pub patch_server : String → ℤ → ℤ → Option Loc → Outcome String
  patch_server xml http_port shutdown_port none =
      fault "server.xml에서 <Server> 태그를 찾을 수 없습니다 — 비표준 Tomcat 설치"
  patch_server xml http_port shutdown_port (some loc) =
      put_server xml loc http_port (replace_port (tag_at xml loc) shutdown_port)

  -- `patchServerXML`
  unfoldable pub patch_server_xml : String → ℤ → ℤ → Outcome String
  patch_server_xml xml http_port shutdown_port =
      patch_server xml http_port shutdown_port (p.find_index server_regexp xml)

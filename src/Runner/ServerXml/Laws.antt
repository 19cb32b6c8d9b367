-- ===== src/Runner/ServerXml/Laws.antt =====
-- Where patchServerXML of launcher/internal/runner/runner.go changes a server.xml.
use egovframe_launcher.Base.{
  ℕ, ◌≡◌, ◌≤◌, ◌<◌, String, ◌<>◌, true, false, some, List, ◌∷◌, ◌++◌, All,
}
use egovframe_launcher.Base.Int.{ℤ}
use egovframe_launcher.Base.Outcome.{Outcome}
use egovframe_launcher.Base.Text.{contains, itoa}
use egovframe_launcher.Runner.ServerXml.{
  Loc, Patterns, comment_regexp, server_regexp, connector_regexp, port_regexp, splice, tag_at,
  ensure_attr, is_http,
}

-- The position is in no comment.
abbrev pub Outside : List Loc → ℕ → Type 0
Outside comments idx = All (λ r. ¬ (r.first ≤ idx × idx < r.last)) comments

-- The place is the first one with the tag of an HTTP connector that is not in a comment.
pub record Chosen (xml : String) (comments places : List Loc) (loc : Loc) : Type 0 where
  pub before : List Loc
  pub after : List Loc
  pub in_order : places ≡ before ++ loc ∷ after
  pub passed_over : All (λ l. is_http xml comments l ≡ false) before
  pub outside : Outside comments loc.first
  pub http : contains (tag_at xml loc) "protocol=\"HTTP/1.1\"" ≡ true
  pub no_ssl : contains (tag_at xml loc) "SSLEnabled=\"true\"" ≡ false

module _ (p : Patterns) (xml : String) (http_port shutdown_port : ℤ) where
  -- A tag with the number of its port replaced.
  abbrev pub with_port : String → ℤ → String
  with_port tag port = p.replace port_regexp tag ("port=\"" <> itoa port <> "\"")

  abbrev pub attributed : String → String
  attributed tag =
      ensure_attr (ensure_attr tag "URIEncoding" "UTF-8") "useBodyEncodingForURI" "true"

  -- The middle text has the shutdown port in the tag of the server, and is the text besides.
  pub record ServerPut (middle : String) : Type 0 where
    pub server : Loc
    pub found : p.find_index server_regexp xml ≡ some server
    pub has_port : p.matches port_regexp (tag_at xml server) ≡ true
    pub put : middle ≡ splice xml server (with_port (tag_at xml server) shutdown_port)

  -- The result has the port and two attributes in the tag of the chosen connector, and is the
  -- middle text besides.
  pub record ConnectorPut (middle out : String) : Type 0 where
    pub connector : Loc
    pub chosen :
        Chosen middle
          (p.find_all_index comment_regexp middle)
          (p.find_all_index connector_regexp middle)
          connector
    pub has_port : p.matches port_regexp (tag_at middle connector) ≡ true
    pub put :
        out ≡ splice middle connector (attributed (with_port (tag_at middle connector) http_port))

  pub record Patched (out : String) : Type 0 where
    pub middle : String
    pub server_put : ServerPut middle
    pub connector_put : ConnectorPut middle out

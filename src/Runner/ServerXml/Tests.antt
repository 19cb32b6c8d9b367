-- ===== src/Runner/ServerXml/Tests.antt =====
-- A server.xml with a connector in a comment, and patterns that find tags by their first and last
-- characters.
use egovframe_launcher.Base.{
  ℕ, zero, suc, ◌+◌, String, ◌<>◌, str_eq, Option, none, some, List, [], ◌∷◌, if◌then◌else◌,
}
use Prim.Native.String.{len, slice}
use text.Mathlib.Text.{find?}
use egovframe_launcher.Base.Text.{contains}
use egovframe_launcher.Runner.ServerXml.{Loc, Patterns, comment_regexp}

abbrev text_from : ℕ → String → String
text_from at text = slice text at (len text)

abbrev end_in : String → String → ℕ
end_in text close = elim (find? text close) [ none ↦ len text | some i ↦ i + len close ]

abbrev scan : ℕ → String → String → ℕ → String → List Loc
scan zero start close offset text = []
scan (suc fuel) start close offset text = elim (find? text start) [
  | none ↦ []
  | some i ↦
      let last = i + end_in (text_from i text) close in
      record { first = offset + i; last = offset + last }
      ∷ scan fuel start close (offset + last) (text_from last text)
]

abbrev first_of : List Loc → Option Loc
first_of [] = none
first_of (l ∷ ls) = some l

abbrev new_port : String → String → String
new_port tag new = elim (find? tag "port=\"") [
  | none ↦ tag
  | some i ↦ slice tag 0 i <> new <> text_from (i + 6 + end_in (text_from (i + 6) tag) "\"") tag
]

abbrev patterns : Patterns
patterns = record {
  find_index = λ re text. first_of (scan 1 "<Server" ">" 0 text);
  find_all_index = λ re text.
      if str_eq re comment_regexp
      then scan 3 "<!--" "-->" 0 text
      else scan 3 "<Connector" ">" 0 text;
  matches = λ re tag. contains tag "port=\"";
  replace = λ re tag new. new_port tag new;
}

abbrev server_xml : String
server_xml =
    "<Server port=\"8005\"><!--<Connector port=\"8080\" protocol=\"HTTP/1.1\"/>--><Connector port=\"9090\" protocol=\"HTTP/1.1\"/></Server>"

abbrev patched_xml : String
patched_xml =
    "<Server port=\"-1\"><!--<Connector port=\"8080\" protocol=\"HTTP/1.1\"/>--><Connector port=\"8081\" protocol=\"HTTP/1.1\" URIEncoding=\"UTF-8\" useBodyEncodingForURI=\"true\"/></Server>"

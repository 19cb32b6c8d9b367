-- ===== src/Runner/SharedTomcat/PortRange.antt =====
-- The port that ensureTomcatHTTPPort of launcher/internal/runner/runner.go gives the connector.
use egovframe_launcher.Base.{
  ℕ, zero, suc, ◌+◌, ◌≤◌, ◌<◌, ◌≡◌, String, ◌<>◌, not, Option, none, some, List, [], ◌∷◌, arith,
}
use egovframe_launcher.Base.Atoi.{atoi}
use egovframe_launcher.Base.Int.{ℤ, pos, negsuc, add_ℕ, is_pos, eq_ℤ}
use egovframe_launcher.Base.Outcome.{Outcome, got, fault}
use egovframe_launcher.Base.Text.{itoa}
use egovframe_launcher.Prog.{Prog, ret, quit, step, ◌>>=◌}
use egovframe_launcher.Prog.Ends.{Any, Ends, EndsWell, Ends-bind, Ends-ret, Ends-if}
use egovframe_launcher.Runner.Host.{Host}
use egovframe_launcher.Runner.Sys.{Sys, ask, look, log}
use egovframe_launcher.Runner.Ports.{
  is_port_available, scan_ports, find_available_port, port_listening, scan_len, max_int,
  bound_wraps,
}
use egovframe_launcher.Runner.Tomcat.{clean_tomcat_webapps}
use egovframe_launcher.Runner.Database.{Reader, group}
use egovframe_launcher.Runner.RspClient.{Wire}
use egovframe_launcher.Runner.RspClient.Servers.{Decoders}
use egovframe_launcher.Runner.SharedTomcat.{
  next_int, http_regexp, ensure_tomcat_utf8_setenv, free_http_port, fall_back, choose_http_port,
  report_port, put_http_port, on_connector, on_server_xml, ensure_tomcat_http_port,
}

-- The number lies within a hundred above the first.
abbrev pub Near : ℕ → ℤ → Type 0
Near first (pos k) = (first ≤ k) × (k ≤ first + scan_len)
Near first (negsuc k) = ⊥

-- The port is near, unless there is an error.
abbrev pub Fits : ℕ → ℤ × Option String → Type 0
Fits first (port, none) = Near first port
Fits first (port, some e) = Unit

next_lem : (first : ℕ) → first < max_int → next_int (pos first) ≡ pos (suc first)
unfolding add_ℕ
next_lem first room = ground (arith, room)

module _ {h : Host} where
  -- In every interleaving.
  abbrev pub Always : {A : Type 0} → (A → Type 0) → Prog (Sys h) A → Type 0
  Always R m = Ends (λ s. Unit) R m

  whatever-EndsWell : {A : Type 0} (m : Prog (Sys h) A) → EndsWell (λ s. Unit) Any m
  whatever-EndsWell (ret a) = tt
  whatever-EndsWell quit = tt
  whatever-EndsWell (step f k) = λ s p. (tt, whatever-EndsWell (k s))

  -- What comes before says nothing of the result.
  after-Always :
      {A B : Type 0} {R : B → Type 0} (m : Prog (Sys h) A) (f : A → Prog (Sys h) B)
      → ((a : A) → Always R (f a))
      → Always R (m >>= f)
  after-Always m f af =
      Ends-bind {R = Any} m f (record { well = whatever-EndsWell m }) (λ a _. af a)

  scan-Always :
      (left port start : ℕ) (first : ℕ)
      → first ≤ start
      → start ≤ first + scan_len
      → first ≤ port
      → port + left ≤ suc (first + scan_len)
      → Always (Near first) (scan_ports h left (pos port) (pos start))
  unfolding scan_ports add_ℕ
  scan-Always zero port start first a b c d = Ends-ret (pos start) (a, b)
  scan-Always (suc left) port start first a b c d =
      after-Always (is_port_available h (pos port)) _ (λ free.
        Ends-if free _ _ (λ yes. Ends-ret (pos port) (c, omega arith))
          (λ no. scan-Always left (port + 1) start first a b (omega arith) (omega arith)))

  find-Always : (first : ℕ) → Always (Near first) (find_available_port h (pos (suc first)))
  unfolding find_available_port
  find-Always first =
      Ends-if (bound_wraps (pos (suc first))) _ _
        (λ wraps. Ends-ret (pos (suc first)) (omega arith, omega arith))
        (λ room.
          scan-Always scan_len (suc first) (suc first) first (omega arith) (omega arith)
            (omega arith) (omega arith))

module _ {h : Host} (r : Reader h) (wire : Wire h) (d : Decoders) where
  fall_back-Always :
      (id : String) (first : ℕ) (fallback : ℤ)
      → Near first fallback
      → Always (Near first) (fall_back r wire d id (pos first) fallback)
  fall_back-Always id first fallback near =
      Ends-if (is_pos fallback) _ _ (λ yes. after-Always (log id _) _ (λ _. Ends-ret fallback near))
        (λ no. Ends-ret (pos first) (omega arith, omega arith))

  choose-Always :
      (id : String) (first : ℕ)
      → first < max_int
      → Always (Near first) (choose_http_port r wire d id (pos first))
  unfolding choose_http_port
  choose-Always id first room = after-Always (port_listening h (pos first) 500) _ (λ up.
      Ends-if (not up) _ _ (λ down. Ends-ret (pos first) (omega arith, omega arith))
        (λ listening. rw (next_lem first room) (
          Ends-bind {R = Near first} _ _ (find-Always first)
            (λ fallback near. fall_back-Always id first fallback near))))

  report-Always :
      (id : String) (first : ℕ) (current target : ℤ) (o : Option String)
      → Near first target
      → Always (Fits first) (report_port r wire d id current target o)
  report-Always id first current target (some e) near = Ends-ret _ tt
  report-Always id first current target none near =
      after-Always (log id _) _ (λ _. Ends-ret (target, none) near)

  put-Always :
      (id server_xml data_ : String) (first : ℕ) (current target : ℤ)
      → Near first target
      → Always (Fits first) (put_http_port r wire d id server_xml data_ current target)
  unfolding put_http_port
  put-Always id server_xml data_ first current target near =
      Ends-if (eq_ℤ current target) _ _ (λ same. Ends-ret (target, none) near)
        (λ other. after-Always (log id _) _ (λ _.
          after-Always
            (ask (
              h.write_file server_xml
                (r.replace http_regexp data_ ("${1}" <> itoa target <> "${3}"))))
            (report_port r wire d id current target)
            (λ failed. report-Always id first current target failed near)))

  connector-Always :
      (home : String) (first : ℕ) (rsp_port : ℤ) (server id server_xml data_ : String)
      (o : Option (List String))
      → first < max_int
      → Always
          (Fits first)
          (on_connector r wire d home (pos first) rsp_port server id server_xml data_ o)
  connector-Always home first rsp_port server id server_xml data_ none room = Ends-ret _ tt
  connector-Always home first rsp_port server id server_xml data_ (some groups) room =
      after-Always (free_http_port r wire d home (pos first) rsp_port server id) _ (λ _.
        Ends-bind {R = Near first} _ _ (choose-Always id first room) (λ target near.
          put-Always id server_xml data_ first (atoi (group 2 groups)).0 target near))

  server_xml-Always :
      (home : String) (first : ℕ) (rsp_port : ℤ) (server id server_xml : String)
      (o : Outcome String)
      → first < max_int
      → Always
          (Fits first)
          (on_server_xml r wire d home (pos first) rsp_port server id server_xml o)
  server_xml-Always home first rsp_port server id server_xml (fault e) room = Ends-ret _ tt
  server_xml-Always home first rsp_port server id server_xml (got data_) room =
      connector-Always home first rsp_port server id server_xml data_ (r.find http_regexp data_)
        room

  -- Whatever other goroutines do between its steps, a port that ensureTomcatHTTPPort gives without
  -- an error is the desired one or one of the hundred behind it, if the desired one is a number
  -- below the largest int.
  pub ensure_tomcat_http_port-Always :
      (home : String) (first : ℕ) (rsp_port : ℤ) (server id : String)
      → first < max_int
      → Always (Fits first) (ensure_tomcat_http_port r wire d home (pos first) rsp_port server id)
  unfolding ensure_tomcat_http_port
  ensure_tomcat_http_port-Always home first rsp_port server id room =
      after-Always (ensure_tomcat_utf8_setenv home) _ (λ _.
        after-Always (clean_tomcat_webapps h id home) _ (λ _.
          let server_xml = h.join (home ∷ "conf" ∷ "server.xml" ∷ []) in
          after-Always (look (r.read_text server_xml)) _
            (λ o. server_xml-Always home first rsp_port server id server_xml o room)))

-- ===== src/Runner/RspClient/Tests.antt =====
-- A peer that sends one answer, and the theorems on it.
use egovframe_launcher.Base.{
  suc, ◌+◌, ◌≤◌, ◌≡◌, refl, String, false, none, some, List, [], ◌∷◌, length, arith,
}
use egovframe_launcher.Base.Int.{pos}
use egovframe_launcher.Base.Atoi.{atoi, digits, digits_from}
use egovframe_launcher.Base.Outcome.{Outcome, got, fault}
use egovframe_launcher.Prog.{run, ◌>>=◌}
use egovframe_launcher.Persist
use egovframe_launcher.Runner.Host.{Host}
use egovframe_launcher.Runner.Sys.{Sys}
use egovframe_launcher.Runner.Tests.{idle_host}
use egovframe_launcher.Runner.RspClient.{
  null, Msg, Wire, Client, is_call, trim_eol, write_frame, send, read_headers, read_frame,
  read_frames, read_msg, await_answer, await_id, call,
}
use egovframe_launcher.Runner.RspClient.Sending.{Sent}
use egovframe_launcher.Runner.RspClient.Laws.{Answered, read_msg_lem, call_lem}
use egovframe_launcher.Runner.RspClient.Rounds.{Finite, Less, read_msg_enough}

-- The world is what the peer has still to send, line by line.
abbrev pub peer_host : Host
peer_host = idle_host (List String)

abbrev pop : List String → Outcome String × List String
pop [] = (fault "EOF", [])
pop (l ∷ ls) = (got l, ls)

abbrev answer : Msg
answer = record { id = some (pos 1); method = ""; result = "[]"; params = ""; err_text = "" }

abbrev pub peer : Wire peer_host
peer = record {
  connect = λ port n w. (got 7, w);
  write = λ conn s w. (none, w);
  read_line = λ conn deadline w. pop w;
  read_full = λ conn deadline n w. pop w;
  close = λ conn w. w;
  pending = λ conn deadline w. length w;
  marshal = λ j. got "{}";
  decode_msg = λ s. got answer;
}

abbrev peer_sys : Sys peer_host
peer_sys = record {
  world = "Content-Length: 9\r\n" ∷ "\r\n" ∷ "{\"id\": 1}" ∷ [];
  settings = Persist.start;
  workspace = "/w";
  skip_tests = false;
  java_home = "";
  jobs = [];
  needs_db_cache = [];
}

abbrev client : Client
client = record { conn = 7; next_id = 0 }

abbrev read_sys : Sys peer_host
read_sys = record peer_sys { world = [] }

read_one : run (read_msg peer 7 100) peer_sys ≡ (some (got answer), read_sys)
unfolding read_msg read_frames read_frame read_headers trim_eol atoi digits digits_from run ◌>>=◌
read_one = refl

read_msg_lem_example : is_call answer ≡ false
read_msg_lem_example = read_msg_lem peer 7 100 peer_sys read_one

called :
    run (call peer "server/getServerHandles" null 15000 client) peer_sys
    ≡ (some (record client { next_id = 1 }, got "[]"), read_sys)
unfolding call send write_frame await_id await_answer read_msg read_frames read_frame read_headers
    trim_eol atoi digits digits_from run ◌>>=◌
called = refl

call_lem_example :
    (record client { next_id = 1 } ≡ record client { next_id = 1 })
    × (t : Sys peer_host) × Sent peer "server/getServerHandles" null 1 7 peer_sys t
    × Answered peer 1 7 (peer_host.now t.world + 15000) t read_sys "[]"
call_lem_example =
    call_lem peer "server/getServerHandles" null 15000 client (record client { next_id = 1 })
      peer_sys called

pop-Less : (w : List String) → let r = pop w in Less peer 7 100 w r.0 r.1
pop-Less [] = omega arith
pop-Less (l ∷ ls) = omega arith

pop_le : (w : List String) → length (pop w).1 ≤ length w
pop_le [] = omega arith
pop_le (l ∷ ls) = omega arith

peer-Finite : Finite peer_host peer
peer-Finite = record {
  line_less = λ conn deadline w. pop-Less w;
  body_le = λ conn deadline n w. pop_le w;
  write_le = λ conn deadline s w. omega arith;
}

read_msg_enough_example :
    run (read_msg peer 7 100) peer_sys ≡ run (read_frames peer (suc 3 + 5) 7 100) peer_sys
read_msg_enough_example = read_msg_enough peer peer-Finite 5 7 100 peer_sys

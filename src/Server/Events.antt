-- ===== src/Server/Events.antt =====
-- The stream of a job's log: handleEvents of launcher/internal/server/server.go. It subscribes and
-- then takes the snapshot, each under the buffer's lock, so other goroutines may come between.
pub mod Laws
use Prim.Native.String.{String}
use Prim.Native.Char.{Char, code}
use egovframe_launcher.Base.{ℕ, ◌<>◌, ◌==◌, ◌≡◌, refl, Bool, List, [], ◌∷◌, if◌then◌else◌}
use egovframe_launcher.Base.Text.{replace_all}
use egovframe_launcher.LogBuf.{
  Buf, Received, blocked, finished, line, subscribe, snapshot, receive, cancel,
}

abbrev add_front : Char → List String → List String
add_front c [] = String.◌∷◌ c "" ∷ []
add_front c (t ∷ ts) = String.◌∷◌ c t ∷ ts

-- `strings.Split(s, "\n")`
split_lines : String → List String
split_lines String.[] = "" ∷ []
split_lines (String.◌∷◌ c s) =
    let rest = split_lines s in if code c == 10 then "" ∷ rest else add_front c rest

data_lines : List String → String
data_lines [] = "\n"
data_lines (t ∷ ts) = "data: " <> t <> "\n" <> data_lines ts

-- `sendSSELine`
unfoldable pub sse_line : String → String
unfolding data_lines split_lines
sse_line text = data_lines (split_lines (replace_all text "\r\n" "\n"))

unfoldable pub sse_lines : List String → String
sse_lines [] = ""
sse_lines (t ∷ ts) = sse_line t <> sse_lines ts

-- Where the handler stands: before the snapshot, in the loop, or returned.
pub data Stream : Type 0 where
  subscribed : ℕ → Stream
  following : ℕ → Stream
  returned : Stream

unfoldable pub begin : Buf → Stream × Buf
begin b = (subscribed (subscribe b).1, (subscribe b).0)

abbrev pub deliver : ℕ → Received → Buf → Stream × Buf × String
deliver id blocked b = (following id, b, "")
deliver id finished b = (returned, cancel id b, "")
deliver id (line text) b = (following id, b, sse_line text)

-- One step of the handler, with what it writes.
unfoldable pub advance : Stream → Buf → Stream × Buf × String
advance (subscribed id) b = (following id, b, sse_lines (snapshot b))
advance (following id) b = deliver id (receive id b).0 (receive id b).1
advance returned b = (returned, b, "")

-- The request's context is done: the deferred `cancel` runs.
unfoldable pub leave : Stream → Buf → Stream × Buf
leave (subscribed id) b = (returned, cancel id b)
leave (following id) b = (returned, cancel id b)
leave returned b = (returned, b)

sent : sse_line "a\r\nb" ≡ "data: a\ndata: b\n\n"
unfolding sse_line replace_all data_lines split_lines
sent = refl

-- ===== src/Server/Events/Laws.antt =====
-- Lines that the stream of launcher/internal/server/server.go sends twice.
use egovframe_launcher.Base.{◌≤◌, String, ◌<>◌, ◌≡◌, ◌∙◌, sym, refl, ap, List, [], ◌∷◌, ◌++◌}
use text.Mathlib.TextLemmas.{append-nil, nil-append, append_assoc}
use egovframe_launcher.LogBuf.{Buf, subscribe, append, snapshot, receive, Chan, Received, received}
use egovframe_launcher.LogBuf.Steps.{IsValid}
use egovframe_launcher.LogBuf.Tail.{trim-last, append-lines, append_each}
use egovframe_launcher.LogBuf.Fanout.{append_each-subscribe}
use egovframe_launcher.Server.Events.{begin, advance, deliver, sse_line, sse_lines}

received_one : (c : Chan) (text : String) → c.queue ≡ text ∷ [] → received c ≡ Received.line text
received_one c text e = rw e refl

queue_one :
    (b : Buf) (text : String)
    → IsValid b
    → ((append text (subscribe b).0).chan (subscribe b).1).queue ≡ text ∷ []
unfolding append_each
queue_one b text v = append_each-subscribe b (text ∷ []) v

sse_lines-append :
    (older : List String) (text : String)
    → sse_lines (older ++ text ∷ []) ≡ sse_lines older <> sse_line text
unfolding sse_lines
sse_lines-append [] text = append-nil (sse_line text) ∙ sym (nil-append (sse_line text))
sse_lines-append (t ∷ older) text =
    ap (λ r. sse_line t <> r) (sse_lines-append older text)
    ∙ sym (append_assoc (sse_line t) (sse_lines older) (sse_line text))

snapshot-append :
    (b : Buf) (text : String)
    → 1 ≤ b.cap
    → (older : List String) × (snapshot (append text b) ≡ older ++ text ∷ [])
unfolding snapshot
snapshot-append b text room =
    let (older, e) = trim-last b.cap b.lines text room in (older, append-lines text b ∙ e)

-- What the handler writes in its first two steps behind the subscription, when nothing but the
-- append of one line comes between the subscription and the snapshot.
abbrev pub first_two : Buf → String → String × String
first_two b text =
    let (stream, b1) = begin b in
    let (stream2, b2, out) = advance stream (append text b1) in
    let (stream3, b3, out2) = advance stream2 b2 in (out, out2)

-- A line that is appended between the subscription and the snapshot is sent twice: it is the last
-- line of the buffer, the first thing that the handler writes is all older lines and then this one,
-- and the second is the line again. The buffer is any valid one.
pub append-begin_twice :
    (b : Buf) (text : String)
    → IsValid b
    → ((older : List String) × (snapshot (append text (begin b).1) ≡ older ++ text ∷ [])
        × ((first_two b text).0 ≡ sse_lines older <> sse_line text))
      × ((first_two b text).1 ≡ sse_line text)
unfolding begin advance receive
append-begin_twice b text v =
    let (older, e) = snapshot-append (subscribe b).0 text (unfold subscribe in v.room) in
    (
      (older, e, ap sse_lines e ∙ sse_lines-append older text),
      ap
          (λ r.
            (deliver (subscribe b).1 r (receive (subscribe b).1 (append text (subscribe b).0)).1).2)
          (received_one ((append text (subscribe b).0).chan (subscribe b).1) text
            (queue_one b text v)),
    )

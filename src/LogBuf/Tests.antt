-- ===== src/LogBuf/Tests.antt =====
-- Runs of the log buffer, and the theorems at concrete buffers.
use egovframe_launcher.Base.{◌≤◌, String, ◌≡◌, refl, List, [], ◌∷◌, arith, length, take}
use egovframe_launcher.Base.Int.{pos, negsuc}
use egovframe_launcher.LogBuf.{
  Buf, new, append, push, snapshot, last_line, subscribe, cancel, receive, safe_send, finished,
}
use egovframe_launcher.LogBuf.Tail.{append_each, newest, snapshot-append_each, last_line-append}
use egovframe_launcher.LogBuf.Steps.{
  Shared, Reach, here, next, lock, join, leave, deliver, IsValid, Reach-new-IsValid, new-IsValid,
  ClosedOnce, Reach-new-ClosedOnce,
}
use egovframe_launcher.LogBuf.Fanout.{append_each-subscribe, append_each-cancel}

abbrev three : List String
three = "a" ∷ "b" ∷ "c" ∷ []

keeps_two : snapshot (append_each three (new (pos 2))) ≡ "b" ∷ "c" ∷ []
unfolding snapshot append_each append new
keeps_two = refl

negative_capacity : snapshot (append_each three (new (negsuc 4))) ≡ "c" ∷ []
unfolding snapshot append_each append new
negative_capacity = refl

-- A send to a cancelled channel is recovered from.
send_after_cancel :
    (receive 0 (safe_send 0 "x" (cancel 0 (subscribe (new (pos 2))).0))).0 ≡ finished
unfolding receive safe_send cancel subscribe new
send_after_cancel = refl

snapshot-append_each_example :
    (snapshot (append_each three (new (pos 2))) ≡ newest (new (pos 2)).cap three)
    × (1 ≤ (new (pos 2)).cap)
    × (length (snapshot (append_each three (new (pos 2)))) ≤ (new (pos 2)).cap)
snapshot-append_each_example = snapshot-append_each (pos 2) three

last_line-append_example : last_line (append "x" (new (pos 2))) ≡ "x"
unfolding new
last_line-append_example = last_line-append "x" (new (pos 2)) (omega arith)

abbrev joined : Buf
joined = (subscribe (new (pos 2))).0

-- A line is on its way to subscriber 0 when the subscriber leaves.
abbrev raced : Shared
raced = record {
  buf = safe_send 0 "x" (cancel 0 (push "x" joined).0);
  flights = record { line = "x"; todo = [] } ∷ [];
}

raced-Reach : Reach (record { buf = new (pos 2); flights = [] }) raced
unfolding push subscribe new
raced-Reach =
    next (next (next (next here join) (lock "x")) (leave 0)) (deliver [] [] "x" [] [] 0 refl)

Reach-new-IsValid_example : IsValid raced.buf
Reach-new-IsValid_example = Reach-new-IsValid (pos 2) raced-Reach

-- The subscription of `raced` was cancelled; it is cancelled again.
abbrev cancelled_twice : Shared
cancelled_twice = record raced { buf = cancel 0 raced.buf }

Reach-new-ClosedOnce_example : ClosedOnce cancelled_twice.buf
Reach-new-ClosedOnce_example = Reach-new-ClosedOnce (pos 2) (next raced-Reach (leave 0))

closed_once : (cancelled_twice.buf.chan 0).closes ≡ 1
unfolding cancel subscribe new push safe_send
closed_once = refl

append_each-subscribe_example :
    ((append_each three (subscribe (new (pos 2))).0).chan (subscribe (new (pos 2))).1).queue
    ≡ take 256 three
append_each-subscribe_example = append_each-subscribe (new (pos 2)) three (new-IsValid (pos 2))

append_each-cancel_example :
    (append_each three (cancel 0 (new (pos 2)))).chan 0 ≡ (cancel 0 (new (pos 2))).chan 0
append_each-cancel_example = append_each-cancel (new (pos 2)) three 0 (new-IsValid (pos 2))

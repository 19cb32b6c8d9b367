-- ===== src/LogBuf.antt =====
-- launcher/internal/logbuf/logbuf.go: the bounded log with fan-out to live subscribers.
-- A channel is named by the id that `Subscribe` gave it, and `chan` is the heap of all channels
-- made so far; `subs` holds the keys of the Go map, whose iteration order is not specified.
-- `Append` is split where it gives up the lock: `push` is the locked part, and the sends follow.
pub mod Tail
pub mod Steps
pub mod Fanout
mod Tests
use egovframe_launcher.Base.{
  ℕ, zero, suc, ◌+◌, ◌-◌, String, Bool, true, false, not, Option, none, some, List, [], ◌∷◌, ◌++◌,
  ltb, ◌==◌, if◌then◌else◌, length, drop, get_last?, any, keep,
}
use egovframe_launcher.Base.Int.{ℤ, pos, negsuc}

-- A `chan string` made with capacity 256. `closes` counts the calls of `close` on it: Go panics at
-- the second one.
pub record Chan : Type 0 where
  pub queue : List String
  pub closed : Bool
  pub closes : ℕ

pub record Buf : Type 0 where
  pub cap : ℕ
  pub lines : List String
  pub subs : List ℕ
  pub next : ℕ
  pub chan : ℕ → Chan

abbrev pub chan_cap : ℕ
chan_cap = 256

-- No channel has been made under this id: nothing reads or sends there.
abbrev pub no_chan : Chan
no_chan = record { queue = []; closed = true; closes = 0 }

abbrev pub fresh_chan : Chan
fresh_chan = record { queue = []; closed = false; closes = 0 }

abbrev pub update : (ℕ → Chan) → ℕ → Chan → ℕ → Chan
update heap id c j = if id == j then c else heap j

abbrev pub has_sub : ℕ → List ℕ → Bool
has_sub id ids = any (λ j. j == id) ids

abbrev at_least_one : ℤ → ℕ
at_least_one (pos zero) = 1
at_least_one (pos (suc n)) = suc n
at_least_one (negsuc n) = 1

unfoldable pub new : ℤ → Buf
new capacity = record {
  cap = at_least_one capacity;
  lines = [];
  subs = [];
  next = 0;
  chan = λ _. no_chan;
}

-- `lines[len(lines)-cap:]` where there are too many.
abbrev pub trim : ℕ → List String → List String
trim cap lines = if ltb cap (length lines) then drop (length lines - cap) lines else lines

-- The part of `Append` under the lock; it also copies the subscribers.
unfoldable pub push : String → Buf → Buf × List ℕ
push line b = (record b { lines = trim b.cap (b.lines ++ line ∷ []) }, b.subs)

-- A send on a closed channel panics and is recovered; a send on a full one takes `default`.
abbrev pub offer : String → Chan → Chan
offer v c =
    if c.closed
    then c
    else if ltb (length c.queue) chan_cap
    then record c { queue = c.queue ++ v ∷ [] }
    else c

unfoldable pub safe_send : ℕ → String → Buf → Buf
safe_send id v b = record b { chan = update b.chan id (offer v (b.chan id)) }

unfoldable pub send_all : List ℕ → String → Buf → Buf
unfolding safe_send
send_all [] line b = b
send_all (id ∷ ids) line b = send_all ids line (safe_send id line b)

unfoldable pub append : String → Buf → Buf
unfolding push send_all
append line b = let (b', ids) = push line b in send_all ids line b'

unfoldable pub snapshot : Buf → List String
snapshot b = b.lines

abbrev pub text_or_empty : Option String → String
text_or_empty none = ""
text_or_empty (some s) = s

unfoldable pub last_line : Buf → String
last_line b = text_or_empty (get_last? b.lines)

unfoldable pub subscribe : Buf → Buf × ℕ
subscribe b = (
  record b { next = b.next + 1; subs = b.next ∷ b.subs; chan = update b.chan b.next fresh_chan },
  b.next,
)

-- `close(c)`
abbrev pub close : Chan → Chan
close c = record c { closed = true; closes = suc c.closes }

-- The function that `Subscribe` returns.
unfoldable pub cancel : ℕ → Buf → Buf
cancel id b =
    if has_sub id b.subs
    then record b {
      subs = keep (λ j. not (j == id)) b.subs;
      chan = update b.chan id (close (b.chan id));
    }
    else b

-- What a reader of the channel gets: `blocked` means that it waits.
pub data Received : Type 0 where
  blocked : Received
  finished : Received
  line : String → Received

abbrev pub received : Chan → Received
received c = elim c.queue [ [] ↦ if c.closed then finished else blocked | v ∷ rest ↦ line v ]

abbrev pub rest_of : List String → List String
rest_of [] = []
rest_of (v ∷ rest) = rest

unfoldable pub receive : ℕ → Buf → Received × Buf
receive id b = (
  received (b.chan id),
  record b { chan = update b.chan id (record (b.chan id) { queue = rest_of (b.chan id).queue }) },
)

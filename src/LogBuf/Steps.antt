-- ===== src/LogBuf/Steps.antt =====
-- All interleavings of the operations: an append gives up the lock before its sends, and a
-- subscriber may be added, cancelled or read between any two of them.
use egovframe_launcher.Base.{
  ==_iff, ℕ, ◌-◌, ◌≤◌, ◌<◌, String, ◌≡◌, true, false, not, ◌&&◌, List, [], ◌∷◌, ◌++◌, arith, length,
  ◌==◌, keep, length-append, length-drop, Bool-cases, inl, inr,
}
use egovframe_launcher.Base.Int.{ℤ}
use egovframe_launcher.LogBuf.{
  Buf, chan_cap, has_sub, new, push, safe_send, send_all, append, subscribe, cancel, receive,
  rest_of, trim,
}

-- An `Append` between its lock and its last send; `todo` are the channels not yet served.
pub record Flight : Type 0 where
  pub line : String
  pub todo : List ℕ

pub record Shared : Type 0 where
  pub buf : Buf
  pub flights : List Flight

pub data Step (s : Shared) : Shared → Type 0 where
  lock :
      (line : String)
      → Step s (record {
        buf = (push line s.buf).0;
        flights = record { line = line; todo = (push line s.buf).1 } ∷ s.flights;
      })
  deliver :
      (before after : List Flight) (line : String) (ahead behind : List ℕ) (id : ℕ)
      → s.flights ≡ before ++ record { line = line; todo = ahead ++ id ∷ behind } ∷ after
      → Step s (record {
        buf = safe_send id line s.buf;
        flights = before ++ record { line = line; todo = ahead ++ behind } ∷ after;
      })
  join : Step s (record s { buf = (subscribe s.buf).0 })
  leave : (id : ℕ) → Step s (record s { buf = cancel id s.buf })
  read : (id : ℕ) → Step s (record s { buf = (receive id s.buf).1 })

pub data Reach (s : Shared) : Shared → Type 0 where
  here : Reach s s
  next : {t u : Shared} → Reach s t → Step t u → Reach s u

abbrev pub IsDistinct : List ℕ → Type 0
IsDistinct [] = Unit
IsDistinct (id ∷ ids) = (has_sub id ids ≡ false) × IsDistinct ids

-- What holds of a buffer whenever the lock is free.
pub record IsValid (b : Buf) : Type 0 where
  pub room : 1 ≤ b.cap
  pub bounded : length b.lines ≤ b.cap
  pub queued : (id : ℕ) → length (b.chan id).queue ≤ chan_cap
  pub known : (id : ℕ) → has_sub id b.subs ≡ true → id < b.next
  pub live : (id : ℕ) → has_sub id b.subs ≡ not (b.chan id).closed
  pub distinct : IsDistinct b.subs

pub has_sub-keep :
    (id j : ℕ) (ids : List ℕ)
    → has_sub j (keep (λ k. not (k == id)) ids) ≡ (not (j == id) && has_sub j ids)
has_sub-keep id j [] = ground arith
has_sub-keep id j (k ∷ ids) = ground (arith, has_sub-keep id j ids)

keep-IsDistinct :
    (id : ℕ) (ids : List ℕ) → IsDistinct ids → IsDistinct (keep (λ k. not (k == id)) ids)
keep-IsDistinct id [] h = tt
keep-IsDistinct id (k ∷ ids) (fresh, h) =
    ground (arith, keep-IsDistinct id ids h, has_sub-keep id k ids)

length-trim : (cap : ℕ) (xs : List String) → length (trim cap xs) ≤ cap
length-trim cap xs = ground (arith, length-drop (length xs - cap) xs)

pub new-IsValid : (capacity : ℤ) → IsValid (new capacity)
unfolding new
new-IsValid capacity = ground arith

pub push-IsValid : (line : String) (b : Buf) → IsValid b → IsValid (push line b).0
unfolding push
push-IsValid line b v = record {
  room = v.room;
  bounded = length-trim b.cap (b.lines ++ line ∷ []);
  queued = v.queued;
  known = v.known;
  live = v.live;
  distinct = v.distinct;
}

pub safe_send-IsValid :
    (id : ℕ) (line : String) (b : Buf) → IsValid b → IsValid (safe_send id line b)
unfolding safe_send
safe_send-IsValid id line b v = record {
  room = v.room;
  bounded = v.bounded;
  queued =
      λ j. ground (arith, v.queued j, v.queued id, length-append (b.chan id).queue (line ∷ []));
  known = v.known;
  live = λ j. ground (arith, v.live j, v.live id);
  distinct = v.distinct;
}

pub subscribe-IsValid : (b : Buf) → IsValid b → IsValid (subscribe b).0
unfolding subscribe
subscribe-IsValid b v = record {
  room = v.room;
  bounded = v.bounded;
  queued = λ j. ground (arith, v.queued j);
  known = λ j h. ground (arith, v.known j);
  live = λ j. ground (arith, v.live j, v.known j);
  distinct = (ground (arith, v.known b.next), v.distinct);
}

pub cancel-IsValid : (id : ℕ) (b : Buf) → IsValid b → IsValid (cancel id b)
unfolding cancel
cancel-IsValid id b v = elim (Bool-cases (has_sub id b.subs)) [
  | inl listed ↦ rw listed (record {
    room = v.room;
    bounded = v.bounded;
    queued = λ j. ground (arith, v.queued j, v.queued id);
    known = λ j h. ground (arith, v.known j, has_sub-keep id j b.subs);
    live = λ j. ground (arith, v.live j, has_sub-keep id j b.subs, ==_iff j id, ==_iff id j);
    distinct = keep-IsDistinct id b.subs v.distinct;
  })
  | inr absent ↦ rw absent v
]

length-rest_of : (xs : List String) → length (rest_of xs) ≤ length xs
length-rest_of [] = omega arith
length-rest_of (x ∷ xs) = omega arith

receive-IsValid : (id : ℕ) (b : Buf) → IsValid b → IsValid (receive id b).1
unfolding receive
receive-IsValid id b v = record {
  room = v.room;
  bounded = v.bounded;
  queued = λ j. ground (arith, v.queued j, v.queued id, length-rest_of (b.chan id).queue);
  known = v.known;
  live = λ j. ground (arith, v.live j, v.live id, ==_iff id j);
  distinct = v.distinct;
}

Step-IsValid : {s t : Shared} → Step s t → IsValid s.buf → IsValid t.buf
Step-IsValid {s} (lock line) v = push-IsValid line s.buf v
Step-IsValid {s} (deliver before after line ahead behind id e) v = safe_send-IsValid id line s.buf v
Step-IsValid {s} join v = subscribe-IsValid s.buf v
Step-IsValid {s} (leave id) v = cancel-IsValid id s.buf v
Step-IsValid {s} (read id) v = receive-IsValid id s.buf v

Reach-IsValid : {s t : Shared} → IsValid s.buf → Reach s t → IsValid t.buf
Reach-IsValid v here = v
Reach-IsValid v (next r st) = Step-IsValid st (Reach-IsValid v r)

-- Whatever the operations do, in any interleaving from a new buffer: at most `cap` lines are kept,
-- no channel holds more than 256 lines, the subscribers are distinct and were all handed out, and
-- the channels still open are exactly those of the current subscribers.
pub Reach-new-IsValid :
    (capacity : ℤ) {t : Shared}
    → Reach (record { buf = new capacity; flights = [] }) t
    → IsValid t.buf
Reach-new-IsValid capacity r = Reach-IsValid (new-IsValid capacity) r

-- No channel was closed twice, and those of the subscribers were not closed at all.
abbrev pub ClosedOnce : Buf → Type 0
ClosedOnce b =
    (id : ℕ) → ((b.chan id).closes ≤ 1) × (has_sub id b.subs ≡ true → (b.chan id).closes ≡ 0)

Step-ClosedOnce : {s t : Shared} → ClosedOnce s.buf → Step s t → ClosedOnce t.buf
unfolding push safe_send subscribe cancel receive
Step-ClosedOnce o (lock line) = o
Step-ClosedOnce o (deliver before after line ahead behind id e) = λ j. ground (arith, o j, o id)
Step-ClosedOnce {s} o join = λ j. ground (arith, o j, ==_iff s.buf.next j)
Step-ClosedOnce {s} o (leave id) =
    λ j. ground (arith, o j, o id, has_sub-keep id j s.buf.subs, ==_iff j id, ==_iff id j)
Step-ClosedOnce o (read id) = λ j. ground (arith, o j, o id)

Reach-ClosedOnce : {s t : Shared} → ClosedOnce s.buf → Reach s t → ClosedOnce t.buf
Reach-ClosedOnce o here = o
Reach-ClosedOnce o (next r st) = Step-ClosedOnce (Reach-ClosedOnce o r) st

-- Whatever the operations do, in any interleaving from a new buffer, and however often a
-- subscription is cancelled: `close` is called at most once on each channel, and never on that of a
-- current subscriber.
pub Reach-new-ClosedOnce :
    (capacity : ℤ) {t : Shared}
    → Reach (record { buf = new capacity; flights = [] }) t
    → ClosedOnce t.buf
unfolding new
Reach-new-ClosedOnce capacity r = Reach-ClosedOnce (λ id. ground arith) r

send_all-IsValid :
    (ids : List ℕ) (line : String) (b : Buf) → IsValid b → IsValid (send_all ids line b)
unfolding send_all
send_all-IsValid [] line b v = v
send_all-IsValid (id ∷ ids) line b v =
    send_all-IsValid ids line (safe_send id line b) (safe_send-IsValid id line b v)

pub append-IsValid : (line : String) (b : Buf) → IsValid b → IsValid (append line b)
unfolding append
append-IsValid line b v =
    send_all-IsValid (push line b).1 line (push line b).0 (push-IsValid line b v)

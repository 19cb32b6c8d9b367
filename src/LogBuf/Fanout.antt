-- ===== src/LogBuf/Fanout.antt =====
-- What a subscriber finds in its channel when nobody reads it.
use egovframe_launcher.Base.{
  ℕ, ◌≤◌, String, ◌≡◌, refl, sym, ap, ◌∙◌, true, false, List, [], ◌∷◌, ◌++◌, arith, length, take,
  take_all, take-append_full, length-append, ==_iff, if◌then◌else◌, ltb, Bool-cases, inl, inr,
}
use mathlib.Core.List.{append_assoc, append-nil}
use egovframe_launcher.LogBuf.{
  Chan, Buf, chan_cap, fresh_chan, has_sub, push, offer, safe_send, send_all, append, subscribe,
  cancel,
}
use egovframe_launcher.LogBuf.Tail.{append_each}
use egovframe_launcher.LogBuf.Steps.{
  IsDistinct, IsValid, has_sub-keep, subscribe-IsValid, cancel-IsValid,
}

send_all-subs : (ids : List ℕ) (line : String) (b : Buf) → (send_all ids line b).subs ≡ b.subs
unfolding send_all
send_all-subs [] line b = refl
send_all-subs (id ∷ ids) line b = send_all-subs ids line (safe_send id line b)

send_all-chan :
    (ids : List ℕ) (line : String) (b : Buf) (id : ℕ)
    → IsDistinct ids
    → (send_all ids line b).chan id ≡ (if has_sub id ids then offer line (b.chan id) else b.chan id)
unfolding send_all
send_all-chan [] line b id d = refl
send_all-chan (k ∷ ids) line b id (fresh, d) =
    ground (arith, send_all-chan ids line (safe_send k line b) id d, ==_iff k id)

append-chan :
    (line : String) (b : Buf) (id : ℕ)
    → IsDistinct b.subs
    → (append line b).chan id ≡ (if has_sub id b.subs then offer line (b.chan id) else b.chan id)
unfolding append push
append-chan line b id d = send_all-chan b.subs line (push line b).0 id d

append-subs : (line : String) (b : Buf) → (append line b).subs ≡ b.subs
unfolding append push
append-subs line b = send_all-subs b.subs line (push line b).0

-- Offers to one channel, in order.
offer_each : List String → Chan → Chan
offer_each [] c = c
offer_each (v ∷ more) c = offer_each more (offer v c)

append_each-chan :
    (more : List String) (b : Buf) (id : ℕ)
    → IsDistinct b.subs
    → has_sub id b.subs ≡ true
    → (append_each more b).chan id ≡ offer_each more (b.chan id)
unfolding append_each offer_each
append_each-chan [] b id d h = refl
append_each-chan (line ∷ more) b id d h =
    let same = append-subs line b in
    append_each-chan more (append line b) id (rw same d) (rw same h)
    ∙ ap (offer_each more) (rw h at (append-chan line b id d))

append_each-chan_other :
    (more : List String) (b : Buf) (id : ℕ)
    → IsDistinct b.subs
    → has_sub id b.subs ≡ false
    → (append_each more b).chan id ≡ b.chan id
unfolding append_each
append_each-chan_other [] b id d h = refl
append_each-chan_other (line ∷ more) b id d h =
    let same = append-subs line b in
    append_each-chan_other more (append line b) id (rw same d) (rw same h)
    ∙ rw h at (append-chan line b id d)

offer_room :
    (v : String) (c : Chan)
    → c.closed ≡ false
    → ltb (length c.queue) chan_cap ≡ true
    → offer v c ≡ record c { queue = c.queue ++ v ∷ [] }
offer_room v c live room = ground arith

offer_full : (v : String) (c : Chan) → ltb (length c.queue) chan_cap ≡ false → offer v c ≡ c
offer_full v c full = ground arith

has_sub-subscribe : (b : Buf) → has_sub (subscribe b).1 (subscribe b).0.subs ≡ true
unfolding subscribe
has_sub-subscribe b = ground (arith, ==_iff b.next b.next)

chan-subscribe : (b : Buf) → (subscribe b).0.chan (subscribe b).1 ≡ fresh_chan
unfolding subscribe
chan-subscribe b = ground (arith, ==_iff b.next b.next)

has_sub-cancel : (id : ℕ) (b : Buf) → has_sub id (cancel id b).subs ≡ false
unfolding cancel
has_sub-cancel id b = ground (arith, has_sub-keep id id b.subs, ==_iff id id)

offer_each-queue :
    (more : List String) (c : Chan)
    → c.closed ≡ false
    → length c.queue ≤ chan_cap
    → (offer_each more c).queue ≡ take chan_cap (c.queue ++ more)
unfolding offer_each
offer_each-queue [] c live h = rw append-nil (sym (take_all chan_cap c.queue h))
offer_each-queue (v ∷ more) c live h = elim (Bool-cases (ltb (length c.queue) chan_cap)) [
  | inl room ↦
      ap (λ k. (offer_each more k).queue) (offer_room v c live room)
      ∙ offer_each-queue more (record c { queue = c.queue ++ v ∷ [] }) live
          (ground (arith, length-append c.queue (v ∷ [])))
      ∙ ap (take chan_cap) (append_assoc c.queue (v ∷ []) more)
  | inr full ↦
      let exact : length c.queue ≡ chan_cap = ground arith in
      ap (λ k. (offer_each more k).queue) (offer_full v c full)
      ∙ offer_each-queue more c live h
      ∙ take-append_full chan_cap c.queue more exact
      ∙ sym (take-append_full chan_cap c.queue (v ∷ more) exact)
]

-- On a buffer that meets the invariant, a new subscriber that reads nothing has the first 256 of
-- the lines appended since, in order and each once: nothing is missed before the channel is full.
pub append_each-subscribe :
    (b : Buf) (more : List String)
    → IsValid b
    → ((append_each more (subscribe b).0).chan (subscribe b).1).queue ≡ take chan_cap more
append_each-subscribe b more v =
    let v' = subscribe-IsValid b v in
    ap (λ c. c.queue)
      (append_each-chan more (subscribe b).0 (subscribe b).1 v'.distinct (has_sub-subscribe b))
    ∙ ap (λ c. (offer_each more c).queue) (chan-subscribe b)
    ∙ offer_each-queue more fresh_chan refl (omega arith)

-- A cancelled channel never receives again, whatever is appended.
pub append_each-cancel :
    (b : Buf) (more : List String) (id : ℕ)
    → IsValid b
    → (append_each more (cancel id b)).chan id ≡ (cancel id b).chan id
append_each-cancel b more id v =
    let v' = cancel-IsValid id b v in
    append_each-chan_other more (cancel id b) id v'.distinct (has_sub-cancel id b)

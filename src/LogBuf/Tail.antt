-- ===== src/LogBuf/Tail.antt =====
-- The buffer keeps exactly the newest lines: the trimmed slice against the whole history.
use egovframe_launcher.Base.{
  ℕ, zero, suc, ◌+◌, ◌-◌, ◌≤◌, ◌<◌, String, ◌≡◌, refl, sym, ap, ◌∙◌, List, [], ◌∷◌, ◌++◌, arith,
  length, drop, length-append, length-drop, drop-append_le, get_last?, get_last?-append, some,
  Bool-cases, ltb, inl, inr,
}
use mathlib.Core.List.{append_assoc, append-nil}
use native.Mathlib.Decide.{dec_le}
use egovframe_launcher.Base.Int.{ℤ}
use egovframe_launcher.LogBuf.{
  Buf, new, text_or_empty, trim, push, send_all, safe_send, append, snapshot, last_line,
}

-- The newest `cap` lines of a history.
abbrev pub newest : ℕ → List String → List String
newest cap history = drop (length history - cap) history

drop-drop_one : (n : ℕ) (xs : List String) → n < length xs → drop 1 (drop n xs) ≡ drop (suc n) xs
drop-drop_one zero (x ∷ xs) h = refl
drop-drop_one n [] h = elim h [ ]
drop-drop_one (suc n) (x ∷ xs) h = drop-drop_one n xs (omega arith)

trim_fits : (cap : ℕ) (xs : List String) → length xs ≤ cap → trim cap xs ≡ xs
trim_fits cap xs h = ground arith

trim_over : (cap : ℕ) (xs : List String) → length xs ≡ suc cap → trim cap xs ≡ drop 1 xs
trim_over cap xs h =
    let gap : length xs - cap ≡ 1 = omega arith in ground (arith, ap (λ k. drop k xs) gap)

trim-newest :
    (cap : ℕ) (history : List String) (line : String)
    → 1 ≤ cap
    → trim cap (newest cap history ++ line ∷ []) ≡ newest cap (history ++ line ∷ [])
trim-newest cap history line h = elim (dec_le cap (length history)) [
  | yes full ↦
      let n = length history - cap in
      let grown : length (history ++ line ∷ []) ≡ length history + 1 =
        length-append history (line ∷ []) in
      let moved : length (history ++ line ∷ []) - cap ≡ suc n = omega arith in
      trim_over cap (newest cap history ++ line ∷ [])
        (omega (arith, length-append (newest cap history) (line ∷ []), length-drop n history))
      ∙ ap (drop 1) (sym (drop-append_le n history (line ∷ []) (omega arith)))
      ∙ drop-drop_one n (history ++ line ∷ []) (omega arith)
      ∙ ap (λ k. drop k (history ++ line ∷ [])) (sym moved)
  | no room ↦
      let kept : length history - cap ≡ 0 = omega arith in
      let grown : length (history ++ line ∷ []) ≡ length history + 1 =
        length-append history (line ∷ []) in
      let none_yet : length (history ++ line ∷ []) - cap ≡ 0 = omega arith in
      ap (λ k. trim cap (drop k history ++ line ∷ [])) kept
      ∙ trim_fits cap (history ++ line ∷ []) (omega arith)
      ∙ ap (λ k. drop k (history ++ line ∷ [])) (sym none_yet)
]

send_all-lines : (ids : List ℕ) (line : String) (b : Buf) → (send_all ids line b).lines ≡ b.lines
unfolding send_all
send_all-lines [] line b = refl
send_all-lines (id ∷ ids) line b = send_all-lines ids line (safe_send id line b)

send_all-cap : (ids : List ℕ) (line : String) (b : Buf) → (send_all ids line b).cap ≡ b.cap
unfolding send_all
send_all-cap [] line b = refl
send_all-cap (id ∷ ids) line b = send_all-cap ids line (safe_send id line b)

pub append-lines :
    (line : String) (b : Buf) → (append line b).lines ≡ trim b.cap (b.lines ++ line ∷ [])
unfolding append push
append-lines line b = send_all-lines b.subs line _

pub append-cap : (line : String) (b : Buf) → (append line b).cap ≡ b.cap
unfolding append push
append-cap line b = send_all-cap b.subs line _

-- A run of `Append` calls.
unfoldable pub append_each : List String → Buf → Buf
append_each [] b = b
append_each (line ∷ more) b = append_each more (append line b)

append_each-newest :
    (more history : List String) (b : Buf)
    → 1 ≤ b.cap
    → b.lines ≡ newest b.cap history
    → (append_each more b).lines ≡ newest b.cap (history ++ more)
unfolding append_each
append_each-newest [] history b h e = e ∙ ap (newest b.cap) (sym (append-nil history))
append_each-newest (line ∷ more) history b h e =
    let same_cap = append-cap line b in
    let step : (append line b).lines ≡ newest (append line b).cap (history ++ line ∷ []) =
      append-lines line b
      ∙ ap (λ xs. trim b.cap (xs ++ line ∷ [])) e
      ∙ trim-newest b.cap history line h
      ∙ ap (λ c. newest c (history ++ line ∷ [])) (sym same_cap) in
    append_each-newest more (history ++ line ∷ []) (append line b) (omega arith) step
    ∙ ap (λ c. newest c ((history ++ line ∷ []) ++ more)) same_cap
    ∙ ap (newest b.cap) (append_assoc history (line ∷ []) more)

new-cap : (capacity : ℤ) → 1 ≤ (new capacity).cap
unfolding new
new-cap capacity = ground arith

new-lines : (capacity : ℤ) → (new capacity).lines ≡ newest (new capacity).cap []
unfolding new
new-lines capacity = ground arith

get_last?-drop :
    (n : ℕ) (xs : List String) (line : String)
    → n ≤ length xs
    → get_last? (drop n (xs ++ line ∷ [])) ≡ some line
get_last?-drop n xs line h =
    ap get_last? (drop-append_le n xs (line ∷ []) h) ∙ get_last?-append (drop n xs) line

-- A trimmed slice still ends with the line that was added.
pub trim-last :
    (cap : ℕ) (xs : List String) (line : String)
    → 1 ≤ cap
    → (older : List String) × (trim cap (xs ++ line ∷ []) ≡ older ++ line ∷ [])
trim-last cap xs line h =
    let whole = xs ++ line ∷ [] in
    let grown : length whole ≡ length xs + 1 = length-append xs (line ∷ []) in
    elim (Bool-cases (ltb cap (length whole))) [
      | inl over ↦
          let n = length whole - cap in
          (drop n xs, rw over (drop-append_le n xs (line ∷ []) (omega arith)))
      | inr fits ↦ (xs, rw fits refl)
    ]

get_last?-trim :
    (cap : ℕ) (xs : List String) (line : String)
    → 1 ≤ cap
    → get_last? (trim cap (xs ++ line ∷ [])) ≡ some line
get_last?-trim cap xs line h =
    let grown : length (xs ++ line ∷ []) ≡ length xs + 1 = length-append xs (line ∷ []) in
    elim (Bool-cases (ltb cap (length (xs ++ line ∷ [])))) [
      | inl over ↦ rw over (get_last?-drop (length (xs ++ line ∷ []) - cap) xs line (omega arith))
      | inr fits ↦ rw fits (get_last?-append xs line)
    ]

-- Whatever capacity is asked for and whatever was appended, the snapshot is the newest lines of
-- the whole history, as many as the capacity in use allows, and that capacity is at least 1.
pub snapshot-append_each :
    (capacity : ℤ) (history : List String)
    → (snapshot (append_each history (new capacity)) ≡ newest (new capacity).cap history)
      × (1 ≤ (new capacity).cap)
      × (length (snapshot (append_each history (new capacity))) ≤ (new capacity).cap)
unfolding snapshot
snapshot-append_each capacity history =
    let pos_cap : 1 ≤ (new capacity).cap = new-cap capacity in
    let e = append_each-newest history [] (new capacity) pos_cap (new-lines capacity) in
    (
      e,
      pos_cap,
      omega (arith, ap length e, length-drop (length history - (new capacity).cap) history),
    )

-- After an append the last line is the line appended, on every buffer with room for one line.
pub last_line-append : (line : String) (b : Buf) → 1 ≤ b.cap → last_line (append line b) ≡ line
unfolding last_line
last_line-append line b h =
    ap (λ xs. text_or_empty (get_last? xs)) (append-lines line b)
    ∙ ap text_or_empty (get_last?-trim b.cap b.lines line h)

-- ===== src/Base/Text.antt =====
-- Decimal printing (`strconv.Itoa`, `%d`) and `strings.Join`.
use Prim.Native.Nat.{◌+◌, ◌-◌, ℕ, zero, suc, ◌/◌, ◌%◌, ◌<◌}
use Prim.Native.String.{len, slice, String, ◌++◌ as ◌<>◌}
use Prim.Native.Char.{Char, code}
use mathlib.Core.Path.{◌≡◌, refl}
use mathlib.Core.Logic.{dite}
use mathlib.Core.Bool.{Bool, true, false, ◌&&◌, ◌||◌}
use mathlib.Core.Option.{Option, none, some}
use text.Mathlib.Text.{◌==◌ as str_eq, find?}
use mathlib.Core.List.{List, [], ◌∷◌}
use package.egovframe_launcher.Base.Tests.{leb, ◌==◌, if◌then◌else◌}
use mathlib.Core.WellFounded.{Acc, WellFounded}
use native.Mathlib.Decide.{dec_lt}
use native.Mathlib.Omega.{arith}
use package.egovframe_launcher.Base.Int.{ℤ, pos, negsuc}

Acc-below : (k n : ℕ) → n < k → Acc ◌<◌ n
Acc-below zero n h = elim h [ ]
Acc-below (suc k) n h = Acc.intro n (λ m lt. Acc-below k m (omega arith))

unfoldable pub lt_wf : WellFounded ◌<◌
unfolding Acc-below
lt_wf = record { apply = λ n. Acc-below (suc n) n (omega arith) }

digit : ℕ → String
digit zero = "0"
digit (suc zero) = "1"
digit (suc (suc zero)) = "2"
digit (suc (suc (suc zero))) = "3"
digit (suc (suc (suc (suc zero)))) = "4"
digit (suc (suc (suc (suc (suc zero))))) = "5"
digit (suc (suc (suc (suc (suc (suc zero)))))) = "6"
digit (suc (suc (suc (suc (suc (suc (suc zero))))))) = "7"
digit (suc (suc (suc (suc (suc (suc (suc (suc zero)))))))) = "8"
digit (suc (suc (suc (suc (suc (suc (suc (suc (suc n))))))))) = "9"

print : (n : ℕ) → Acc ◌<◌ n → String → String
print n (Acc.intro _ smaller) out =
    dite (dec_lt 9 n) (λ h. print (n / 10) (smaller (n / 10) (omega arith)) (digit (n % 10) <> out))
      (λ _. digit n <> out)

unfoldable pub itoa : ℤ → String
unfolding digit print lt_wf dec_lt
itoa (pos n) = print n (lt_wf.apply n) ""
itoa (negsuc n) = "-" <> print (suc n) (lt_wf.apply (suc n)) ""

-- `strings.Join`
unfoldable pub join : List String → String → String
join [] sep = ""
join (s ∷ []) sep = s
join (s ∷ t ∷ rest) sep = s <> sep <> join (t ∷ rest) sep

-- `strings.HasSuffix` and `strings.Contains`
abbrev pub ends_with : String → String → Bool
ends_with s t = leb (len t) (len s) && str_eq (slice s (len s - len t) (len s)) t

abbrev is_some : Option ℕ → Bool
is_some none = false
is_some (some i) = true

abbrev pub contains : String → String → Bool
contains s t = is_some (find? s t)

itoa_port : itoa (pos 19006) ≡ "19006"
unfolding itoa
itoa_port = refl

itoa_negative : itoa (negsuc 0) ≡ "-1"
unfolding itoa
itoa_negative = refl

-- `strings.Replace(s, old, new, 1)` and, with a round of fuel for each byte, `strings.ReplaceAll`.
unfoldable pub replace_one : String → String → String → String
replace_one s old new = elim (find? s old) [
  | none ↦ s
  | some i ↦ slice s 0 i <> new <> slice s (i + len old) (len s)
]

replace_from : ℕ → String → String → String → String
replace_from zero s old new = s
replace_from (suc fuel) s old new = elim (find? s old) [
  | none ↦ s
  | some i ↦ slice s 0 i <> new <> replace_from fuel (slice s (i + len old) (len s)) old new
]

unfoldable pub replace_all : String → String → String → String
unfolding replace_from
replace_all s old new = replace_from (len s) s old new

-- `strings.TrimSpace`: the white space of Unicode at both ends.
abbrev is_space : ℕ → Bool
is_space c =
    leb 9 c && leb c 13
    || c == 32
    || c == 0x85
    || c == 0xa0
    || c == 0x1680
    || leb 0x2000 c && leb c 0x200a
    || c == 0x2028
    || c == 0x2029
    || c == 0x202f
    || c == 0x205f
    || c == 0x3000

unfoldable pub trim_left : String → String
trim_left String.[] = ""
trim_left (String.◌∷◌ c s) =
    let rest = trim_left s in if is_space (code c) then rest else String.◌∷◌ c s

abbrev put_front : Char → String → String
put_front c s = if is_space (code c) && str_eq s "" then "" else String.◌∷◌ c s

unfoldable pub trim_right : String → String
trim_right String.[] = ""
trim_right (String.◌∷◌ c s) = put_front c (trim_right s)

unfoldable pub trim_space : String → String
unfolding trim_left trim_right
trim_space s = trim_right (trim_left s)

trimmed : trim_space " \t true\n" ≡ "true"
unfolding trim_space
trimmed = refl

replaced : replace_all "a:8761/b:8761/" ":8761/" ":8762/" ≡ "a:8762/b:8762/"
unfolding replace_all
replaced = refl

suffixes :
    (ends_with "../config/gradlew" "gradlew" ≡ true)
    × (ends_with "lew" "gradlew" ≡ false)
    × (contains "a.jar -x" ".jar" ≡ true)
    × (contains "" ".jar" ≡ false)
suffixes = (refl, refl, refl, refl)

-- ===== src/Base/Atoi.antt =====
-- `strconv.Atoi` on a 64-bit machine.
use Prim.Native.Nat.{ℕ, zero, suc, ◌+◌, ◌-◌, ◌*◌, ◌^◌}
use Prim.Native.String.{String}
use Prim.Native.Char.{code}
use mathlib.Core.Path.{◌≡◌, refl}
use mathlib.Core.Bool.{Bool, true, false, ◌&&◌}
use mathlib.Core.Option.{Option, none, some}
use package.egovframe_launcher.Base.Tests.{leb, ◌==◌, if◌then◌else◌}
use package.egovframe_launcher.Base.Int.{ℤ, pos, negsuc}

abbrev is_digit : ℕ → Bool
is_digit c = leb 48 c && leb c 57

unfoldable pub digits_from : ℕ → String → Option ℕ
digits_from sum String.[] = some sum
digits_from sum (String.◌∷◌ c s) =
    let rest = digits_from (10 * sum + (code c - 48)) s in if is_digit (code c) then rest else none

-- At least one digit, and nothing else.
unfoldable pub digits : String → Option ℕ
unfolding digits_from
digits String.[] = none
digits (String.◌∷◌ c s) = digits_from 0 (String.◌∷◌ c s)

-- The value and whether there was no error: a number out of range gives the nearest one and an
-- error, any other text gives 0 and an error.
abbrev positive : Option ℕ → ℤ × Bool
positive none = (pos 0, false)
positive (some n) = if leb n (2 ^ 63 - 1) then (pos n, true) else (pos (2 ^ 63 - 1), false)

abbrev negated : ℕ → ℤ
negated zero = pos 0
negated (suc n) = negsuc n

abbrev negative : Option ℕ → ℤ × Bool
negative none = (pos 0, false)
negative (some n) = if leb n (2 ^ 63) then (negated n, true) else (negsuc (2 ^ 63 - 1), false)

unfoldable pub atoi : String → ℤ × Bool
unfolding digits
atoi String.[] = (pos 0, false)
atoi (String.◌∷◌ c s) =
    if code c == 45
    then negative (digits s)
    else if code c == 43
    then positive (digits s)
    else positive (digits (String.◌∷◌ c s))

parsed :
    (atoi "8081" ≡ (pos 8081, true))
    × (atoi "-1" ≡ (negsuc 0, true))
    × (atoi "80x" ≡ (pos 0, false))
    × (atoi "" ≡ (pos 0, false))
unfolding atoi digits digits_from
parsed = (refl, refl, refl, refl)

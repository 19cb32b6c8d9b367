-- ===== src/Base/Sort.antt =====
-- `sort.Strings`: the order of the texts by their code points, which is Go's order of their bytes.
use Prim.Native.String.{String}
use Prim.Native.Char.{code}
use mathlib.Core.Path.{◌≡◌, refl}
use mathlib.Core.Logic.{◌⊎◌, inl, inr}
use mathlib.Core.Bool.{Bool, true, false}
use mathlib.Core.List.{List, [], ◌∷◌, Permᴰ}
use mathlib.Core.List.Permᴰ
use package.egovframe_launcher.Base.Tests.{ltb, ◌==◌, if◌then◌else◌, Bool-cases}
use package.egovframe_launcher.Base.Lists.{All}
use native.Mathlib.Omega.{arith}

unfoldable pub str_le : String → String → Bool
str_le String.[] t = true
str_le (String.◌∷◌ c s) String.[] = false
str_le (String.◌∷◌ c s) (String.◌∷◌ d t) =
    let rest = str_le s t in if code c == code d then rest else ltb (code c) (code d)

unfoldable pub insert_sorted : String → List String → List String
insert_sorted s [] = s ∷ []
insert_sorted s (t ∷ ts) =
    let rest = insert_sorted s ts in if str_le s t then s ∷ t ∷ ts else t ∷ rest

unfoldable pub sort : List String → List String
unfolding insert_sorted
sort [] = []
sort (s ∷ ss) = insert_sorted s (sort ss)

str_le_total : (s t : String) → (str_le s t ≡ true) ⊎ (str_le t s ≡ true)
unfolding str_le
str_le_total String.[] t = inl refl
str_le_total (String.◌∷◌ c s) String.[] = inr refl
str_le_total (String.◌∷◌ c s) (String.◌∷◌ d t) = ground (arith, str_le_total s t)

str_le_trans : (s t u : String) → str_le s t ≡ true → str_le t u ≡ true → str_le s u ≡ true
unfolding str_le
str_le_trans String.[] t u a b = refl
str_le_trans (String.◌∷◌ c s) String.[] u a b = ground arith
str_le_trans (String.◌∷◌ c s) (String.◌∷◌ d t) String.[] a b = ground arith
str_le_trans (String.◌∷◌ c s) (String.◌∷◌ d t) (String.◌∷◌ e u) a b =
    ground (arith, str_le_trans s t u)

-- Every text stands before the ones that it is not greater than.
abbrev pub Ascending : List String → Type 0
Ascending [] = Unit
Ascending (s ∷ ss) = All (λ t. str_le s t ≡ true) ss × Ascending ss

All-weaker :
    (s t : String) (ts : List String)
    → str_le s t ≡ true
    → All (λ u. str_le t u ≡ true) ts
    → All (λ u. str_le s u ≡ true) ts
All-weaker s t [] le all_le = tt
All-weaker s t (u ∷ us) le (first, rest) = (str_le_trans s t u le first, All-weaker s t us le rest)

insert-All :
    (P : String → Type 0) (s : String) (ts : List String)
    → P s
    → All P ts
    → All P (insert_sorted s ts)
unfolding insert_sorted
insert-All P s [] p all_p = (p, tt)
insert-All P s (t ∷ ts) p (q, qs) = elim (Bool-cases (str_le s t)) [
  | inl le ↦ rw le (p, (q, qs))
  | inr gt ↦ rw gt (q, insert-All P s ts p qs)
]

insert-Ascending : (s : String) (ts : List String) → Ascending ts → Ascending (insert_sorted s ts)
unfolding insert_sorted
insert-Ascending s [] asc = (tt, tt)
insert-Ascending s (t ∷ ts) (first, asc) = elim (Bool-cases (str_le s t)) [
  | inl le ↦ rw le ((le, All-weaker s t ts le first), (first, asc))
  | inr gt ↦ rw gt (
    insert-All (λ u. str_le t u ≡ true) s ts (ground (arith, str_le_total s t)) first,
    insert-Ascending s ts asc,
  )
]

pub sort-Ascending : (ss : List String) → Ascending (sort ss)
unfolding sort
sort-Ascending [] = tt
sort-Ascending (s ∷ ss) = insert-Ascending s (sort ss) (sort-Ascending ss)

insert-Perm : (s : String) (ts : List String) → Permᴰ (insert_sorted s ts) (s ∷ ts)
unfolding insert_sorted
insert-Perm s [] = Permᴰ.refl _
insert-Perm s (t ∷ ts) = elim (Bool-cases (str_le s t)) [
  | inl le ↦ rw le (Permᴰ.refl _)
  | inr gt ↦ rw gt (Permᴰ.trans (Permᴰ.cons refl (insert-Perm s ts)) (Permᴰ.swap refl refl))
]

pub sort-Perm : (ss : List String) → Permᴰ (sort ss) ss
unfolding sort
sort-Perm [] = Permᴰ.nil
sort-Perm (s ∷ ss) = Permᴰ.trans (insert-Perm s (sort ss)) (Permᴰ.cons refl (sort-Perm ss))

pub sort-All : (P : String → Type 0) (ss : List String) → All P ss → All P (sort ss)
unfolding sort
sort-All P [] all_p = tt
sort-All P (s ∷ ss) (p, ps) = insert-All P s (sort ss) p (sort-All P ss ps)

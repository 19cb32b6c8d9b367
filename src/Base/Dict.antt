-- ===== src/Base/Dict.antt =====
-- Go's maps with text keys, as association lists.
use mathlib.Core.Path.{◌≡◌, refl}
use mathlib.Core.Option
use mathlib.Core.Option.{Option, none, some}
use mathlib.Core.List.{List, [], ◌∷◌}
use native.Mathlib.Omega.{arith}
use Prim.Native.String.{String}
use text.Mathlib.Text.{◌==◌ as str_eq}
use text.Mathlib.TextEquality.{eq_iff}
use package.egovframe_launcher.Base.Tests.{if◌then◌else◌}

module _ {ℓ} {V : Type ℓ} where
  unfoldable pub lookup : String → List (String × V) → Option V
  lookup id [] = none
  lookup id ((key, x) ∷ rest) = if str_eq key id then some x else lookup id rest

  -- `m[id] = new`
  unfoldable pub insert : String → V → List (String × V) → List (String × V)
  insert id new [] = (id, new) ∷ []
  insert id new ((key, x) ∷ rest) =
      if str_eq key id then (key, new) ∷ rest else (key, x) ∷ insert id new rest

  -- A write through the pointer that the map holds at `id`.
  unfoldable pub modify : String → (V → V) → List (String × V) → List (String × V)
  modify id f [] = []
  modify id f ((key, x) ∷ rest) =
      if str_eq key id then (key, f x) ∷ rest else (key, x) ∷ modify id f rest

  -- `delete(m, id)`
  unfoldable pub erase : String → List (String × V) → List (String × V)
  erase id [] = []
  erase id ((key, x) ∷ rest) =
      let others = erase id rest in if str_eq key id then others else (key, x) ∷ others

  pub lookup-insert :
      (id asked : String) (new : V) (entries : List (String × V))
      → lookup asked (insert id new entries)
        ≡ (if str_eq id asked then some new else lookup asked entries)
  unfolding lookup insert
  lookup-insert id asked new [] = refl
  lookup-insert id asked new ((key, x) ∷ rest) =
      ground
        (arith, lookup-insert id asked new rest, eq_iff key id, eq_iff key asked, eq_iff id asked)

  pub lookup-modify :
      (id asked : String) (f : V → V) (entries : List (String × V))
      → lookup asked (modify id f entries)
        ≡ (if str_eq id asked then Option.map f (lookup id entries) else lookup asked entries)
  unfolding lookup modify
  lookup-modify id asked f [] = ground arith
  lookup-modify id asked f ((key, x) ∷ rest) =
      ground
        (arith, lookup-modify id asked f rest, eq_iff key id, eq_iff key asked, eq_iff id asked)

-- ===== src/Catalog/Lookup.antt =====
-- Looking an entry up by its id.
use egovframe_launcher.Base.{
  String, ◌≡◌, sym, ◌≢◌, ◌↔◌, none, some, List, [], ◌∷◌, arith, str_eq, eq_iff, Bool-cases, inl,
  inr,
}
use mathlib.Core.List.{Memᴰ}
use egovframe_launcher.Catalog.{Target, targets, find_id, by_id}

abbrev pub HasDistinctIds : List Target → Type 0
HasDistinctIds [] = Unit
HasDistinctIds (t ∷ ts) = (find_id t.id ts ≡ none) × HasDistinctIds ts

pub find_id_sound :
    (id : String) (ts : List Target) {t : Target} → find_id id ts ≡ some t → Memᴰ t ts × (t.id ≡ id)
unfolding find_id
find_id_sound id [] e = cc
find_id_sound id (u ∷ us) {t} e = elim (Bool-cases (str_eq u.id id)) [
  | inl same ↦
      let found : u ≡ t = ground arith in
      (Memᴰ.head (sym found), rw (← found) ((eq_iff u.id id).0 same))
  | inr other ↦
      let (listed, named) = find_id_sound id us (rw (other, find_id) at e) in
      (Memᴰ.tail listed, named)
]

find_id-ne-none :
    (id : String) (ts : List Target) {t : Target} → Memᴰ t ts → t.id ≡ id → find_id id ts ≢ none
unfolding find_id
find_id-ne-none id [] m named = elim m [ ]
find_id-ne-none id (u ∷ us) (Memᴰ.head e) named = ground (arith, eq_iff u.id id)
find_id-ne-none id (u ∷ us) (Memᴰ.tail m) named = ground (arith, find_id-ne-none id us m named)

pub find_id_complete :
    (ts : List Target) {t : Target} → HasDistinctIds ts → Memᴰ t ts → find_id t.id ts ≡ some t
unfolding find_id
find_id_complete [] d m = elim m [ ]
find_id_complete (u ∷ us) {t} d (Memᴰ.head e) = ground (arith, eq_iff u.id t.id)
find_id_complete (u ∷ us) {t} (fresh, d) (Memᴰ.tail m) = ground (
  arith,
  eq_iff u.id t.id,
  find_id_complete us d m,
  λ (same : t.id ≡ u.id). find_id-ne-none u.id us m same,
)

pub targets-HasDistinctIds : HasDistinctIds targets
unfolding targets find_id
targets-HasDistinctIds = ground arith

-- `ByID` returns exactly the catalog entry that has the id, for every id.
pub by_id_iff : (id : String) (t : Target) → (by_id id ≡ some t) ↔ (Memᴰ t targets × (t.id ≡ id))
unfolding by_id
by_id_iff id t = (
  find_id_sound id targets,
  λ (listed, named). rw (← named) (find_id_complete targets targets-HasDistinctIds listed),
)

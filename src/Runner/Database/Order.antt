-- ===== src/Runner/Database/Order.antt =====
-- The order in which the SQL files of a project are imported:
-- setupProjectDatabase in launcher/internal/runner/runner.go.
use egovframe_launcher.Base.{
  ℕ, String, ◌≡◌, ◌≤◌, ◌<◌, refl, true, Bool-cases, inl, inr, List, [], ◌∷◌, ◌++◌, All, All-append,
  arith, if◌then◌else◌,
}
use egovframe_launcher.Base.Sort.{str_le, sort, Ascending, sort-Ascending, sort-Perm, sort-All}
use egovframe_launcher.Base.Text.{contains}
use mathlib.Core.List.{Permᴰ}
use mathlib.Core.List.Permᴰ
use egovframe_launcher.Runner.Database.Import.{Groups, add_name, grouped, import_order}

module _ (to_lower : String → String) where
  -- 0 for the files that make the tables, 2 for those that fill them.
  abbrev pub rank : String → ℕ
  rank name =
      if contains (to_lower name) "ddl" then 0 else if contains (to_lower name) "data" then 2 else 1

  -- By rank, and by name within a rank.
  abbrev pub Precedes : String → String → Type 0
  Precedes s t = (rank s ≤ rank t) × (rank s ≡ rank t → str_le s t ≡ true)

  abbrev pub Ordered : List String → Type 0
  Ordered [] = Unit
  Ordered (s ∷ ss) = All (Precedes s) ss × Ordered ss

  All-imp :
      (P Q : String → Type 0) (ss : List String) → ((s : String) → P s → Q s) → All P ss → All Q ss
  All-imp P Q [] f all_p = tt
  All-imp P Q (s ∷ ss) f (p, ps) = (f s p, All-imp P Q ss f ps)

  All-both :
      (P Q : String → Type 0) (ss : List String) → All P ss → All Q ss → All (λ s. P s × Q s) ss
  All-both P Q [] a b = tt
  All-both P Q (s ∷ ss) (p, ps) (q, qs) = ((p, q), All-both P Q ss ps qs)

  same_rank : (k : ℕ) (ss : List String) → All (λ s. rank s ≡ k) ss → Ascending ss → Ordered ss
  same_rank k [] ranks asc = tt
  same_rank k (s ∷ ss) (r, rs) (first, asc) = (
    All-imp _ (Precedes s) ss (λ t (q, le). (omega (arith, r, q), λ _. le))
        (All-both (λ t. rank t ≡ k) (λ t. str_le s t ≡ true) ss rs first),
    same_rank k ss rs asc,
  )

  Ordered-append :
      (k : ℕ) (ss ts : List String)
      → All (λ s. rank s ≤ k) ss
      → All (λ t. k < rank t) ts
      → Ordered ss
      → Ordered ts
      → Ordered (ss ++ ts)
  Ordered-append k [] ts low high os ot = ot
  Ordered-append k (s ∷ ss) ts (l, low) high (first, os) ot = (
    All-append (Precedes s) ss ts first (
        All-imp (λ t. k < rank t) (Precedes s) ts
          (λ t up. (omega (arith, l, up), λ same. absurd (omega (arith, l, up, same)))) high),
    Ordered-append k ss ts low high os ot,
  )

  -- Each group has its rank.
  record Ranked (g : Groups) : Type 0 where
    ddl : All (λ s. rank s ≡ 0) g.ddl
    other : All (λ s. rank s ≡ 1) g.other
    data_ : All (λ s. rank s ≡ 2) g.data_

  add-Ranked : (name : String) (g : Groups) → Ranked g → Ranked (add_name to_lower name g)
  add-Ranked name g v = elim (Bool-cases (contains (to_lower name) "ddl")) [
    | inl d ↦ rw d (record { ddl = (rw d refl, v.ddl); other = v.other; data_ = v.data_ })
    | inr d ↦ elim (Bool-cases (contains (to_lower name) "data")) [
      | inl e ↦
          rw (d, e) (record { ddl = v.ddl; other = v.other; data_ = (rw (d, e) refl, v.data_) })
      | inr e ↦
          rw (d, e) (record { ddl = v.ddl; other = (rw (d, e) refl, v.other); data_ = v.data_ })
    ]
  ]

  grouped-Ranked : (names : List String) → Ranked (grouped to_lower names)
  unfolding grouped
  grouped-Ranked [] = record { ddl = tt; other = tt; data_ = tt }
  grouped-Ranked (name ∷ names) = add-Ranked name (grouped to_lower names) (grouped-Ranked names)

  abbrev in_line : Groups → List String
  in_line g = g.ddl ++ g.other ++ g.data_

  add-Perm :
      (name : String) (g : Groups) → Permᴰ (in_line (add_name to_lower name g)) (name ∷ in_line g)
  add-Perm name g = elim (Bool-cases (contains (to_lower name) "ddl")) [
    | inl d ↦ rw d (Permᴰ.refl _)
    | inr d ↦ elim (Bool-cases (contains (to_lower name) "data")) [
      | inl e ↦ rw (d, e) (Permᴰ.middle name (g.ddl ++ g.other) g.data_)
      | inr e ↦ rw (d, e) (Permᴰ.append_right g.data_ (Permᴰ.middle name g.ddl g.other))
    ]
  ]

  grouped-Perm : (names : List String) → Permᴰ (in_line (grouped to_lower names)) names
  unfolding grouped
  grouped-Perm [] = Permᴰ.nil
  grouped-Perm (name ∷ names) =
      Permᴰ.trans (add-Perm name (grouped to_lower names)) (Permᴰ.cons refl (grouped-Perm names))

  both-Perm :
      {ss ss' ts ts' : List String} → Permᴰ ss ss' → Permᴰ ts ts' → Permᴰ (ss ++ ts) (ss' ++ ts')
  both-Perm {ss'} {ts} p q = Permᴰ.trans (Permᴰ.append_right ts p) (Permᴰ.append_left ss' q)

  sorted-Perm : (g : Groups) → Permᴰ (sort g.ddl ++ sort g.other ++ sort g.data_) (in_line g)
  sorted-Perm g = both-Perm (both-Perm (sort-Perm g.ddl) (sort-Perm g.other)) (sort-Perm g.data_)

  sorted : (k : ℕ) (ss : List String) → All (λ s. rank s ≡ k) ss → Ordered (sort ss)
  sorted k ss ranks =
      same_rank k (sort ss) (sort-All (λ s. rank s ≡ k) ss ranks) (sort-Ascending ss)

  ranked :
      (Q : ℕ → Type 0) (k : ℕ) (ss : List String)
      → Q k
      → All (λ s. rank s ≡ k) ss
      → All (λ s. Q (rank s)) (sort ss)
  ranked Q k ss q ranks =
      All-imp _ _ (sort ss) (λ s e. rw e q) (sort-All (λ s. rank s ≡ k) ss ranks)

  ordered : (g : Groups) → Ranked g → Ordered (sort g.ddl ++ sort g.other ++ sort g.data_)
  ordered g v =
      Ordered-append 1 (sort g.ddl ++ sort g.other) (sort g.data_)
        (All-append _ (sort g.ddl) (sort g.other) (ranked (λ n. n ≤ 1) 0 g.ddl (omega arith) v.ddl)
          (ranked (λ n. n ≤ 1) 1 g.other (omega arith) v.other))
        (ranked (λ n. 1 < n) 2 g.data_ (omega arith) v.data_)
        (Ordered-append 0 (sort g.ddl) (sort g.other)
          (ranked (λ n. n ≤ 0) 0 g.ddl (omega arith) v.ddl)
          (ranked (λ n. 0 < n) 1 g.other (omega arith) v.other) (sorted 0 g.ddl v.ddl)
          (sorted 1 g.other v.other))
        (sorted 2 g.data_ v.data_)

  -- The order of the import: no file is lost and none comes twice, the files whose name has "ddl"
  -- come first, those whose name has "data" and not "ddl" come last, and files of one kind come in
  -- the order of their names.
  pub import_order_lem :
      (names : List String)
      → Permᴰ (import_order to_lower names) names × Ordered (import_order to_lower names)
  import_order_lem names =
      let g = grouped to_lower names in
      (Permᴰ.trans (sorted-Perm g) (grouped-Perm names), ordered g (grouped-Ranked names))

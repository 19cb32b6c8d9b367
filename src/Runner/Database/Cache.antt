-- ===== src/Runner/Database/Cache.antt =====
-- The cache of NeedsDatabase in launcher/internal/runner/runner.go.
use egovframe_launcher.Base.{
  String, ◌≡◌, refl, sym, ap, ◌∙◌, Bool, some, Option-cases, inl, inr, eq_refl,
}
use egovframe_launcher.Base.Dict.{lookup, lookup-insert}
use egovframe_launcher.Prog.{Prog, ret, ◌>>=◌, ◌>>◌, change, run}
use egovframe_launcher.Prog.Inversion.{run-bind_inv}
use egovframe_launcher.Runner.Host.{Host}
use egovframe_launcher.Runner.Sys.{Sys}
use egovframe_launcher.Runner.Database.{
  Reader, needs_database, needs_database_cached, recall, remember,
}

module _ {h : Host} (r : Reader h) where
  abbrev note : String → Bool → Prog (Sys h) Bool
  note dir b = change (remember r dir b) >> ret b

  known :
      (dir : String) (b : Bool) (s : Sys h)
      → lookup dir s.needs_db_cache ≡ some b
      → run (needs_database_cached r dir) s ≡ (some b, s)
  unfolding needs_database_cached run ◌>>=◌
  known dir b s e = ap (λ o. run (recall r dir o) s) e

  noted :
      (dir : String) (value b : Bool) (s : Sys h) {s' : Sys h}
      → run (note dir value) s ≡ (some b, s')
      → lookup dir s'.needs_db_cache ≡ some b
  unfolding run ◌>>=◌
  noted dir value b s e =
      ap (λ x. lookup dir x.1.needs_db_cache) (sym e)
      ∙ (lookup-insert dir dir value s.needs_db_cache ∙ (rw (eq_refl dir) refl))
      ∙ ap (λ x. x.0) e

  stored :
      (dir : String) (b : Bool) (s s' : Sys h)
      → run (needs_database_cached r dir) s ≡ (some b, s')
      → lookup dir s'.needs_db_cache ≡ some b
  unfolding needs_database_cached run ◌>>=◌
  stored dir b s s' e = elim (Option-cases (lookup dir s.needs_db_cache)) [
    | inr (b', old) ↦
        let same = sym (known dir b' s old) ∙ e in
        ap (λ x. lookup dir x.1.needs_db_cache) (sym same) ∙ old ∙ ap (λ x. x.0) same
    | inl new ↦
        let asked = sym (ap (λ o. run (recall r dir o) s) new) ∙ e in
        let parts = run-bind_inv (needs_database r dir) (note dir) s asked in
        noted dir parts.value b parts.between parts.went_on
  ]

  -- The second call of `NeedsDatabase` on a folder gives the answer of the first, and changes
  -- nothing, whatever has happened to the files.
  pub needs_database_cached_lem :
      (dir : String) (b : Bool) (s s' : Sys h) (w : h.World)
      → run (needs_database_cached r dir) s ≡ (some b, s')
      → let later = record s' { world = w } in
        run (needs_database_cached r dir) later ≡ (some b, later)
  needs_database_cached_lem dir b s s' w e =
      known dir b (record s' { world = w }) (stored dir b s s' e)

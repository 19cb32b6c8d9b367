-- ===== src/Persist/Laws.antt =====
-- Saving and loading against a disk that keeps what is written.
use egovframe_launcher.Base.{
  String, ◌≡◌, refl, sym, ap, ◌∙◌, true, false, Option, none, some, arith, Bool-cases, inl, inr,
  eq_iff, ◌≢◌,
}
use egovframe_launcher.Persist.{
  Config, zero_config, Vars, start, Disk, with_path, load_from, init, load, save,
}

-- Documented behaviour of the file system and of encoding/json: a write that reports no error is
-- there to be read, and decoding over the zero value gives back what was encoded.
pub record IsLawful (d : Disk) : Type 0 where
  pub read-write :
      (path : String) (text : d.Text) (files files' : d.Files)
      → d.write path text files ≡ (none, files')
      → d.read files' path ≡ some text
  pub decode-encode : (c : Config) → d.decode (d.encode c) zero_config ≡ c

module _ (d : Disk) where
  pub with_path_named : (v : Vars) → v.file_path ≢ "" → with_path d v ≡ v
  with_path_named v named = ground (arith, eq_iff v.file_path "")

  load_from-some :
      (t : d.Text) (o : Option d.Text) (v : Vars)
      → o ≡ some t
      → load_from d o v ≡ load_from d (some t) v
  load_from-some t o v e = ap (λ o'. load_from d o' v) e

  -- After a save that reports no error, the next process that names the same file loads exactly
  -- the settings that were saved.
  pub load-save :
      IsLawful d
      → (c : Config) (v : Vars) (files : d.Files) → v.file_path ≢ ""
      → (save d c v files).0 ≡ none
      → (load d (save d c v files).2 (init v.file_path start)).0 ≡ c
  unfolding save load init
  load-save L c v files named saved =
      let same = with_path_named v named in
      let again = with_path_named (init v.file_path start) named in
      let below = d.make_parent v.file_path files in
      let written : d.write v.file_path (d.encode c) below
          ≡ (none, (d.write v.file_path (d.encode c) below).1) =
        ground (arith, rw (same, save) at saved) in
      rw (again, same)
        (rw (L.read-write v.file_path (d.encode c) below _ written) (L.decode-encode c))

  load_from-loaded : (t : Option d.Text) (v : Vars) → (load_from d t v).loaded ≡ true
  load_from-loaded none v = refl
  load_from-loaded (some b) v = refl

  load_loaded : (v : Vars) (later : d.Files) → v.loaded ≡ true → load d later v ≡ (v.current, v)
  unfolding load
  load_loaded v later old = rw old

  load_fresh :
      (v : Vars) (files : d.Files)
      → v.loaded ≡ false
      → let w = load_from d (d.read files (with_path d v).file_path) (with_path d v) in
        load d files v ≡ (w.current, w)
  unfolding load
  load_fresh v files fresh = ground (arith, fresh)

  -- Once loaded, the settings in memory answer every later call, whatever happens to the file.
  pub load-load :
      (files later : d.Files) (v : Vars) → load d later (load d files v).1 ≡ load d files v
  load-load files later v = elim (Bool-cases v.loaded) [
    | inl old ↦
        let e = load_loaded v files old in
        ap (λ r. load d later r.1) e ∙ load_loaded v later old ∙ sym e
    | inr fresh ↦
        let w = load_from d (d.read files (with_path d v).file_path) (with_path d v) in
        let e = load_fresh v files fresh in
        ap (λ r. load d later r.1) e
        ∙ load_loaded w later (load_from-loaded _ (with_path d v))
        ∙ sym e
  ]

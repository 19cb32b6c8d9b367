-- ===== src/Runner/Install/Gate.antt =====
-- What autoInstallTomcat of launcher/internal/runner/runner.go does without an archive of the
-- expected digest.
use egovframe_launcher.Base.{
  ℕ, ◌≢◌, refl, ap, String, ◌<>◌, str_eq, eq_iff, Bool, true, false, Option, none, some, [], ◌∷◌,
  ◌==◌,
}
use egovframe_launcher.Base.Outcome.{Outcome, got, fault}
use egovframe_launcher.Prog.{ret, ◌>>◌}
use egovframe_launcher.Prog.Kept.{Kept}
use egovframe_launcher.Prog.Ends.{Any, Ends-bind, Ends-ret, Ends-step, Ends-if, Ends-Kept}
use egovframe_launcher.Runner.Host.{Host}
use egovframe_launcher.Runner.Sys.{tell}
use egovframe_launcher.Runner.Command.{is_present}
use egovframe_launcher.Runner.Digest.{verify_local_sha512}
use egovframe_launcher.Runner.Rsp.{catalina}
use egovframe_launcher.Runner.Install.{
  Installer, tomcat_dir_name, tomcat_zip_url, tomcat_zip_sha512, checked_digest, into_temp,
  on_response, download_and_verify_sha512,
}
use egovframe_launcher.Runner.Install.Unpack.{
  from_local, from_download, take_archive, install_archive, unless_installed, with_folder,
  with_home, auto_install_tomcat,
}
use egovframe_launcher.Runner.WorldEnds.{OnWorld, Well, ask-Ends, look-Ends, log-Ends}

abbrev Faulty : {A : Type 0} → Outcome A → Type 0
Faulty (got a) = ⊥
Faulty (fault e) = Unit

module _ {h : Host} (inst : Installer h) (P : h.World → Type 0) where
  -- Neither a local archive nor a download has the digest, and nothing of what comes before the
  -- unpacking ends `P`.
  pub record Unverified : Type 0 where
    pub mkdir_all : (path : String) (w : h.World) → P w → P (h.mkdir_all path w).1
    pub http_get : (url : String) (w : h.World) → P w → P (inst.http_get url w).1
    pub create_temp : (w : h.World) → P w → P (inst.create_temp w).1
    pub save_body : (url path : String) (w : h.World) → P w → P (inst.save_body url path w).1
    pub remove : (path : String) (w : h.World) → P w → P (inst.remove path w)
    pub local_differs :
        (path : String) (w : h.World)
        → P w
        → verify_local_sha512 (inst.sha512_hex w) path tomcat_zip_sha512 ≢ none
    pub body_differs :
        (url path : String) (w : h.World)
        → P w
        → (inst.save_body url path w).0 ≢ got tomcat_zip_sha512

  module _ (u : Unverified) where
    remove-Ends :
        (path err_text : String)
        → Well P (Faulty {A = String}) (tell {h = h} (inst.remove path) >> ret (fault err_text))
    remove-Ends path err_text =
        Ends-bind {R = Any} _ _ (Ends-step _ (λ _. tt) (λ s p. u.remove path s.world p) (λ s p. tt))
          (λ _ _. Ends-ret _ tt)

    digest-Ends :
        (url path id : String) (o : Outcome String)
        → o ≢ got tomcat_zip_sha512
        → Well P Faulty (checked_digest inst url tomcat_zip_sha512 path id o)
    digest-Ends url path id (fault e) ne = remove-Ends path _
    digest-Ends url path id (got actual) ne =
        Ends-if (str_eq actual tomcat_zip_sha512) _ _
          (λ same. absurd (ne (ap got ((eq_iff actual tomcat_zip_sha512).0 same))))
          (λ other. remove-Ends path _)

    temp-Ends :
        (url id : String) (o : Outcome String)
        → Well P Faulty (into_temp inst url tomcat_zip_sha512 id o)
    temp-Ends url id (fault e) = Ends-ret _ tt
    temp-Ends url id (got path) = Ends-bind {R = Any} _ _ (log-Ends P id _) (λ _ _.
        Ends-bind {R = λ o. o ≢ got tomcat_zip_sha512} _ _
          (ask-Ends P (inst.save_body url path) (λ w p. u.save_body url path w p)
            (λ w p. u.body_differs url path w p))
          (λ o ne. digest-Ends url path id o ne))

    response-Ends :
        (url id : String) (o : Outcome ℕ)
        → Well P Faulty (on_response inst url tomcat_zip_sha512 id o)
    response-Ends url id (fault e) = Ends-ret _ tt
    response-Ends url id (got status) =
        Ends-if (status == 200) _ _
          (λ fine.
            Ends-bind {R = Any} _ _ (ask-Ends P inst.create_temp u.create_temp (λ w p. tt))
              (λ o _. temp-Ends url id o))
          (λ bad. Ends-ret _ tt)

    download-Ends :
        (url id : String) → Well P Faulty (download_and_verify_sha512 inst url tomcat_zip_sha512 id)
    unfolding download_and_verify_sha512
    download-Ends url id =
        Ends-bind {R = Any} _ _ (ask-Ends P (inst.http_get url) (u.http_get url) (λ w p. tt))
          (λ o _. response-Ends url id o)

    local-Ends :
        (zip_path install_dir home id : String) (o : Option String)
        → o ≢ none
        → Well P Any (from_local inst zip_path install_dir home id o)
    local-Ends zip_path install_dir home id none ne = absurd (ne refl)
    local-Ends zip_path install_dir home id (some e) ne = Ends-ret _ tt

    from_download-Ends :
        (install_dir home id : String) (o : Outcome String)
        → Faulty o
        → Well P Any (from_download inst install_dir home id o)
    from_download-Ends install_dir home id (fault e) f = Ends-ret _ tt
    from_download-Ends install_dir home id (got path) f = absurd f

    take-Ends :
        (offline install_dir home id : String) (b : Bool)
        → Well P Any (take_archive inst offline install_dir home id b)
    unfolding take_archive
    take-Ends offline install_dir home id true = Ends-bind {R = Any} _ _ (log-Ends P id _) (λ _ _.
        Ends-bind {R = λ o. o ≢ none} _ _
          (look-Ends P (λ w. verify_local_sha512 (inst.sha512_hex w) offline tomcat_zip_sha512)
            (λ w p. u.local_differs offline w p))
          (λ o ne. local-Ends offline install_dir home id o ne))
    take-Ends offline install_dir home id false = Ends-bind {R = Any} _ _ (log-Ends P id _) (λ _ _.
        Ends-bind {R = Faulty} _ _ (download-Ends tomcat_zip_url id)
          (λ o f. from_download-Ends install_dir home id o f))

    archive-Ends :
        (install_dir home id : String) → Well P Any (install_archive inst install_dir home id)
    unfolding install_archive
    archive-Ends install_dir home id =
        let offline = h.join (install_dir ∷ (tomcat_dir_name <> ".zip") ∷ []) in
        Ends-bind {R = Any} _ _ (look-Ends P (h.stat offline) (λ w p. tt))
          (λ found _. take-Ends offline install_dir home id (is_present found))

    installed-Ends :
        (install_dir home id : String) (b : Bool)
        → Well P Any (unless_installed inst install_dir home id b)
    unfolding unless_installed
    installed-Ends install_dir home id true =
        Ends-bind {R = Any} _ (λ _. ret (got home)) (log-Ends P id _) (λ _ _. Ends-ret _ tt)
    installed-Ends install_dir home id false = archive-Ends install_dir home id

    folder-Ends :
        (install_dir id : String) (o : Option String)
        → Well P Any (with_folder inst install_dir id o)
    folder-Ends install_dir id (some e) = Ends-ret _ tt
    folder-Ends install_dir id none =
        let home = h.join (install_dir ∷ tomcat_dir_name ∷ []) in
        Ends-bind {R = Any} _ _ (look-Ends P (h.stat (catalina h home)) (λ w p. tt))
          (λ installed _. installed-Ends install_dir home id (is_present installed))

    home-Ends : (id : String) (o : Outcome String) → Well P Any (with_home inst id o)
    home-Ends id (fault e) = Ends-ret _ tt
    home-Ends id (got home) =
        let install_dir = h.join (home ∷ ".egov-launcher" ∷ []) in
        Ends-bind {R = Any} _ _
          (ask-Ends P (h.mkdir_all install_dir) (u.mkdir_all install_dir) (λ w p. tt))
          (λ o _. folder-Ends install_dir id o)

    -- While neither a local archive nor a download has the expected digest, autoInstallTomcat keeps
    -- every property that is kept by making folders, by the download and by removing files, whatever
    -- other goroutines do between its steps: it writes no entry of an archive and changes no file's
    -- mode.
    pub auto_install_tomcat-Kept : (id : String) → Kept (OnWorld P) (auto_install_tomcat inst id)
    unfolding auto_install_tomcat
    auto_install_tomcat-Kept id =
        Ends-Kept {R = Any} _
          (Ends-bind {R = Any} _ _ (look-Ends P inst.user_home (λ w p. tt)) (λ o _. home-Ends id o))

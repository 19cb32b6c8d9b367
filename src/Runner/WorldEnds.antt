-- ===== src/Runner/WorldEnds.antt =====
-- Handlers whose calls keep a property of the world, with what holds of their results: lemmas on
-- the steps of launcher/internal/runner/runner.go.
use egovframe_launcher.Base.{String, Option, none, some}
use egovframe_launcher.Prog.{Prog, ◌>>=◌}
use egovframe_launcher.Prog.Ends.{Any, Ends, Ends-bind, Ends-ret, Ends-step}
use egovframe_launcher.Runner.Host.{Host}
use egovframe_launcher.Runner.Sys.{Sys, ask, look, log}
use egovframe_launcher.Runner.Tools.{go_on}

module _ {h : Host} (P : h.World → Type 0) where
  abbrev pub OnWorld : Sys h → Type 0
  OnWorld s = P s.world

  abbrev pub Well : {A : Type 0} → (A → Type 0) → Prog (Sys h) A → Type 0
  Well R m = Ends OnWorld R m

  pub ask-Ends :
      {A : Type 0} {R : A → Type 0} (op : h.World → A × h.World)
      → ((w : h.World) → P w → P (op w).1)
      → ((w : h.World) → P w → R (op w).0)
      → Well R (ask {h = h} op)
  ask-Ends op keep res = Ends-step _ _ (λ s p. keep s.world p) (λ s p. res s.world p)

  pub look-Ends :
      {A : Type 0} {R : A → Type 0} (op : h.World → A)
      → ((w : h.World) → P w → R (op w))
      → Well R (look {h = h} op)
  look-Ends op res = Ends-step _ _ (λ s p. p) (λ s p. res s.world p)

  pub log-Ends : (id line : String) → Well Any (log {h = h} id line)
  log-Ends id line = Ends-step _ _ (λ s p. p) (λ s p. tt)

  pub go_on-Ends :
      (next : Prog (Sys h) (Option String)) (o : Option String)
      → Well Any next
      → Well Any (go_on next o)
  go_on-Ends next none k = k
  go_on-Ends next (some e) k = Ends-ret _ tt

  pub ask_go-Ends :
      (op : h.World → Option String × h.World) (next : Prog (Sys h) (Option String))
      → ((w : h.World) → P w → P (op w).1)
      → Well Any next
      → Well Any (ask {h = h} op >>= go_on next)
  ask_go-Ends op next keep k =
      Ends-bind {R = Any} _ _ (ask-Ends op keep (λ w p. tt)) (λ o _. go_on-Ends next o k)

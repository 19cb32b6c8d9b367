-- ===== src/Prog/Pool.antt =====
-- Goroutines over one shared state, interleaved step by step in any order.
use egovframe_launcher.Base.{◌≡◌, List, ◌∷◌, ◌++◌, All, All-middle}
use egovframe_launcher.Prog.{Prog, step}
use egovframe_launcher.Prog.Kept.{Kept}

pub record Pool (S : Type 0) : Type 0 where
  pub shared : S
  pub threads : List (Prog S (Unit {0}))

-- `Starts` says which programs a request may start.
module _ {S : Type 0} (Starts : Prog S (Unit {0}) → Type 0) where
  pub data Step (p : Pool S) : Pool S → Type 0 where
    spawn : (m : Prog S (Unit {0})) → Starts m → Step p (record p { threads = m ∷ p.threads })
    tick :
        (before after : List (Prog S (Unit {0}))) (f : S → S) (k : S → Prog S (Unit {0}))
        → p.threads ≡ before ++ step f k ∷ after
        → Step p (record { shared = f p.shared; threads = before ++ k p.shared ∷ after })

  pub data Reach (p : Pool S) : Pool S → Type 0 where
    here : Reach p p
    next : {q r : Pool S} → Reach p q → Step q r → Reach p r

  module _ (P : S → Type 0) (starts_keep : (m : Prog S (Unit {0})) → Starts m → Kept P m) where
    abbrev pub IsSafe : Pool S → Type 0
    IsSafe p = P p.shared × All (Kept P) p.threads

    Step-IsSafe : {p q : Pool S} → Step p q → IsSafe p → IsSafe q
    Step-IsSafe (spawn m st) (h, all) = (h, (starts_keep m st, all))
    Step-IsSafe {p} (tick before after f k e) (h, all) =
        let (mid, put) = All-middle (Kept P) before after (rw e at all) in
        ((mid.each p.shared h).0, put (k p.shared) (record { each = (mid.each p.shared h).1 }))

    pub Reach-IsSafe : {p q : Pool S} → IsSafe p → Reach p q → IsSafe q
    Reach-IsSafe h here = h
    Reach-IsSafe h (next r st) = Step-IsSafe st (Reach-IsSafe h r)

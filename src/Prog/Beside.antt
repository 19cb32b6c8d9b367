-- ===== src/Prog/Beside.antt =====
-- Two programs side by side: a goroutine that is started, and waited for at the end.
use egovframe_launcher.Base.{Bool, true, false, List, [], ◌∷◌}
use egovframe_launcher.Prog.{Prog, ret, quit, step, ◌>>=◌}
use egovframe_launcher.Prog.Kept.{Kept, Kept-bind, Kept-ret, Kept-step}

module _ {S A B : Type 0} where
  -- The turns say whose step is next, `true` for the goroutine; when they are over, the caller goes
  -- on to its end and waits.
  unfoldable pub beside : List Bool → Prog S A → Prog S B → Prog S B
  unfolding ◌>>=◌
  beside [] m n = n >>= λ b. m >>= λ _. ret b
  beside (true ∷ turns) (step f k) n = step f (λ s. beside turns (k s) n)
  beside (true ∷ turns) (ret a) n = beside turns (ret a) n
  beside (true ∷ turns) quit n = beside turns quit n
  beside (false ∷ turns) m (step f k) = step f (λ s. beside turns m (k s))
  beside (false ∷ turns) m (ret b) = beside turns m (ret b)
  beside (false ∷ turns) m quit = beside turns m quit

  module _ {P : S → Type 0} where
    pub Kept-beside :
        (turns : List Bool) (m : Prog S A) (n : Prog S B)
        → Kept P m
        → Kept P n
        → Kept P (beside turns m n)
    unfolding beside
    Kept-beside [] m n km kn = Kept-bind n _ kn (λ b. Kept-bind m _ km (λ _. Kept-ret b))
    Kept-beside (true ∷ turns) (step f k) n km kn =
        Kept-step f _ (λ s p. (km.each s p).0)
          (λ s p. Kept-beside turns (k s) n (record { each = (km.each s p).1 }) kn)
    Kept-beside (true ∷ turns) (ret a) n km kn = Kept-beside turns (ret a) n km kn
    Kept-beside (true ∷ turns) quit n km kn = Kept-beside turns quit n km kn
    Kept-beside (false ∷ turns) m (step f k) km kn =
        Kept-step f _ (λ s p. (kn.each s p).0)
          (λ s p. Kept-beside turns m (k s) km (record { each = (kn.each s p).1 }))
    Kept-beside (false ∷ turns) m (ret b) km kn = Kept-beside turns m (ret b) km kn
    Kept-beside (false ∷ turns) m quit km kn = Kept-beside turns m quit km kn

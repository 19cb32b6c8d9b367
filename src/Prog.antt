-- ===== src/Prog.antt =====
-- Programs whose every step is atomic: a handler of the runner takes a lock, or asks the operating
-- system, for one step at a time, and other goroutines run between two steps.
pub mod Kept
pub mod Pool
pub mod Inversion
pub mod Beside
pub mod Ends
use egovframe_launcher.Base.{◌≡◌, refl, Option, none, some, arith}

-- `quit` is a bare `return` of the handler; `step f k` changes the state by `f` and goes on with
-- what `k` makes of the state before.
pub data Prog (S A : Type 0) : Type 0 where
  ret : A → Prog S A
  quit : Prog S A
  step : (S → S) → (S → Prog S A) → Prog S A

module _ {S A B : Type 0} where
  infixl 5 ◌>>=◌ ◌>>◌
  unfoldable pub ◌>>=◌ : Prog S A → (A → Prog S B) → Prog S B
  ret a >>= f = f a
  quit >>= f = quit
  step g k >>= f = step g (λ s. k s >>= f)

  abbrev pub ◌>>◌ : Prog S A → Prog S B → Prog S B
  m >> n = m >>= λ _. n

module _ {S : Type 0} where
  abbrev pub skip : Prog S (Unit {0})
  skip = ret tt

  abbrev pub change : (S → S) → Prog S (Unit {0})
  change f = step f (λ s. ret tt)

module _ {S A : Type 0} where
  abbrev pub reads : (S → A) → Prog S A
  reads g = step (λ s. s) (λ s. ret (g s))

  -- The program alone, with nothing between its steps: its result (`none` after a `quit`) and the
  -- state that it leaves.
  unfoldable pub run : Prog S A → S → Option A × S
  run (ret a) s = (some a, s)
  run quit s = (none, s)
  run (step f k) s = run (k s) (f s)

module _ {S A B : Type 0} where
  unfoldable pub continue : Option A → (A → Prog S B) → S → Option B × S
  continue none f s = (none, s)
  continue (some a) f s = run (f a) s

  pub run-bind :
      (m : Prog S A) (f : A → Prog S B) (s : S)
      → run (m >>= f) s ≡ continue (run m s).0 f (run m s).1
  unfolding run ◌>>=◌ continue
  run-bind (ret a) f s = refl
  run-bind quit f s = refl
  run-bind (step g k) f s = run-bind (k s) f (g s)

  pub run-bind_some :
      (m : Prog S A) (f : A → Prog S B) (s : S) {a : A} {s' : S}
      → run m s ≡ (some a, s')
      → run (m >>= f) s ≡ run (f a) s'
  unfolding continue
  run-bind_some m f s e = rw (run-bind m f s) (rw e refl)

-- ===== src/Prog/Kept.antt =====
-- Invariants of programs: kept by every single step, whatever the state in which it is taken.
use egovframe_launcher.Base.{Bool, true, false, if◌then◌else◌}
use egovframe_launcher.Prog.{Prog, ret, quit, step, ◌>>=◌, run}

module _ {S : Type 0} (P : S → Type 0) where
  abbrev pub EachStep : {A : Type 0} → Prog S A → Type 0
  EachStep (ret a) = Unit
  EachStep quit = Unit
  EachStep (step f k) = (s : S) → P s → P (f s) × EachStep (k s)

  -- The record keeps the program in the type, where `_` finds it.
  pub record Kept {A : Type 0} (m : Prog S A) : Type 0 where
    pub each : EachStep m

module _ {S : Type 0} (P : S → Type 0) where
  EachStep-bind :
      {A B : Type 0} (m : Prog S A) (f : A → Prog S B)
      → EachStep P m
      → ((a : A) → EachStep P (f a))
      → EachStep P (m >>= f)
  unfolding ◌>>=◌
  EachStep-bind (ret a) f km kf = kf a
  EachStep-bind quit f km kf = tt
  EachStep-bind (step g k) f km kf = λ s p. ((km s p).0, EachStep-bind (k s) f (km s p).1 kf)

  EachStep-assoc :
      {A B C : Type 0} (m : Prog S A) (k : A → Prog S B) (f : B → Prog S C)
      → EachStep P (m >>= λ a. k a >>= f)
      → EachStep P (m >>= k >>= f)
  unfolding ◌>>=◌
  EachStep-assoc (ret a) k f e = e
  EachStep-assoc quit k f e = tt
  EachStep-assoc (step g n) k f e = λ s p. ((e s p).0, EachStep-assoc (n s) k f (e s p).1)

  EachStep-run : {A : Type 0} (m : Prog S A) (s : S) → EachStep P m → P s → P (run m s).1
  unfolding run
  EachStep-run (ret a) s km p = p
  EachStep-run quit s km p = p
  EachStep-run (step f k) s km p = EachStep-run (k s) (f s) (km s p).1 (km s p).0

module _ {S : Type 0} {P : S → Type 0} where
  pub Kept-bind :
      {A B : Type 0} (first : Prog S A) (after : A → Prog S B)
      → Kept P first
      → ((x : A) → Kept P (after x))
      → Kept P (first >>= after)
  Kept-bind first after kept keeps = record {
    each = EachStep-bind P first after kept.each (λ x. (keeps x).each);
  }

  pub Kept-assoc :
      {A B C : Type 0} (m : Prog S A) (k : A → Prog S B) (f : B → Prog S C)
      → Kept P (m >>= λ a. k a >>= f)
      → Kept P (m >>= k >>= f)
  Kept-assoc m k f e = record { each = EachStep-assoc P m k f e.each }

  pub Kept-then :
      {A : Type 0} {m : Prog S (Unit {0})} {n : Prog S A}
      → Kept P m
      → Kept P n
      → Kept P (m >>= λ _. n)
  Kept-then {m} {n} km kn = Kept-bind m (λ _. n) km (λ _. kn)

  pub Kept-run : {A : Type 0} (m : Prog S A) (s : S) → Kept P m → P s → P (run m s).1
  Kept-run m s km p = EachStep-run P m s km.each p

  pub Kept-if :
      {A : Type 0} (test : Bool) (yes_way no_way : Prog S A)
      → Kept P yes_way
      → Kept P no_way
      → Kept P (if test then yes_way else no_way)
  Kept-if true yes_way no_way ky kn = ky
  Kept-if false yes_way no_way ky kn = kn

  pub Kept-ret : {A : Type 0} (a : A) → Kept P (ret a)
  Kept-ret a = record { each = tt }

  pub Kept-step :
      {A : Type 0} (f : S → S) (k : S → Prog S A)
      → ((s : S) → P s → P (f s))
      → ((s : S) → P s → Kept P (k s))
      → Kept P (step f k)
  Kept-step f k kf kk = record { each = λ s p. (kf s p, (kk s p).each) }

-- The program of type `A` that quits.
module _ {S : Type 0} {P : S → Type 0} (A : Type 0) where
  pub Kept-quit : Kept P {A = A} quit
  Kept-quit = record { each = tt }

pub ruleset keeping = (Kept-bind, Kept-then, Kept-if, Kept-ret, Kept-quit)

-- ===== src/Prog/Ends.antt =====
-- Programs whose every step keeps a property of the state, and whose result has one of its own.
use egovframe_launcher.Base.{Bool, true, false, ◌≡◌, refl, if◌then◌else◌}
use egovframe_launcher.Prog.{Prog, ret, quit, step, ◌>>=◌}
use egovframe_launcher.Prog.Kept.{Kept}

-- Nothing is said of the value.
abbrev pub Any : {A : Type 0} → A → Type 0
Any a = Unit

module _ {S : Type 0} (P : S → Type 0) where
  abbrev pub EndsWell : {A : Type 0} → (A → Type 0) → Prog S A → Type 0
  EndsWell R (ret a) = R a
  EndsWell R quit = Unit
  EndsWell R (step f k) = (s : S) → P s → P (f s) × EndsWell R (k s)

  pub record Ends {A : Type 0} (R : A → Type 0) (m : Prog S A) : Type 0 where
    pub well : EndsWell R m

module _ {S : Type 0} (P : S → Type 0) where
  EndsWell-bind :
      {A B : Type 0} (R : A → Type 0) (Q : B → Type 0) (m : Prog S A) (f : A → Prog S B)
      → EndsWell P R m
      → ((a : A) → R a → EndsWell P Q (f a))
      → EndsWell P Q (m >>= f)
  unfolding ◌>>=◌
  EndsWell-bind R Q (ret a) f em ef = ef a em
  EndsWell-bind R Q quit f em ef = tt
  EndsWell-bind R Q (step g k) f em ef =
      λ s p. ((em s p).0, EndsWell-bind R Q (k s) f (em s p).1 ef)

  each_step : {A : Type 0} (R : A → Type 0) (m : Prog S A) → EndsWell P R m → Kept P m
  each_step R (ret a) e = record { each = tt }
  each_step R quit e = record { each = tt }
  each_step R (step f k) e = record {
    each = λ s p. ((e s p).0, (each_step R (k s) (e s p).1).each);
  }

module _ {S : Type 0} {P : S → Type 0} where
  pub Ends-bind :
      {A B : Type 0} {R : A → Type 0} {Q : B → Type 0} (m : Prog S A) (f : A → Prog S B)
      → Ends P R m
      → ((a : A) → R a → Ends P Q (f a))
      → Ends P Q (m >>= f)
  Ends-bind {R} {Q} m f em ef = record {
    well = EndsWell-bind P R Q m f em.well (λ a r. (ef a r).well);
  }

  pub Ends-ret : {A : Type 0} {R : A → Type 0} (a : A) → R a → Ends P R (ret a)
  Ends-ret a r = record { well = r }

  -- A step with what it hands on.
  pub Ends-step :
      {A : Type 0} {R : A → Type 0} (f : S → S) (g : S → A)
      → ((s : S) → P s → P (f s))
      → ((s : S) → P s → R (g s))
      → Ends P R (step f (λ s. ret (g s)))
  Ends-step f g kf kg = record { well = λ s p. (kf s p, kg s p) }

  pub Ends-if :
      {A : Type 0} {R : A → Type 0} (test : Bool) (yes_way no_way : Prog S A)
      → (test ≡ true → Ends P R yes_way)
      → (test ≡ false → Ends P R no_way)
      → Ends P R (if test then yes_way else no_way)
  Ends-if true yes_way no_way ky kn = ky refl
  Ends-if false yes_way no_way ky kn = kn refl

  pub Ends-Kept : {A : Type 0} {R : A → Type 0} (m : Prog S A) → Ends P R m → Kept P m
  Ends-Kept {R} m e = each_step P R m e.well

-- ===== src/Prog/Inversion.antt =====
-- What a program's result says about the parts it was made of.
use egovframe_launcher.Base.{◌≡◌, refl, some, Bool, true, false, if◌then◌else◌, arith}
use egovframe_launcher.Prog.{Prog, ret, quit, step, ◌>>=◌, run}

module _ {S A B : Type 0} where
  -- The first part gave a value, from which the second went on.
  pub record Split (first : Prog S A) (after : A → Prog S B) (s : S) (b : B) (s' : S) : Type 0 where
    pub value : A
    pub between : S
    pub ran : run first s ≡ (some value, between)
    pub went_on : run (after value) between ≡ (some b, s')

  pub run-bind_inv :
      (first : Prog S A) (after : A → Prog S B) (s : S) {b : B} {s' : S}
      → run (first >>= after) s ≡ (some b, s')
      → Split first after s b s'
  unfolding run ◌>>=◌
  run-bind_inv (ret a) after s e = record { value = a; between = s; ran = refl; went_on = e }
  run-bind_inv quit after s e = ground arith
  run-bind_inv (step g k) after s e =
      let inner = run-bind_inv (k s) after (g s) e in
      record {
        value = inner.value;
        between = inner.between;
        ran = inner.ran;
        went_on = inner.went_on;
      }

module _ {S A : Type 0} where
  pub run-if :
      (b : Bool) (m n : Prog S A) (s : S)
      → run (if b then m else n) s ≡ (if b then run m s else run n s)
  run-if true m n s = refl
  run-if false m n s = refl

-- ===== src/Runner/Command/Arguments.antt =====
-- The arguments that exec of launcher/internal/runner/runner.go gives to Maven.
use egovframe_launcher.Base.{
  String, ◌≡◌, refl, Bool, true, false, not, List, [], ◌∷◌, arith, any, keep, any-append,
  append-nil, any-keep-not, keep-append, keep-keep, Bool-cases, inl, inr,
}
use egovframe_launcher.Runner.Command.{is_skip, skip_args}

-- Maven is told to skip the tests exactly if the setting says so, whatever the command's own
-- arguments are, and the other arguments stay as they are and in their order.
pub skip_args_lem :
    (skip : Bool) (args : List String)
    → (any is_skip (skip_args skip args) ≡ skip)
      × (keep (λ a. not (is_skip a)) (skip_args skip args) ≡ keep (λ a. not (is_skip a)) args)
unfolding skip_args
skip_args_lem true args = elim (Bool-cases (any is_skip args)) [
  | inl given ↦ rw given (given, refl)
  | inr absent ↦ ground (
    arith,
    any-append is_skip args ("-DskipTests" ∷ []),
    keep-append (λ a. not (is_skip a)) args ("-DskipTests" ∷ []),
    append-nil (keep (λ a. not (is_skip a)) args),
  )
]
skip_args_lem false args = elim (Bool-cases (any is_skip args)) [
  | inl given ↦ rw given (any-keep-not is_skip args, keep-keep (λ a. not (is_skip a)) args)
  | inr absent ↦ rw absent (absent, refl)
]

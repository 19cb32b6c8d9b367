-- ===== src/Base/Outcome.antt =====
-- A value and an error of which Go returns one, the error as the text of its `Error()`.
use Prim.Native.String.{String}

pub data Outcome (A : Type 0) : Type 0 where
  got : A → Outcome A
  fault : String → Outcome A

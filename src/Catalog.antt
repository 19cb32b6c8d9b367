-- ===== src/Catalog.antt =====
-- launcher/internal/catalog/catalog.go: the catalog of runnable repositories.
-- `Available` asks the process environment for a tool on PATH and is a parameter of its users.
mod Types
mod Templates
mod Sites
mod Msa
pub mod Lookup
pub mod Ports
mod Tests
pub use Types.{Tier, tier1, tier2, tier3, Command, Account, Target}
unfoldable pub use Types.{mvn}
use Templates.{boot_sample, web_sample, simple_backend, simple_react, portal}
use Sites.{enterprise_business, homepage, common_components}
use Msa.{msa, msa_edu}
use egovframe_launcher.Base.{String, Option, none, some, List, [], ◌∷◌, str_eq, if◌then◌else◌}

unfoldable pub targets : List Target
unfolding boot_sample web_sample simple_backend simple_react portal enterprise_business homepage msa
    common_components msa_edu mvn
targets =
    boot_sample ∷ web_sample ∷ simple_backend ∷ simple_react ∷ portal ∷ enterprise_business
    ∷ homepage ∷ msa ∷ common_components ∷ msa_edu ∷ []

-- The loop of `ByID`, and of `catalogByID` in the runner.
unfoldable pub find_id : String → List Target → Option Target
find_id id [] = none
find_id id (t ∷ ts) = if str_eq t.id id then some t else find_id id ts

unfoldable pub by_id : String → Option Target
unfolding find_id targets
by_id id = find_id id targets

-- ===== src/Catalog/Types.antt =====
-- The types of launcher/internal/catalog/catalog.go. Ports are declared there as literals, so none
-- is negative; a field that an entry leaves out has Go's zero value.
use egovframe_launcher.Base.{ℕ, String, List}

pub data Tier : Type 0 where
  tier1 tier2 tier3 : Tier

pub record Command : Type 0 where
  pub name : String
  pub args : List String
  pub dir : String
  pub port : ℕ

pub record Account : Type 0 where
  pub label : String
  pub id : String
  pub password : String

abbrev pub account : String → String → String → Account
account label id password = record { label = label; id = id; password = password }

pub record Target : Type 0 where
  pub id : String
  pub display_name : String
  pub category : String
  pub repo_url : String
  pub branch : String
  pub tier : Tier
  pub prereqs : List String
  pub port : ℕ
  pub open_path : String
  pub build : List Command
  pub run : List Command
  pub note : String
  pub deploy_type : String
  pub backend_id : String
  pub run_env : List String
  pub accounts : List Account

unfoldable pub mvn : List String → Command
mvn args = record { name = "mvn"; args = args; dir = ""; port = 0 }

abbrev pub base : String
base = "https://github.com/eGovFramework/"

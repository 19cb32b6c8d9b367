-- ===== src/Catalog/Tests.antt =====
-- Lookups in the catalog, and the theorems at entries of it.
use egovframe_launcher.Base.{ℕ, ◌≡◌, refl, ◌↔◌, none, some}
use mathlib.Core.List.{Memᴰ}
use egovframe_launcher.Catalog.{targets, by_id}
use egovframe_launcher.Catalog.Templates.{simple_react}
use egovframe_launcher.Catalog.Lookup.{by_id_iff}
use egovframe_launcher.Catalog.Ports.{
  port_plan, port_plan_injective, IsRunnable, targets-IsRunnable,
}

unknown_id : by_id "no-such-target" ≡ none
unfolding by_id
unknown_id = refl

simple_react-listed : Memᴰ simple_react targets
unfolding targets
simple_react-listed = Memᴰ.tail (Memᴰ.tail (Memᴰ.tail (Memᴰ.head refl)))

by_id_iff_example :
    (by_id "simple-react" ≡ some simple_react)
    ↔ (Memᴰ simple_react targets × (simple_react.id ≡ "simple-react"))
by_id_iff_example = by_id_iff "simple-react" simple_react

port_plan_injective_example : ◌≡◌ {A = ℕ} 1 1
unfolding port_plan
port_plan_injective_example = port_plan_injective 1 1 {p = 8080} refl refl

targets-IsRunnable_example : IsRunnable simple_react
targets-IsRunnable_example = targets-IsRunnable simple_react simple_react-listed

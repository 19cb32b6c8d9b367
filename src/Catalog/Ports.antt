-- ===== src/Catalog/Ports.antt =====
-- The port plan in the header comment of launcher/internal/catalog/catalog.go, and what the runner
-- takes for granted of every entry.
use egovframe_launcher.Base.{
  ℕ, zero, suc, ◌<◌, ◌≡◌, refl, ap, ◌≢◌, ◌↔◌, Bool, true, false, not, ◌&&◌, ◌||◌, Option, none,
  some, List, [], ◌∷◌, ◌++◌, arith, str_eq, eq_iff, All, any, keep, get_elem?, ltb, ◌==◌, ==_iff,
  ◌⊎◌,
}
use mathlib.Core.List.{Memᴰ}
use egovframe_launcher.Catalog.{Target, Command, targets, by_id}

-- The ports that the dependency commands of a run chain bind; 0 means none.
abbrev dep_ports : List Command → List ℕ
dep_ports [] = []
dep_ports (c ∷ cs) = c.port ∷ dep_ports cs

abbrev all_ports : List Target → List ℕ
all_ports [] = []
all_ports (t ∷ ts) = t.port ∷ dep_ports t.run ++ all_ports ts

-- The launcher itself, the shared Tomcat, MySQL, Redis, RabbitMQ, and every port of the catalog.
unfoldable pub port_plan : List ℕ
unfolding targets
port_plan = 7070 ∷ 8080 ∷ 3306 ∷ 6379 ∷ 5672 ∷ keep (λ p. ltb 0 p) (all_ports targets)

abbrev absent : ℕ → List ℕ → Bool
absent p ps = not (any (λ q. q == p) ps)

distinct : List ℕ → Bool
distinct [] = true
distinct (p ∷ ps) = absent p ps && distinct ps

absent-ne : (p : ℕ) (ps : List ℕ) (j : ℕ) → absent p ps ≡ true → get_elem? ps j ≢ some p
absent-ne p [] j h = cc
absent-ne p (q ∷ ps) zero h = ground (arith, ==_iff q p)
absent-ne p (q ∷ ps) (suc j) h = absent-ne p ps j (ground arith)

distinct_sound :
    (ps : List ℕ) (i j : ℕ) {p : ℕ}
    → distinct ps ≡ true
    → get_elem? ps i ≡ some p
    → get_elem? ps j ≡ some p
    → i ≡ j
unfolding distinct
distinct_sound [] i j h a b = cc
distinct_sound (q ∷ ps) zero zero h a b = refl
distinct_sound (q ∷ ps) zero (suc j) h a b = ground (arith, absent-ne q ps j)
distinct_sound (q ∷ ps) (suc i) zero h a b = ground (arith, absent-ne q ps i)
distinct_sound (q ∷ ps) (suc i) (suc j) h a b = ap suc (distinct_sound ps i j (ground arith) a b)

port_plan-distinct : distinct port_plan ≡ true
unfolding distinct port_plan
port_plan-distinct = refl

-- No port stands twice in the plan: the launcher, the shared Tomcat, the infrastructure
-- containers, the targets and their dependency services can all run at once.
pub port_plan_injective :
    (i j : ℕ) {p : ℕ} → get_elem? port_plan i ≡ some p → get_elem? port_plan j ≡ some p → i ≡ j
port_plan_injective i j a b = distinct_sound port_plan i j port_plan-distinct a b

All-Memᴰ {ℓ κ} : {A : Type ℓ} (P : A → Type κ) (xs : List A) {x : A} → All P xs → Memᴰ x xs → P x
All-Memᴰ P [] h m = elim m [ ]
All-Memᴰ P (y ∷ ys) h (Memᴰ.head e) = rw e h.0
All-Memᴰ P (y ∷ ys) h (Memᴰ.tail m) = All-Memᴰ P ys h.1 m

abbrev is_cons : List Command → Bool
is_cons [] = false
is_cons (c ∷ cs) = true

abbrev serves : Option Target → Bool
serves none = false
serves (some b) = ltb 0 b.port && is_cons b.run && str_eq b.backend_id ""

-- What the runner takes for granted of an entry: it is served on a port, it has a build step, it
-- is deployed as a WAR exactly if it has no command to run, and a backend that it names is an
-- entry with a port, with commands to run it, and with no backend of its own.
pub record IsRunnable (t : Target) : Type 0 where
  pub served : 0 < t.port
  pub built : t.build ≢ []
  pub war_or_run : (t.deploy_type ≡ "war") ↔ (t.run ≡ [])
  pub backend : (t.backend_id ≡ "") ⊎ (serves (by_id t.backend_id) ≡ true)

is_nil : List Command → Bool
is_nil [] = true
is_nil (c ∷ cs) = false

agree : Bool → Bool → Bool
agree true b = b
agree false b = not b

runnable : Target → Bool
runnable t =
    ltb 0 t.port
    && is_cons t.build
    && agree (str_eq t.deploy_type "war") (is_nil t.run)
    && (str_eq t.backend_id "" || serves (by_id t.backend_id))

runnable-IsRunnable : (t : Target) → runnable t ≡ true → IsRunnable t
unfolding runnable agree is_nil
runnable-IsRunnable t h = record {
  served = ground arith;
  built = ground arith;
  war_or_run = ground (arith, eq_iff t.deploy_type "war");
  backend = ground (arith, eq_iff t.backend_id "");
}

targets-runnable : All (λ t. runnable t ≡ true) targets
unfolding targets runnable agree is_nil by_id
targets-runnable = ground arith

-- Every entry of the catalog has a port and a build step, is deployed as a WAR exactly if it has
-- no command to run, and names as its backend, if any, an entry with a port, with commands to run
-- it, and with no backend of its own.
pub targets-IsRunnable : (t : Target) → Memᴰ t targets → IsRunnable t
targets-IsRunnable t m =
    runnable-IsRunnable t (All-Memᴰ (λ u. runnable u ≡ true) targets targets-runnable m)

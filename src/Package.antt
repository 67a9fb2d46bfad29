-- ===== src/Package.antt =====
-- conduit/__init__.py: what the package imports from its modules, and the names that it exports.
use conduit_client_python.Prelude.{
  ◌≡◌, refl, String, Bool, true, false, Option, none, some, List, [], ◌∷◌, ◌==◌, ◌&&◌,
  if◌then◌else◌,
}

-- An import, with the module that it is from.
pub record Import : Type 0 where
  pub module_name : String
  pub name : String

abbrev pub imports : List Import
imports =
    record { module_name = "conduit._local"; name = "LocalConduit" }
    ∷ record { module_name = "conduit._local"; name = "local" }
    ∷ record { module_name = "conduit.client"; name = "Client" }
    ∷ record { module_name = "conduit.client"; name = "connect" }
    ∷ record { module_name = "conduit.errors"; name = "ConduitError" }
    ∷ record { module_name = "conduit.pipeline"; name = "Pipeline" }
    ∷ record { module_name = "conduit.run"; name = "Run" }
    ∷ record { module_name = "conduit.run"; name = "RunStatus" }
    ∷ []

-- `__version__`
abbrev pub package_version : String
package_version = "0.1.0.dev0"

-- `__all__`
abbrev pub all_names : List String
all_names =
    "Client" ∷ "ConduitError" ∷ "LocalConduit" ∷ "Pipeline" ∷ "Run" ∷ "RunStatus" ∷ "__version__"
    ∷ "connect" ∷ "local" ∷ []

-- What a name of the package stands for: the module that it is from, or the package itself.
unfoldable pub origin : String → List Import → Option String
origin name [] = if name == "__version__" then some "conduit" else none
origin name (i ∷ rest) =
    let later = origin name rest in if name == i.name then some i.module_name else later

is_bound : Option String → Bool
is_bound none = false
is_bound (some m) = true

all_bound : List String → Bool
unfolding is_bound
all_bound [] = true
all_bound (name ∷ rest) = is_bound (origin name imports) && all_bound rest

is_in : String → List String → Bool
is_in name [] = false
is_in name (other ∷ rest) = let later = is_in name rest in if name == other then true else later

all_exported : List Import → Bool
unfolding is_in
all_exported [] = true
all_exported (i ∷ rest) = is_in i.name all_names && all_exported rest

-- `from conduit import *` finds each of its names, and every name that is imported is exported.
exports : (all_bound all_names ≡ true) × (all_exported imports ≡ true)
unfolding all_bound all_exported is_bound is_in origin
exports = (refl, refl)

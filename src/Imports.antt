-- ===== src/Imports.antt =====
-- conduit/_grpc/__init__.py: the directory of the generated code on Python's search path.
use conduit_client_python.Prelude.{String, Bool, true, false, List, [], ◌∷◌, ◌==◌, if◌then◌else◌}

-- `d in sys.path`
unfoldable pub contains : String → List String → Bool
contains d [] = false
contains d (entry ∷ rest) = let later = contains d rest in if entry == d then true else later

-- What an import of the package makes of `sys.path`, with `_STUB_ROOT`.
unfoldable pub add_root : String → List String → List String
add_root root path = if contains root path then path else root ∷ path

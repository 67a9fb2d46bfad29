-- ===== src/Prelude/Dict.antt =====
-- Python's `dict` with text keys, in insertion order.
use Prim.Native.String.{String}
use mathlib.Core.Path.{◌≡◌, refl}
use mathlib.Core.Option.{Option, none, some}
use mathlib.Core.List.{List, [], ◌∷◌}
use native.Mathlib.Omega.{arith}
use text.Mathlib.TextEquality.{eq_iff}
use conduit_client_python.Prelude.Tests.{if◌then◌else◌}
use conduit_client_python.Prelude.Text.{◌==◌}

abbrev pub Dict {ℓ} : Type ℓ → Type ℓ
Dict V = List (String × V)

module _ {ℓ} {V : Type ℓ} where
  -- `d.get(k)`
  unfoldable pub lookup : String → Dict V → Option V
  lookup k [] = none
  lookup k ((j, v) ∷ d) = if j == k then some v else lookup k d

  -- `d[k] = v`: a key that is there keeps its place.
  unfoldable pub insert : String → V → Dict V → Dict V
  insert k v [] = (k, v) ∷ []
  insert k v ((j, w) ∷ d) = if j == k then (j, v) ∷ d else (j, w) ∷ insert k v d

  -- `d.update(e)`
  unfoldable pub update : Dict V → Dict V → Dict V
  update d [] = d
  update d ((k, v) ∷ e) = update (insert k v d) e

  -- The first of two lookups that finds something.
  abbrev pub or_else : Option V → Option V → Option V
  or_else none o = o
  or_else (some v) o = some v

  -- No key stands twice, as in every dict that a program holds.
  abbrev pub NodupKeys : Dict V → Type ℓ
  NodupKeys [] = Unit
  NodupKeys ((k, _) ∷ d) = (lookup k d ≡ none) × NodupKeys d

  pub lookup-insert :
      (j k : String) (v : V) (d : Dict V)
      → lookup j (insert k v d) ≡ (if k == j then some v else lookup j d)
  unfolding lookup insert
  lookup-insert j k v [] = refl
  lookup-insert j k v ((i, w) ∷ d) =
      ground (arith, eq_iff k j, eq_iff i k, eq_iff i j, lookup-insert j k v d)

  pub lookup-update :
      (j : String) (d e : Dict V)
      → NodupKeys e
      → lookup j (update d e) ≡ or_else (lookup j e) (lookup j d)
  unfolding update lookup
  lookup-update j d [] _ = refl
  lookup-update j d ((k, v) ∷ e) (fresh, u) =
      ground (arith, lookup-update j (insert k v d) e u, lookup-insert j k v d, eq_iff k j)

  pub insert-NodupKeys : (k : String) (v : V) (d : Dict V) → NodupKeys d → NodupKeys (insert k v d)
  unfolding insert lookup
  insert-NodupKeys k v [] _ = (refl, tt)
  insert-NodupKeys k v ((j, w) ∷ d) (fresh, u) =
      ground (arith, insert-NodupKeys k v d u, lookup-insert j k v d, eq_iff j k, eq_iff k j)

  pub update-NodupKeys : (d e : Dict V) → NodupKeys d → NodupKeys (update d e)
  unfolding update
  update-NodupKeys d [] u = u
  update-NodupKeys d ((k, v) ∷ e) u = update-NodupKeys (insert k v d) e (insert-NodupKeys k v d u)

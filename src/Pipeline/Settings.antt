-- ===== src/Pipeline/Settings.antt =====
-- What `_settings` sends for a key.
use mathlib.Core.Option
use conduit_client_python.Prelude.{◌≡◌, refl, String, Option, [], ◌∷◌, arith, eq_iff, or_default}
use conduit_client_python.Prelude.Dict.{
  Dict, lookup, insert, update, or_else, NodupKeys, lookup-insert, lookup-update, insert-NodupKeys,
  update-NodupKeys,
}
use conduit_client_python.Pipeline.{Value, render, render_loop, settings}

lookup-render_loop :
    (k : String) (out : Dict String) (merged : Dict Value)
    → NodupKeys merged
    → lookup k (render_loop out merged)
      ≡ or_else (Option.map render (lookup k merged)) (lookup k out)
unfolding render_loop lookup
lookup-render_loop k out [] _ = refl
lookup-render_loop k out ((j, v) ∷ rest) (fresh, u) = ground (
  arith,
  lookup-render_loop k (insert j (render v) out) rest u,
  lookup-insert k j (render v) out,
  eq_iff j k,
)

render_loop-NodupKeys :
    (out : Dict String) (merged : Dict Value) → NodupKeys out → NodupKeys (render_loop out merged)
unfolding render_loop
render_loop-NodupKeys out [] u = u
render_loop-NodupKeys out ((j, v) ∷ rest) u =
    render_loop-NodupKeys (insert j (render v) out) rest (insert-NodupKeys j (render v) out u)

-- With mappings whose keys are distinct, as those of a dict are, the keyword argument of a key
-- decides what is sent for it, else the explicit mapping; a key of neither is not sent, and no key
-- is sent twice.
pub lookup-settings :
    (explicit : Option (Dict Value)) (kwargs : Dict Value) (k : String)
    → NodupKeys (or_default explicit [])
    → NodupKeys kwargs
    → NodupKeys (settings explicit kwargs)
      × (lookup k (settings explicit kwargs)
          ≡ Option.map render (or_else (lookup k kwargs) (lookup k (or_default explicit []))))
unfolding settings lookup
lookup-settings explicit kwargs k u v =
    let given = or_default explicit [] in
    let sent = lookup-render_loop k [] (update given kwargs) (update-NodupKeys given kwargs u) in
    (
      render_loop-NodupKeys [] (update given kwargs) tt,
      ground (arith, sent, lookup-update k given kwargs v),
    )

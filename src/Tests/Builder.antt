-- ===== src/Tests/Builder.antt =====
-- The builder at concrete calls.
use mathlib.Core.Option
use conduit_client_python.Prelude.{◌≡◌, refl, true, false, none, some, [], ◌∷◌, arith}
use conduit_client_python.Prelude.Dict.{Dict, lookup, or_else, NodupKeys}
use conduit_client_python.Prelude.Int.{negsuc}
use conduit_client_python.Errors.{Exception, ok, raised}
use conduit_client_python.Wire.{int32}
use conduit_client_python.Pipeline.{
  Pipeline, Value, bool, object, render, settings, new_pipeline, process, optional,
  processor_request, processor_requests, build_requests,
}
use conduit_client_python.Pipeline.Settings.{lookup-settings}
use conduit_client_python.Pipeline.Builder.{BuilderCall, add_processor, chain, build_requests-chain}
use conduit_client_python.Pipeline.Range.{Decides, IsSendable, build_requests-Decides}
use conduit_client_python.Tests.Data.{orders, orders_plan, orders_pipeline}

build_requests-chain_example : build_requests orders_pipeline ≡ ok orders_plan
unfolding orders_pipeline
build_requests-chain_example = build_requests-chain orders "orders" none "" (omega arith)

abbrev explicit : Dict Value
explicit = ("format.type", object "structured") ∷ ("sdk.batch", bool false) ∷ []

abbrev kwargs : Dict Value
kwargs = ("operations", object "create") ∷ ("sdk.batch", bool true) ∷ []

explicit-NodupKeys : NodupKeys explicit
unfolding lookup
explicit-NodupKeys = (refl, (refl, tt))

kwargs-NodupKeys : NodupKeys kwargs
unfolding lookup
kwargs-NodupKeys = (refl, (refl, tt))

lookup-settings_example :
    NodupKeys (settings (some explicit) kwargs)
    × (lookup "sdk.batch" (settings (some explicit) kwargs)
        ≡ Option.map render (or_else (lookup "sdk.batch" kwargs) (lookup "sdk.batch" explicit)))
lookup-settings_example =
    lookup-settings (some explicit) kwargs "sdk.batch" explicit-NodupKeys kwargs-NodupKeys

abbrev negative : BuilderCall
negative = add_processor (record {
  plugin = "filter";
  condition = "";
  workers = some (negsuc 2147483648);
  settings = none;
  kwargs = [];
})

abbrev negative_pipeline : Pipeline
negative_pipeline = chain (negative ∷ []) (new_pipeline "p" none "")

too_small : build_requests negative_pipeline ≡ raised (Exception.value_error "Value out of range")
unfolding chain new_pipeline process build_requests processor_requests processor_request optional
    int32
too_small = refl

build_requests-Decides_example :
    Decides (build_requests negative_pipeline) (IsSendable negative_pipeline)
build_requests-Decides_example = build_requests-Decides negative_pipeline

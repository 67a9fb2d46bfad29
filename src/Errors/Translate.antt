-- ===== src/Errors/Translate.antt =====
-- What `ConduitError.from_rpc_error` makes of a failure.
use conduit_client_python.Prelude.{
  inl, inr, ◌≡◌, ◌≢◌, refl, String, Option, none, some, List, [], ◌∷◌, ◌++◌, arith, eq_iff, All,
  or_text, ◌==◌, if◌then◌else◌,
}
use conduit_client_python.Errors.{
  ConduitError, new_error, StatusLookup, ErrorInfo, Detail, error_info, undecodable, foreign,
  no_status, has_status, value_error, decode_error, Call, RpcError, Exception, ok, raised,
  code_from_status, grpc_code, message_of, get_text, from_info, find_info, status_details,
  details_of, >>=-eq-raised, from_rpc_error,
}

-- A detail that the search passes over: no `ErrorInfo`, or one of another domain.
abbrev pub IsPassed : Detail → Type 0
IsPassed foreign = Unit
IsPassed (undecodable text) = ⊥
IsPassed (error_info info) = info.domain ≢ "conduit"

-- A detail that protobuf can read.
abbrev pub IsReadable : Detail → Type 0
IsReadable (undecodable text) = ⊥
IsReadable _ = Unit

find_info-append :
    (before after : List Detail) (info : ErrorInfo)
    → All IsPassed before
    → info.domain ≡ "conduit"
    → find_info (before ++ error_info info ∷ after) ≡ ok (some info)
unfolding find_info
find_info-append [] after info passed domain = ground (arith, eq_iff info.domain "conduit")
find_info-append (foreign ∷ before) after info passed domain =
    find_info-append before after info passed.1 domain
find_info-append (undecodable text ∷ before) after info passed domain = absurd passed.0
find_info-append (error_info other ∷ before) after info passed domain =
    ground
      (arith, eq_iff other.domain "conduit", find_info-append before after info passed.1 domain)

pub find_info_passed : (details : List Detail) → All IsPassed details → find_info details ≡ ok none
unfolding find_info
find_info_passed [] passed = refl
find_info_passed (foreign ∷ rest) passed = find_info_passed rest passed.1
find_info_passed (undecodable text ∷ rest) passed = absurd passed.0
find_info_passed (error_info other ∷ rest) passed =
    ground (arith, eq_iff other.domain "conduit", find_info_passed rest passed.1)

find_info_readable :
    (details : List Detail)
    → All IsReadable details
    → (found : Option ErrorInfo) × (find_info details ≡ ok found)
unfolding find_info
find_info_readable [] readable = (none, refl)
find_info_readable (foreign ∷ rest) readable = find_info_readable rest readable.1
find_info_readable (undecodable text ∷ rest) readable = absurd readable.0
find_info_readable (error_info info ∷ rest) readable =
    let (found, e) = find_info_readable rest readable.1 in
    (if info.domain == "conduit" then some info else found, ground (arith, e))

find_info_raised :
    (details : List Detail) {x : Exception}
    → find_info details ≡ raised x
    → (text : String) × (x ≡ Exception.decode_error text)
unfolding find_info
find_info_raised [] h = cc
find_info_raised (foreign ∷ rest) h = find_info_raised rest h
find_info_raised (undecodable text ∷ rest) h = (text, ground arith)
find_info_raised (error_info info ∷ rest) h = find_info_raised rest (ground arith)

-- A failure whose details have a `conduit` ErrorInfo, behind details that are of another type or
-- another domain: its error has the reason of the first such ErrorInfo as its code, or
-- `internal.unknown` if that is empty, and the config path, suggestion and link of its metadata,
-- whatever comes behind it, with the message and the gRPC status of the failure and no pipeline id.
pub from_rpc_error_found :
    (exc : RpcError) (before after : List Detail) (info : ErrorInfo)
    → details_of exc.call ≡ ok (before ++ error_info info ∷ after)
    → All IsPassed before
    → info.domain ≡ "conduit"
    → (e : ConduitError) × (from_rpc_error exc ≡ ok e)
      × (e.message ≡ message_of exc)
      × (e.code ≡ or_text info.reason "internal.unknown")
      × (e.grpc_status_code ≡ grpc_code exc)
      × (e.config_path ≡ get_text "configPath" info.metadata)
      × (e.suggestion ≡ get_text "suggestion" info.metadata)
      × (e.docs_url ≡ get_text "docsUrl" info.metadata)
      × (e.pipeline_id ≡ "")
unfolding from_rpc_error from_info
from_rpc_error_found exc before after info details passed domain = (
  from_info (message_of exc) (grpc_code exc) info,
  rw (details, find_info-append before after info passed domain) refl,
  refl,
  refl,
  refl,
  refl,
  refl,
  refl,
  refl,
)

-- When the status can be read and each detail that says it is an ErrorInfo unpacks, the translation
-- returns an error, with the message and the gRPC status of the failure and no pipeline id.
pub from_rpc_error_returns :
    (exc : RpcError) (details : List Detail)
    → details_of exc.call ≡ ok details
    → All IsReadable details
    → (e : ConduitError) × (from_rpc_error exc ≡ ok e)
      × (e.message ≡ message_of exc)
      × (e.grpc_status_code ≡ grpc_code exc)
      × (e.pipeline_id ≡ "")
unfolding from_rpc_error from_info
from_rpc_error_returns exc details h readable =
    let (found, e) = find_info_readable details readable in
    elim found
        as (λ f.
          find_info details ≡ ok f
          → (e : ConduitError) × (from_rpc_error exc ≡ ok e)
            × (e.message ≡ message_of exc)
            × (e.grpc_status_code ≡ grpc_code exc)
            × (e.pipeline_id ≡ "")) [
              | none ↦ λ e. (
                new_error (message_of exc) (code_from_status (grpc_code exc)) (grpc_code exc),
                rw (h, e) refl,
                refl,
                refl,
                refl,
              )
              | some info ↦ λ e. (
                from_info (message_of exc) (grpc_code exc) info,
                rw (h, e) refl,
                refl,
                refl,
                refl,
              )
            ]
      e

status_details_raised :
    (status : StatusLookup) {x : Exception}
    → status_details status ≡ raised x
    → (text : String) × (x ≡ Exception.decode_error text)
unfolding status_details
status_details_raised no_status h = cc
status_details_raised (has_status details) h = cc
status_details_raised (value_error text) h = cc
status_details_raised (decode_error text) h = (text, ground arith)

details_of_raised :
    (call : Option Call) {x : Exception}
    → details_of call ≡ raised x
    → (text : String) × (x ≡ Exception.decode_error text)
unfolding details_of
details_of_raised none h = cc
details_of_raised (some call) h = status_details_raised call.status h

-- When the translation raises, it raises protobuf's `DecodeError`.
pub from_rpc_error_raised :
    (exc : RpcError) {x : Exception}
    → from_rpc_error exc ≡ raised x
    → (text : String) × (x ≡ Exception.decode_error text)
unfolding from_rpc_error
from_rpc_error_raised exc h = elim (>>=-eq-raised (details_of exc.call) _ h) [
  | inl e ↦ details_of_raised exc.call e
  | inr (details, e, h') ↦ elim (>>=-eq-raised (find_info details) _ h') [
    | inl e' ↦ find_info_raised details e'
    | inr (found, e', h'') ↦ cc
  ]
]

-- ===== src/Errors.antt =====
-- conduit/errors.py: `ConduitError`, its rendering, and the translation of gRPC failures. What the
-- code reads off grpc, grpc_status and protobuf is data: a failure is given with the answers that
-- those libraries' calls return for it.
pub mod Translate
pub mod Fallback
pub mod Render
pub mod RoundTrip
use conduit_client_python.Prelude.{
  ◌≡◌, refl, ◌⊎◌, inl, inr, String, Option, none, some, List, [], ◌∷◌, ◌++◌, ◌<>◌, arith, ◌==◌,
  or_text, or_default, join, if◌then◌else◌,
}
use conduit_client_python.Prelude.Dict.{Dict, lookup}

-- `grpc.StatusCode`
pub data StatusCode : Type 0 where
  ok_status cancelled unknown invalid_argument deadline_exceeded : StatusCode
  not_found already_exists permission_denied resource_exhausted : StatusCode
  failed_precondition aborted out_of_range unimplemented internal : StatusCode
  unavailable data_loss unauthenticated : StatusCode

pub record ConduitError : Type 0 where
  pub message : String
  pub code : String
  pub grpc_status_code : StatusCode
  pub config_path : String
  pub suggestion : String
  pub docs_url : String
  pub pipeline_id : String

-- The constructor with its defaults.
abbrev pub new_error : String → String → StatusCode → ConduitError
new_error message code grpc_status_code = record {
  message = message;
  code = code;
  grpc_status_code = grpc_status_code;
  config_path = "";
  suggestion = "";
  docs_url = "";
  pipeline_id = "";
}

-- An error of this client's own, `ConduitError(message, code=code)`.
abbrev pub client_error : String → String → ConduitError
client_error message code = new_error message code unknown

-- `google.rpc.ErrorInfo`
pub record ErrorInfo : Type 0 where
  pub reason : String
  pub domain : String
  pub metadata : Dict String

-- An `Any` of a status: an `ErrorInfo`, a value that says it is one and does not unpack
-- (protobuf's `DecodeError`), or a value of another type.
pub data Detail : Type 0 where
  error_info : ErrorInfo → Detail
  undecodable : String → Detail
  foreign : Detail

-- What `rpc_status.from_call` does with a call: it returns `None` or the details of a status, or
-- raises a `ValueError` or protobuf's `DecodeError`.
pub data StatusLookup : Type 0 where
  no_status : StatusLookup
  has_status : List Detail → StatusLookup
  value_error decode_error : String → StatusLookup

-- The answers of a failure that is also a `grpc.Call`.
pub record Call : Type 0 where
  pub code : StatusCode
  pub details : Option String
  pub status : StatusLookup

-- `grpc.RpcError`: its `str`, and the call that it is, if it is one.
pub record RpcError : Type 0 where
  pub text : String
  pub call : Option Call

-- The exceptions that the program meets, by the classes that its handlers tell apart.
pub data Exception : Type 0 where
  conduit : ConduitError → Exception
  rpc : RpcError → Exception
  os_error value_error decode_error other_error : String → Exception
  timeout_expired : Exception
  -- `KeyboardInterrupt`, which is no `Exception` to Python
  interrupt : Exception

-- What a call ends with: its value, or an exception.
pub data Outcome {ℓ} (Value : Type ℓ) : Type ℓ where
  ok : Value → Outcome Value
  raised : Exception → Outcome Value

module _ {ℓ} {Value : Type ℓ} where
  pub Outcome-cases :
      (end : Outcome Value)
      → ((value : Value) × (end ≡ ok value)) ⊎ ((x : Exception) × (end ≡ raised x))
  Outcome-cases (ok value) = inl (value, refl)
  Outcome-cases (raised x) = inr (x, refl)

  pub ok≢raised :
      {value : Value} {x : Exception} → ◌≡◌ {A = Outcome Value} (ok value) (raised x) → ⊥
  ok≢raised same = cc

module _ {ℓ κ} {Value : Type ℓ} {Next : Type κ} where
  -- Two calls, the second on what the first returned.
  infixl 5 ◌>>=◌
  abbrev pub ◌>>=◌ : Outcome Value → (Value → Outcome Next) → Outcome Next
  raised x >>= next = raised x
  ok value >>= next = next value

  -- Both calls have returned, if they have together.
  pub >>=-eq-ok :
      (first : Outcome Value) (next : Value → Outcome Next) {result : Next}
      → ◌≡◌ {A = Outcome Next} (first >>= next) (ok result)
      → (value : Value) × (first ≡ ok value) × (next value ≡ ok result)
  >>=-eq-ok (raised x) next together = cc
  >>=-eq-ok (ok value) next together = (value, refl, together)

  -- One of them has raised, if they have together.
  pub >>=-eq-raised :
      (first : Outcome Value) (next : Value → Outcome Next) {x : Exception}
      → ◌≡◌ {A = Outcome Next} (first >>= next) (raised x)
      → (first ≡ raised x) ⊎ ((value : Value) × (first ≡ ok value) × (next value ≡ raised x))
  >>=-eq-raised (raised y) next together = inl (ground arith)
  >>=-eq-raised (ok value) next together = inr (value, refl, together)

unfoldable pub code_from_status : StatusCode → String
code_from_status unavailable = "transport.unavailable"
code_from_status deadline_exceeded = "transport.deadline_exceeded"
code_from_status cancelled = "transport.cancelled"
code_from_status not_found = "common.not_found"
code_from_status invalid_argument = "common.invalid_argument"
code_from_status already_exists = "common.already_exists"
code_from_status failed_precondition = "common.failed_precondition"
code_from_status _ = "internal.unknown"

-- `exc.code() if isinstance(exc, grpc.Call) else UNKNOWN`
unfoldable pub grpc_code : RpcError → StatusCode
grpc_code exc = elim (exc.call) [ none ↦ unknown | some call ↦ call.code ]

-- The message: the call's details if there are any, else the `str` of the failure.
unfoldable pub message_of : RpcError → String
message_of exc = elim (exc.call) [
  | none ↦ or_text exc.text exc.text
  | some call ↦ or_text (or_default call.details "") exc.text
]

-- `md.get(key, "")`
abbrev pub get_text : String → Dict String → String
get_text key md = or_default (lookup key md) ""

-- The error of a `conduit` detail.
unfoldable pub from_info : String → StatusCode → ErrorInfo → ConduitError
from_info message code info = record {
  message = message;
  code = or_text info.reason "internal.unknown";
  grpc_status_code = code;
  config_path = get_text "configPath" info.metadata;
  suggestion = get_text "suggestion" info.metadata;
  docs_url = get_text "docsUrl" info.metadata;
  pipeline_id = "";
}

-- The loop over the details: the first `ErrorInfo` of domain `conduit`, if there is one.
unfoldable pub find_info : List Detail → Outcome (Option ErrorInfo)
find_info [] = ok none
find_info (foreign ∷ rest) = find_info rest
find_info (undecodable text ∷ rest) = raised (Exception.decode_error text)
find_info (error_info info ∷ rest) =
    let later = find_info rest in if info.domain == "conduit" then ok (some info) else later

-- `rpc_status.from_call` under its `except ValueError`.
unfoldable pub status_details : StatusLookup → Outcome (List Detail)
status_details no_status = ok []
status_details (has_status details) = ok details
status_details (value_error text) = ok []
status_details (decode_error text) = raised (Exception.decode_error text)

-- A failure that is no call has no status.
unfoldable pub details_of : Option Call → Outcome (List Detail)
unfolding status_details
details_of none = ok []
details_of (some call) = status_details call.status

unfoldable pub from_rpc_error : RpcError → Outcome ConduitError
from_rpc_error exc =
    let code = grpc_code exc in
    let message = message_of exc in
    do
      details ← details_of exc.call
      found ← find_info details
      ok (elim found [
        | some info ↦ from_info message code info
        | none ↦ new_error message (code_from_status code) code
      ])

-- A line of `__str__`, for a field that is not empty.
unfoldable pub field_line : String → String → List String
field_line label text = if text == "" then [] else (label <> text) ∷ []

unfoldable pub lines_of : ConduitError → List String
unfolding field_line
lines_of e =
    ("[" <> e.code <> "] " <> e.message)
    ∷ (field_line "  config path: " e.config_path
        ++ (field_line "  suggestion: " e.suggestion
            ++ (field_line "  docs: " e.docs_url
                ++ field_line "  pipeline id (already created): " e.pipeline_id)))

-- `ConduitError.__str__`
unfoldable pub to_string : ConduitError → String
unfolding lines_of
to_string e = join "\n" (lines_of e)

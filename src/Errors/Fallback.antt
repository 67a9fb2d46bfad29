-- ===== src/Errors/Fallback.antt =====
-- What `ConduitError.from_rpc_error` makes of a failure without a detail of Conduit.
use conduit_client_python.Prelude.{
  arith, ap, ◌∙◌, ◌≡◌, ◌≢◌, refl, inl, inr, Bool-cases, String, Option, none, some, List, [], ◌∷◌,
  All, or_text, or_default, ◌==◌, eq_iff,
}
use conduit_client_python.Errors.{
  ConduitError, new_error, StatusCode, cancelled, unknown, invalid_argument, deadline_exceeded,
  not_found, already_exists, failed_precondition, unavailable, Detail, Call, RpcError, ok,
  code_from_status, grpc_code, message_of, details_of, from_rpc_error,
}
use conduit_client_python.Errors.Translate.{IsPassed, find_info_passed}

-- The statuses that have a code of their own.
abbrev pub listed : List StatusCode
listed =
    unavailable ∷ deadline_exceeded ∷ cancelled ∷ not_found ∷ invalid_argument ∷ already_exists
    ∷ failed_precondition ∷ []

-- The code that stands for a status.
pub data CodeOf : StatusCode → String → Type 0 where
  of_unavailable : CodeOf unavailable "transport.unavailable"
  of_deadline_exceeded : CodeOf deadline_exceeded "transport.deadline_exceeded"
  of_cancelled : CodeOf cancelled "transport.cancelled"
  of_not_found : CodeOf not_found "common.not_found"
  of_invalid_argument : CodeOf invalid_argument "common.invalid_argument"
  of_already_exists : CodeOf already_exists "common.already_exists"
  of_failed_precondition : CodeOf failed_precondition "common.failed_precondition"
  of_other : {c : StatusCode} → All (λ k. c ≢ k) listed → CodeOf c "internal.unknown"

-- The status of a failure: that of the call that it is, if it is one.
pub data StatusOf : Option Call → StatusCode → Type 0 where
  no_call : StatusOf none unknown
  of_call : (call : Call) → StatusOf (some call) call.code

-- The message of a failure with a text: the details of its call, or that text if there are none.
pub data MessageOf (text : String) : Option Call → String → Type 0 where
  text_alone : MessageOf text none text
  without_details : {call : Call} → call.details ≡ none → MessageOf text (some call) text
  with_empty_details : {call : Call} → call.details ≡ some "" → MessageOf text (some call) text
  with_details :
      {call : Call} (details : String)
      → call.details ≡ some details
      → details ≢ ""
      → MessageOf text (some call) details

code_from_status-CodeOf : (c : StatusCode) → CodeOf c (code_from_status c)
unfolding code_from_status
code_from_status-CodeOf unavailable = of_unavailable
code_from_status-CodeOf deadline_exceeded = of_deadline_exceeded
code_from_status-CodeOf cancelled = of_cancelled
code_from_status-CodeOf not_found = of_not_found
code_from_status-CodeOf invalid_argument = of_invalid_argument
code_from_status-CodeOf already_exists = of_already_exists
code_from_status-CodeOf failed_precondition = of_failed_precondition
code_from_status-CodeOf c = of_other (
  (λ e. cc e),
  ((λ e. cc e), ((λ e. cc e), ((λ e. cc e), ((λ e. cc e), ((λ e. cc e), ((λ e. cc e), tt)))))),
)

grpc_code-StatusOf :
    (text : String) (call : Option Call)
    → StatusOf call (grpc_code (record { text = text; call = call }))
unfolding grpc_code
grpc_code-StatusOf text none = no_call
grpc_code-StatusOf text (some call) = of_call call

abbrev shown : Option String → String → String
shown details text = or_text (or_default details "") text

shown-MessageOf :
    (call : Call) (text : String) (details : Option String)
    → call.details ≡ details
    → MessageOf text (some call) (shown details text)
shown-MessageOf call text none h = without_details h
shown-MessageOf call text (some details) h = elim (Bool-cases (details == "")) [
  | inl empty ↦
      let same : details ≡ "" = ground (arith, eq_iff details "", empty) in
      rw empty (with_empty_details (h ∙ ap some same))
  | inr full ↦
      let other : details ≢ "" = λ e. ground (arith, eq_iff details "", full, e) in
      rw full (with_details details h other)
]

message_of-MessageOf :
    (text : String) (call : Option Call)
    → MessageOf text call (message_of (record { text = text; call = call }))
unfolding message_of
message_of-MessageOf text none = elim (Bool-cases (text == "")) [
  | inl empty ↦ rw empty text_alone
  | inr full ↦ rw full text_alone
]
message_of-MessageOf text (some call) = shown-MessageOf call text call.details refl

-- A failure whose details, if it has any, are all of another type or another domain: its error has
-- the status of the call that the failure is, and `UNKNOWN` if it is none; the code that stands for
-- this status, one for each of seven statuses and `internal.unknown` for the others; as its message
-- the details of the call, or if they are missing or empty the text of the failure; and no config
-- path, suggestion, link or pipeline id.
pub from_rpc_error_fallback :
    (exc : RpcError) (details : List Detail)
    → details_of exc.call ≡ ok details
    → All IsPassed details
    → (e : ConduitError) × (from_rpc_error exc ≡ ok e)
      × StatusOf exc.call e.grpc_status_code
      × CodeOf e.grpc_status_code e.code
      × MessageOf exc.text exc.call e.message
      × (e.config_path ≡ "")
      × (e.suggestion ≡ "")
      × (e.docs_url ≡ "")
      × (e.pipeline_id ≡ "")
unfolding from_rpc_error
from_rpc_error_fallback exc details h passed = (
  new_error (message_of exc) (code_from_status (grpc_code exc)) (grpc_code exc),
  rw (h, find_info_passed details passed) refl,
  grpc_code-StatusOf exc.text exc.call,
  code_from_status-CodeOf (grpc_code exc),
  message_of-MessageOf exc.text exc.call,
  refl,
  refl,
  refl,
  refl,
)

-- ===== src/Run/Status.antt =====
-- What `Run.status` tells of the numbers in the response.
use conduit_client_python.Prelude.{
  zero, suc, ◌≡◌, refl, String, Option, none, some, arith, lower, after_prefix,
}
use conduit_client_python.Prelude.Int.{ℤ, pos, negsuc}
use conduit_client_python.Errors.{Exception, Outcome, ok, raised}
use conduit_client_python.Wire.{PipelineState}
use conduit_client_python.Run.{
  strip_enum_prefix, status_name, stopped_reason_name, status_prefix, stopped_reason_prefix,
  RunStatus, run_status,
}

-- The five statuses that `RunStatus` documents, by their numbers in the API.
abbrev pub documented_status : ℤ → Option String
documented_status (pos zero) = some "unspecified"
documented_status (pos (suc zero)) = some "running"
documented_status (pos (suc (suc zero))) = some "stopped"
documented_status (pos (suc (suc (suc zero)))) = some "degraded"
documented_status (pos (suc (suc (suc (suc zero))))) = some "recovering"
documented_status (pos (suc (suc (suc (suc (suc n)))))) = none
documented_status (negsuc n) = none

-- The three reasons.
abbrev pub documented_reason : ℤ → Option String
documented_reason (pos zero) = some "unspecified"
documented_reason (pos (suc zero)) = some "user"
documented_reason (pos (suc (suc zero))) = some "system"
documented_reason (pos (suc (suc (suc n)))) = none
documented_reason (negsuc n) = none

-- The name of a number, stripped and lowered, or the `ValueError` of a number that has none.
abbrev Shown : (ℤ → Outcome String) → String → ℤ → Option String → Type 0
Shown name prefix n none = (text : String) × (name n ≡ raised (Exception.value_error text))
Shown name prefix n (some s) =
    (full : String) × (name n ≡ ok full) × (strip_enum_prefix full prefix ≡ s)

status_name-Shown : (n : ℤ) → Shown status_name status_prefix n (documented_status n)
unfolding status_name strip_enum_prefix lower after_prefix
status_name-Shown (pos zero) = ("STATUS_UNSPECIFIED", refl, refl)
status_name-Shown (pos (suc zero)) = ("STATUS_RUNNING", refl, refl)
status_name-Shown (pos (suc (suc zero))) = ("STATUS_STOPPED", refl, refl)
status_name-Shown (pos (suc (suc (suc zero)))) = ("STATUS_DEGRADED", refl, refl)
status_name-Shown (pos (suc (suc (suc (suc zero))))) = ("STATUS_RECOVERING", refl, refl)
status_name-Shown (pos (suc (suc (suc (suc (suc n)))))) =
    ("Enum Status has no name defined for value", ground arith)
status_name-Shown (negsuc n) = ("Enum Status has no name defined for value", refl)

stopped_reason_name-Shown :
    (n : ℤ) → Shown stopped_reason_name stopped_reason_prefix n (documented_reason n)
unfolding stopped_reason_name strip_enum_prefix lower after_prefix
stopped_reason_name-Shown (pos zero) = ("STOPPED_REASON_UNSPECIFIED", refl, refl)
stopped_reason_name-Shown (pos (suc zero)) = ("STOPPED_REASON_USER", refl, refl)
stopped_reason_name-Shown (pos (suc (suc zero))) = ("STOPPED_REASON_SYSTEM", refl, refl)
stopped_reason_name-Shown (pos (suc (suc (suc n)))) =
    ("Enum StoppedReason has no name defined for value", ground arith)
stopped_reason_name-Shown (negsuc n) = ("Enum StoppedReason has no name defined for value", refl)

-- The status of a state, from its documented texts; a number without one is an error.
abbrev pub expected : String → Option String → Option String → Option RunStatus
expected error (some s) (some r) = some (record { status = s; error = error; stopped_reason = r })
expected error _ _ = none

-- The result is the expected status, or a `ValueError` where none is expected.
abbrev pub Agrees : Outcome RunStatus → Option RunStatus → Type 0
Agrees result (some s) = result ≡ ok s
Agrees result none = (text : String) × (result ≡ raised (Exception.value_error text))

run_status_of :
    (state : PipelineState) (s r : Option String)
    → Shown status_name status_prefix state.status s
    → Shown stopped_reason_name stopped_reason_prefix state.stopped_reason r
    → Agrees (run_status state) (expected state.error s r)
unfolding run_status
run_status_of state (some s) (some r) (a, ha, ea) (b, hb, eb) = rw (ha, hb, ea, eb) refl
run_status_of state (some s) none (a, ha, ea) (text, hb) = (text, rw (ha, hb) refl)
run_status_of state none r (text, ha) hb = (text, rw ha refl)

-- A status is the documented text for the number of the state, its reason likewise, and its error
-- that of the state, as it came. A number with no documented text, as a newer engine may send, or a
-- negative one, raises a `ValueError`, which is no `ConduitError`.
pub run_status-Agrees :
    (state : PipelineState)
    → Agrees (run_status state) (
        expected state.error
          (documented_status state.status)
          (documented_reason state.stopped_reason))
run_status-Agrees state =
    run_status_of state (documented_status state.status) (documented_reason state.stopped_reason)
      (status_name-Shown state.status) (stopped_reason_name-Shown state.stopped_reason)

-- ===== src/Pipeline/Builder.antt =====
-- The payloads of a pipeline that a chain of builder calls has made.
use mathlib.Core.List.{append-nil, append_assoc}
use conduit_client_python.Prelude.{
  ◌≡◌, refl, ◌∙◌, sym, ap, String, Option, none, some, List, [], ◌∷◌, ◌++◌, arith, or_text,
  or_default, All,
}
use conduit_client_python.Prelude.Int.{ℤ, pos, negsuc, InInt32, InUint64}
use conduit_client_python.Errors.{>>=-eq-ok, Outcome, ok}
use conduit_client_python.Wire.{
  type_source, type_destination, parent_unspecified, CreateConnectorRequest, CreateProcessorRequest,
  UpdateDlqRequest, int32, uint64,
}
use conduit_client_python.Pipeline.{
  settings, ConnectorSpec, ProcessorSpec, Pipeline, new_pipeline, ConnectorArgs, ProcessorArgs,
  DlqArgs, source, destination, process, dlq, connector_request, optional, processor_request,
  processor_requests, dlq_request, connector_requests, build_requests,
}

-- One call on the builder.
pub data BuilderCall : Type 0 where
  add_source add_destination : ConnectorArgs → BuilderCall
  add_processor : ProcessorArgs → BuilderCall
  set_dlq : DlqArgs → BuilderCall

-- A chain of calls, first to last.
unfoldable pub chain : List BuilderCall → Pipeline → Pipeline
chain [] p = p
chain (add_source a ∷ rest) p = chain rest (source a p)
chain (add_destination a ∷ rest) p = chain rest (destination a p)
chain (add_processor a ∷ rest) p = chain rest (process a p)
chain (set_dlq a ∷ rest) p = chain rest (dlq a p)

-- The numbers of a call fit their fields.
abbrev pub IsInRange : BuilderCall → Type 0
IsInRange (add_processor a) = InInt32 (or_default a.workers (pos 0))
IsInRange (set_dlq a) =
    InUint64 (or_default a.window_size (pos 1))
    × InUint64 (or_default a.window_nack_threshold (pos 0))
IsInRange _ = Unit

-- The requests that a chain asks for, written from the arguments of its calls.
abbrev pub expected_connectors : List BuilderCall → List CreateConnectorRequest
expected_connectors [] = []
expected_connectors (add_source a ∷ rest) =
    record {
      type = type_source;
      plugin = a.plugin;
      pipeline_id = "";
      config = record { name = or_text a.name a.plugin; settings = settings a.settings a.kwargs };
    }
    ∷ expected_connectors rest
expected_connectors (add_destination a ∷ rest) =
    record {
      type = type_destination;
      plugin = a.plugin;
      pipeline_id = "";
      config = record { name = or_text a.name a.plugin; settings = settings a.settings a.kwargs };
    }
    ∷ expected_connectors rest
expected_connectors (_ ∷ rest) = expected_connectors rest

abbrev pub expected_processors : List BuilderCall → List CreateProcessorRequest
expected_processors [] = []
expected_processors (add_processor a ∷ rest) =
    record {
      plugin = a.plugin;
      parent = record { type = parent_unspecified; id = "" };
      config = record {
        settings = settings a.settings a.kwargs;
        workers = or_default a.workers (pos 0);
      };
      condition = a.condition;
    }
    ∷ expected_processors rest
expected_processors (_ ∷ rest) = expected_processors rest

-- The last `dlq` call counts. A window that it does not give is the engine's default.
abbrev pub expected_dlq : List BuilderCall → Option UpdateDlqRequest → Option UpdateDlqRequest
expected_dlq [] found = found
expected_dlq (set_dlq a ∷ rest) found = expected_dlq rest (
    some (record {
      id = "";
      dlq = record {
        plugin = a.plugin;
        settings = settings a.settings a.kwargs;
        window_size = or_default a.window_size (pos 1);
        window_nack_threshold = or_default a.window_nack_threshold (pos 0);
      };
    }))
expected_dlq (_ ∷ rest) found = expected_dlq rest found

int32_in_range : (n : ℤ) → InInt32 n → int32 n ≡ ok n
unfolding int32
int32_in_range (pos n) h = ground arith
int32_in_range (negsuc n) h = ground arith

uint64_in_range : (n : ℤ) → InUint64 n → uint64 n ≡ ok n
unfolding uint64
uint64_in_range (pos n) h = ground arith
uint64_in_range (negsuc n) h = absurd h

optional_in_range :
    (field : ℤ → Outcome ℤ) (n : Option ℤ)
    → field (or_default n (pos 0)) ≡ ok (or_default n (pos 0))
    → optional field n ≡ ok (or_default n (pos 0))
unfolding optional
optional_in_range field none h = refl
optional_in_range field (some n) h = h

connector_requests-append :
    (cs : List ConnectorSpec) (c : ConnectorSpec)
    → connector_requests (cs ++ c ∷ []) ≡ connector_requests cs ++ connector_request c ∷ []
unfolding connector_requests
connector_requests-append [] c = refl
connector_requests-append (d ∷ cs) c =
    ap (λ r. connector_request d ∷ r) (connector_requests-append cs c)

processor_requests-append :
    (ps : List ProcessorSpec) (p : ProcessorSpec) {rs : List CreateProcessorRequest}
    {r : CreateProcessorRequest}
    → processor_requests ps ≡ ok rs
    → processor_request p ≡ ok r
    → processor_requests (ps ++ p ∷ []) ≡ ok (rs ++ r ∷ [])
unfolding processor_requests
processor_requests-append [] p h k = ground arith
processor_requests-append (q ∷ ps) p {rs} {r} h k =
    let (first, e, h') = >>=-eq-ok (processor_request q) _ h in
    let (later, e', h'') = >>=-eq-ok (processor_requests ps) _ h' in
    rw (e, processor_requests-append ps p e' k) (ground arith)

pub connectors-chain :
    (calls : List BuilderCall) (p : Pipeline)
    → connector_requests (chain calls p).connectors
      ≡ connector_requests p.connectors ++ expected_connectors calls
unfolding chain source destination process dlq connector_request
connectors-chain [] p = sym (append-nil _)
connectors-chain (add_source a ∷ rest) p =
    connectors-chain rest (source a p) ∙ rw (connector_requests-append, append_assoc) refl
connectors-chain (add_destination a ∷ rest) p =
    connectors-chain rest (destination a p) ∙ rw (connector_requests-append, append_assoc) refl
connectors-chain (add_processor a ∷ rest) p = connectors-chain rest (process a p)
connectors-chain (set_dlq a ∷ rest) p = connectors-chain rest (dlq a p)

processor_request_in_range :
    (a : ProcessorArgs) (p : Pipeline) {rs : List CreateProcessorRequest}
    → InInt32 (or_default a.workers (pos 0))
    → processor_requests p.processors ≡ ok rs
    → processor_requests (process a p).processors
      ≡ ok (rs ++ expected_processors (add_processor a ∷ []))
unfolding process processor_request
processor_request_in_range a p fits h =
    processor_requests-append p.processors _ h
      (rw (optional_in_range int32 a.workers (int32_in_range _ fits)) refl)

pub processors-chain :
    (calls : List BuilderCall) (p : Pipeline) {rs : List CreateProcessorRequest}
    → All IsInRange calls
    → processor_requests p.processors ≡ ok rs
    → processor_requests (chain calls p).processors ≡ ok (rs ++ expected_processors calls)
unfolding chain source destination dlq
processors-chain [] p fits h = rw append-nil h
processors-chain (add_source a ∷ rest) p fits h = processors-chain rest (source a p) fits.1 h
processors-chain (add_destination a ∷ rest) p fits h =
    processors-chain rest (destination a p) fits.1 h
processors-chain (add_processor a ∷ rest) p fits h =
    processors-chain rest (process a p) fits.1 (processor_request_in_range a p fits.0 h)
    ∙ rw append_assoc refl
processors-chain (set_dlq a ∷ rest) p fits h = processors-chain rest (dlq a p) fits.1 h

dlq_request_in_range :
    (a : DlqArgs) (p : Pipeline)
    → IsInRange (set_dlq a)
    → dlq_request (dlq a p).dlq ≡ ok (expected_dlq (set_dlq a ∷ []) none)
unfolding dlq dlq_request optional
dlq_request_in_range a p fits = rw (uint64_in_range _ fits.0, uint64_in_range _ fits.1) refl

pub dlq-chain :
    (calls : List BuilderCall) (p : Pipeline) {found : Option UpdateDlqRequest}
    → All IsInRange calls
    → dlq_request p.dlq ≡ ok found
    → dlq_request (chain calls p).dlq ≡ ok (expected_dlq calls found)
unfolding chain source destination process
dlq-chain [] p fits h = h
dlq-chain (add_source a ∷ rest) p fits h = dlq-chain rest (source a p) fits.1 h
dlq-chain (add_destination a ∷ rest) p fits h = dlq-chain rest (destination a p) fits.1 h
dlq-chain (add_processor a ∷ rest) p fits h = dlq-chain rest (process a p) fits.1 h
dlq-chain (set_dlq a ∷ rest) p fits h =
    dlq-chain rest (dlq a p) fits.1 (dlq_request_in_range a p fits.0)

name-chain :
    (calls : List BuilderCall) (p : Pipeline)
    → ((chain calls p).name ≡ p.name) × ((chain calls p).description ≡ p.description)
unfolding chain source destination process dlq
name-chain [] p = (refl, refl)
name-chain (add_source a ∷ rest) p = name-chain rest (source a p)
name-chain (add_destination a ∷ rest) p = name-chain rest (destination a p)
name-chain (add_processor a ∷ rest) p = name-chain rest (process a p)
name-chain (set_dlq a ∷ rest) p = name-chain rest (dlq a p)

-- A chain of builder calls whose numbers fit their fields builds a plan, and exactly the requests
-- that its calls ask for: the connectors and the processors in the order of their calls, the dead
-- letter queue of the last `dlq` call, with a window of 1 and a threshold of 0 where it gives none,
-- and the name, which is the id if no name is given. No request has a pipeline id yet.
pub build_requests-chain :
    (calls : List BuilderCall) (id : String) (name : Option String) (description : String)
    → All IsInRange calls
    → build_requests (chain calls (new_pipeline id name description))
      ≡ ok (record {
        create_pipeline = record {
          config = record { name = or_default name id; description = description };
        };
        create_connectors = expected_connectors calls;
        create_processors = expected_processors calls;
        dlq = expected_dlq calls none;
      })
unfolding build_requests new_pipeline connector_requests processor_requests dlq_request
build_requests-chain calls id name description fits =
    let p = new_pipeline id name description in
    rw
      (
        processors-chain calls p {rs = []} fits refl,
        dlq-chain calls p {found = none} fits refl,
        connectors-chain calls p,
        (name-chain calls p).0,
        (name-chain calls p).1,
      )
      refl

-- ===== src/Tests/Quickstart.antt =====
-- The example on a host whose engine takes half a second to listen, and its pipeline half a second to
-- run.
use conduit_client_python.Prelude.{
  Bool, ◌==◌, String, ◌∷◌, ℕ, ◌+◌, ◌≤◌, ◌≡◌, refl, inl, inr, Bool-cases, true, false, none, some,
  [], arith, ltb, ltb→lt, if◌then◌else◌,
}
use conduit_client_python.Errors.{timeout_expired, Outcome, ok, raised, rpc}
use conduit_client_python.Wire.{
  CreateConnectorRequest, type_source, type_destination, Request, Response, PipelineMessage,
  get_info, get_pipeline, create_pipeline, create_connector, create_processor, update_dlq,
  start_pipeline, stop_pipeline,
}
use conduit_client_python.Pipeline.{BuildPlan, settings}
use conduit_client_python.Client.{Engine, Run}
use conduit_client_python.Run.{RunStatus}
use conduit_client_python.Process.{Machine, Supervised}
use conduit_client_python.Local.Launch.{announce, spawn_engine, state_directory}
use conduit_client_python.Quickstart.{quickstart_args}
use conduit_client_python.Tests.Starts.{refused, version}
use conduit_client_python.Tests.Network.{host_of, empty_host, no_faults}
use conduit_client_python.Tests.Data.{missing}
use conduit_client_python.Prelude.Int.{pos}

-- How far the one pipeline of the engine is.
data Phase : Type 0 where
  unmade made going halted : Phase

-- The time, whether there is a process, and its pipeline.
record Box : Type 0 where
  now : ℕ
  lives : Bool
  phase : Phase

abbrev report : ℕ → Phase → PipelineMessage
report now going = record {
  id = "pipeline-1";
  state = record {
    status = if ltb now 1000 then pos 2 else pos 1;
    error = "";
    stopped_reason = pos 0;
  };
}
report now _ = record {
  id = "pipeline-1";
  state = record { status = pos 2; error = ""; stopped_reason = pos 0 };
}

-- What the engine does for the id of its pipeline; it knows no other.
abbrev known : {A : Type 0} → String → Outcome A × Phase → Phase → Outcome A × Phase
known id answer p = if id == "pipeline-1" then answer else (raised (rpc missing), p)

-- The engine creates one pipeline, accepts what belongs to it until it is started, and stops it.
abbrev serve : (r : Request) → ℕ → Phase → Outcome (Response r) × Phase
serve get_info now p = (ok version, p)
serve (create_pipeline r) now unmade = (ok (report now made), made)
serve (create_connector r) now made = known r.pipeline_id (ok tt, made) made
serve (create_processor r) now made = known r.parent.id (ok tt, made) made
serve (update_dlq r) now made = known r.id (ok tt, made) made
serve (start_pipeline id) now made = known id (ok tt, going) made
serve (stop_pipeline id force) now going = known id (ok tt, halted) going
serve (get_pipeline id) now made = known id (ok (report now made), made) made
serve (get_pipeline id) now going = known id (ok (report now going), going) going
serve (get_pipeline id) now halted = known id (ok (report now halted), halted) halted
serve r now p = (raised (rpc missing), p)

abbrev slow_reply : (r : Request) → ℕ → Phase → Outcome (Response r) × Phase
slow_reply r now p = if ltb now 500 then (raised (rpc refused), p) else serve r now p

abbrev slow : Engine
slow = record {
  State = Box;
  answer = λ r t s.
      let (answer, p) = slow_reply r s.now s.phase in
      (answer, record s { now = s.now + 1; phase = p });
  close_channel = λ s. s;
  monotonic = λ s. (s.now, s);
  sleep = λ d s. (false, record s { now = s.now + d });
}

abbrev slow_host : Machine
slow_host = record {
  engine = slow;
  surroundings = host_of "Linux";
  faults = no_faults;
  cwd = "/work";
  make_dir = λ path s. (ok tt, s);
  assign_port = λ s. (ok 8000, s);
  open_log = λ path s. (ok tt, s);
  close_log = λ s. (ok tt, s);
  read_log = λ s. some (0, []);
  spawn = λ argv s. (ok tt, record s { lives = true });
  poll = λ s. (if s.lives then none else some (pos 137), s);
  terminate = λ s. (ok tt, s);
  kill = λ s. (ok tt, record s { lives = false });
  wait = λ d s. (if s.lives then raised timeout_expired else ok tt, record s { now = s.now + d });
  decode_replace = λ bytes. "";
  show_port = λ n. "8000";
  show_code = λ n. "137";
  seconds = λ n. "30.0";
}

-- A process that has created no pipeline yet, the same with its API, and the one pipeline of the
-- engine, when it has been created and when it has been started.
abbrev Live : Box → Type 0
Live s = (s.lives ≡ true) × (s.phase ≡ unmade)

abbrev Up : Box → Type 0
Up s = (500 ≤ s.now) × (s.phase ≡ unmade)

abbrev Created : String → Box → Type 0
Created id s = (id ≡ "pipeline-1") × (500 ≤ s.now) × (s.phase ≡ made)

abbrev Started : String → Box → Type 0
Started id s = (id ≡ "pipeline-1") × (500 ≤ s.now) × (s.phase ≡ going)

listens : (r : Request) (now : ℕ) (p : Phase) → 500 ≤ now → slow_reply r now p ≡ serve r now p
listens r now p up = elim (Bool-cases (ltb now 500)) [
  | inl early ↦ let soon = ltb→lt now 500 early in absurd (omega arith)
  | inr late ↦ rw late refl
]

abbrev named : String → RunStatus
named name = record { status = name; error = ""; stopped_reason = "unspecified" }

abbrev generator : CreateConnectorRequest
generator = record {
  type = type_source;
  plugin = "generator";
  pipeline_id = "";
  config = record {
    name = "generator";
    settings = ("format.type", "structured") ∷ ("operations", "create") ∷ [];
  };
}

abbrev log : CreateConnectorRequest
log = record {
  type = type_destination;
  plugin = "log";
  pipeline_id = "";
  config = record { name = "log"; settings = ("level", "info") ∷ [] };
}

abbrev orders_sync_plan : BuildPlan
orders_sync_plan = record {
  create_pipeline = record { config = record { name = "orders-sync"; description = "" } };
  create_connectors = generator ∷ log ∷ [];
  create_processors = [];
  dlq = none;
}

stops :
    (id : String) (s : Box)
    → Started id s
    → (slow.answer (stop_pipeline id false) 10000 s).0 ≡ ok tt
stops id s (same, up, goes) =
    rw (listens (stop_pipeline id false) s.now s.phase up, goes, same) refl

abbrev alive : Box → Bool
alive s = s.lives

abbrev idle : Supervised Box
idle = record {
  system = record { now = 0; lives = false; phase = unmade };
  host = empty_host;
  stopped = false;
  registered = false;
  acts = [];
}

abbrev asked : Supervised Box
asked = (announce slow_host quickstart_args idle).1

abbrev spawning : Outcome ℕ × Supervised Box
spawning =
    spawn_engine slow_host (state_directory slow_host (some "conduit-state")) quickstart_args asked

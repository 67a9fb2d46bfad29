-- ===== src/Tests/Runs.antt =====
-- Runs of the client against the small engine.
use conduit_client_python.Prelude.{◌≡◌, refl, true, false, ◌∷◌}
use conduit_client_python.Prelude.Dict.{lookup}
use conduit_client_python.Errors.{
  not_found, Exception, conduit, ok, raised, grpc_code, message_of, find_info, details_of,
  status_details, from_info, from_rpc_error,
}
use conduit_client_python.Wire.{PipelineMessage, create_pipeline, int32, uint64}
use conduit_client_python.Pipeline.{
  new_pipeline, source, destination, process, dlq, optional, connector_request, connector_requests,
  processor_request, processor_requests, dlq_request, build_requests,
}
use conduit_client_python.Pipeline.Builder.{chain}
use conduit_client_python.Client.{
  call, create_connectors, create_processors, configure_dlq, start_if, populate, submit, run,
}
use conduit_client_python.Client.Trace.{script, calls}
use conduit_client_python.Client.Sequence.{Stopped, run_returned, run_raised}
use conduit_client_python.Client.{connect}
use conduit_client_python.Client.Connect.{Connected, connect-Connected}
use conduit_client_python.Tests.Data.{engine, start, orders_plan, orders_pipeline, built, handle}

-- A run that goes through, and one that the engine stops at the first connector.
goes_through : (run (engine false) orders_pipeline true 10000 start).0 ≡ ok handle
unfolding run submit call populate create_connectors create_processors configure_dlq start_if
    orders_pipeline chain new_pipeline source destination process dlq build_requests
    processor_requests processor_request dlq_request connector_requests connector_request optional
    int32 uint64
goes_through = refl

run_returned_example :
    (created : PipelineMessage) × (((engine false).answer
        (create_pipeline orders_plan.create_pipeline)
        10000
        start.engine).0
      ≡ ok created)
    × ("pipeline-1" ≡ created.id)
    × ((run (engine false) orders_pipeline true 10000 start).1.trace
        ≡ calls 10000
            (create_pipeline orders_plan.create_pipeline ∷ script orders_plan created.id true))
run_returned_example =
    run_returned (engine false) 10000 orders_pipeline orders_plan true start {result = handle} built
      goes_through

stops : Exception
unfolding from_rpc_error details_of status_details find_info from_info grpc_code message_of lookup
stops = conduit (record {
  message = "no such plugin";
  code = "connector.plugin_not_found";
  grpc_status_code = not_found;
  config_path = "";
  suggestion = "check the name";
  docs_url = "";
  pipeline_id = "pipeline-1";
})

is_stopped : (run (engine true) orders_pipeline true 10000 start).0 ≡ raised stops
unfolding run submit call populate create_connectors create_processors configure_dlq start_if
    orders_pipeline chain new_pipeline source destination process dlq build_requests
    processor_requests processor_request dlq_request connector_requests connector_request optional
    int32 uint64 stops
is_stopped = refl

run_raised_example :
    Stopped
      (engine true)
      10000
      orders_plan
      true
      start
      stops
      (run (engine true) orders_pipeline true 10000 start).1.trace
run_raised_example =
    run_raised (engine true) 10000 orders_pipeline orders_plan true start {x = stops} built
      is_stopped

connect-Connected_example :
    Connected
      (engine false)
      "localhost:8084"
      false
      5000
      0
      true
      (connect (engine false) "localhost:8084" false true 5000 0)
connect-Connected_example = connect-Connected (engine false) "localhost:8084" false 5000 0 true

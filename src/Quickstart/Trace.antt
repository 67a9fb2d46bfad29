-- ===== src/Quickstart/Trace.antt =====
-- What the program does to the outside, from the opening of its channel to the end.
use mathlib.Core.List.{append_assoc}
use conduit_client_python.Prelude.{ℕ, ◌≡◌, refl, ◌∙◌, true, false, some, List, [], ◌∷◌, ◌++◌, All}
use conduit_client_python.Wire.{create_pipeline, get_pipeline, stop_pipeline}
use conduit_client_python.Pipeline.{BuildPlan}
use conduit_client_python.Client.{Event, opened_channel, called, closed_channel, hooked, Run, World}
use conduit_client_python.Client.Trace.{script, calls, trace-call}
use conduit_client_python.Client.Close.{trace-close}
use conduit_client_python.Run.{Format, status, stop}
use conduit_client_python.Run.Wait.{status-call}
use conduit_client_python.Run.Ending.{IsPoll}
use conduit_client_python.Process.{Machine, Supervised, terminate}
use conduit_client_python.Local.{supervised, address}
use conduit_client_python.Local.Launch.{local_close}
use conduit_client_python.Local.Since.{IsProbe}

regroup :
    (a b c : List Event) (x y : Event)
    → (((a ++ b) ++ c) ++ x ∷ []) ++ y ∷ [] ≡ a ++ (b ++ (c ++ x ∷ y ∷ []))
regroup a b c x y = simp append_assoc

module _ (M : Machine) (format : Format) (plan : BuildPlan) where
  abbrev W : Type 0
  W = World (Supervised M.engine.State)

  -- What the body does for a pipeline: the requests of its plan, then the polls of the wait, the
  -- question for the status, and the graceful stop.
  abbrev pub body_events : Run → List Event → List Event
  body_events handle polls =
      calls 10000 (create_pipeline plan.create_pipeline ∷ script plan handle.pipeline_id true)
      ++ (polls
          ++ called (get_pipeline handle.pipeline_id) 5000
            ∷ called (stop_pipeline handle.pipeline_id false) 10000
            ∷ [])

  pub record BodyDone (start w : W) : Type 0 where
    pub handle : Run
    pub polls : List Event
    pub only_polls : All (IsPoll (supervised M) format handle 30000 200) polls
    pub trace : w.trace ≡ start.trace ++ body_events handle polls

  -- The whole: the channel is opened and the engine probed until it answers, then the body, then the
  -- channel is closed, and behind that the process stopped.
  pub record Done (v : W) : Type 0 where
    pub port : ℕ
    pub probes : List Event
    pub only_probes : All IsProbe probes
    pub handle : Run
    pub polls : List Event
    pub only_polls : All (IsPoll (supervised M) format handle 30000 200) polls
    pub trace :
        v.trace
        ≡ opened_channel false (address M port)
          ∷ (probes ++ (body_events handle polls ++ closed_channel ∷ hooked ∷ []))

  pub stop-BodyDone :
      (handle : Run) (polls : List Event) (start w1 w2 : W)
      → All (IsPoll (supervised M) format handle 30000 200) polls
      → w1.trace
        ≡ start.trace
          ++ calls 10000
              (create_pipeline plan.create_pipeline ∷ script plan handle.pipeline_id true)
      → w2.trace ≡ w1.trace ++ polls
      → BodyDone start
          (stop (supervised M) handle false 10000 (status (supervised M) handle 5000 w2).1).1
  unfolding stop
  stop-BodyDone handle polls start w1 w2 only_polls ran waited = record {
    handle = handle;
    polls = polls;
    only_polls = only_polls;
    trace =
        let E = supervised M in
        rw
          (
            trace-call E 10000 (stop_pipeline handle.pipeline_id false) (status E handle 5000 w2).1,
            status-call E handle 5000 w2,
            trace-call E 5000 (get_pipeline handle.pipeline_id) w2,
            waited,
            ran,
          )
          (regroup start.trace _ polls _ _);
  }

  pub close-Done :
      (port : ℕ) (probes : List Event) (start w : W)
      → All IsProbe probes
      → start.trace ≡ opened_channel false (address M port) ∷ probes
      → w.closed ≡ false
      → BodyDone start w
      → Done (local_close M w).1
  unfolding local_close
  close-Done port probes start w only_probes opened open_yet done = record {
    port = port;
    probes = probes;
    only_probes = only_probes;
    handle = done.handle;
    polls = done.polls;
    only_polls = done.only_polls;
    trace =
        trace-close (supervised M) (some (terminate M)) w open_yet
        ∙ rw (done.trace, opened, append_assoc) refl;
  }

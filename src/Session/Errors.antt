-- ===== src/Session/Errors.antt =====
-- Which exceptions leave the client and its handles, whatever a program does with them.
use mathlib.Core.Path.{subst}
use conduit_client_python.Prelude.{
  ℕ, ◌≡◌, sym, inl, inr, Bool-cases, Bool, false, Option, none, some, List, All, All-append,
}
use conduit_client_python.Errors.{rpc, Outcome, ok, raised}
use conduit_client_python.Wire.{get_info, stop_pipeline, get_pipeline}
use conduit_client_python.Client.{Engine, Run, World, get_engine_info, close}
use conduit_client_python.Client.Failures.{
  IsTranslated, Translates, bind-Translates, call-Translates, run-Translates,
}
use conduit_client_python.Run.{RunStatus, Format, status, stop, read_clock}
use conduit_client_python.Run.Ending.{
  Ended, reached, degraded, failed, timed_out, interrupted, wait_running-Result,
}
use conduit_client_python.Run.Status.{Agrees, run_status-Agrees}
use conduit_client_python.Client.Close.{close_closed}
use conduit_client_python.Session.{
  discard, Step, runs, asks_info, asks_status, stops, waits, closes, Session, begun, then_step,
}

Agrees-IsTranslated : (r : Outcome RunStatus) (e : Option RunStatus) → Agrees r e → IsTranslated r
Agrees-IsTranslated r (some s) h = subst (λ (q : Outcome RunStatus). IsTranslated q) (sym h) tt
Agrees-IsTranslated r none (text, h) = subst (λ (q : Outcome RunStatus). IsTranslated q) (sym h) tt

IsTranslated-discard : {A : Type 0} (r : Outcome A) → IsTranslated r → IsTranslated (discard r)
IsTranslated-discard (ok a) h = tt
IsTranslated-discard (raised (rpc e)) h = h
IsTranslated-discard (raised x) h = tt

module _ (E : Engine) where
  status-Translates : (handle : Run) (timeout : ℕ) → Translates (status E handle timeout)
  unfolding status
  status-Translates handle timeout =
      bind-Translates _ _ (call-Translates E (get_pipeline handle.pipeline_id) timeout)
        (λ response w. Agrees-IsTranslated _ _ (run_status-Agrees response.state))

  stop-Translates :
      (handle : Run) (force : Bool) (timeout : ℕ) → Translates (stop E handle force timeout)
  unfolding stop
  stop-Translates handle force timeout =
      call-Translates E (stop_pipeline handle.pipeline_id force) timeout

  get_engine_info-Translates : (timeout : ℕ) → Translates (get_engine_info E timeout)
  unfolding get_engine_info
  get_engine_info-Translates timeout = call-Translates E get_info timeout

  Ended-IsTranslated :
      (format : Format) (handle : Run) (timeout poll_interval deadline : ℕ)
      {last : Option RunStatus} {w : World E.State} {result : Outcome RunStatus × World E.State}
      → Ended E format handle timeout poll_interval deadline last w result
      → IsTranslated result.0
  Ended-IsTranslated format handle timeout poll_interval deadline (reached s answer up) = tt
  Ended-IsTranslated format handle timeout poll_interval deadline (degraded s answer down bad) = tt
  Ended-IsTranslated format handle timeout poll_interval deadline {w = w} (failed x early e) =
      subst (λ (q : Outcome RunStatus). IsTranslated q) e
        (status-Translates handle 5000 (read_clock E w).1)
  Ended-IsTranslated format handle timeout poll_interval deadline (timed_out late) = tt
  Ended-IsTranslated format handle timeout poll_interval deadline
        (interrupted s answer down fine cut) =
      tt

  -- The hook of a client, if it has one, raises no raw gRPC failure.
  abbrev pub HookTranslates : Option (E.State → Outcome (Unit {0}) × E.State) → Type 0
  HookTranslates none = Unit
  HookTranslates (some hook) = (s : E.State) → IsTranslated (hook s).0

  close_opened-IsTranslated :
      (on_close : Option (E.State → Outcome (Unit {0}) × E.State)) (w : World E.State)
      → HookTranslates on_close
      → w.closed ≡ false
      → IsTranslated (close E on_close w).0
  unfolding close
  close_opened-IsTranslated none w h opened = rw (opened, close) tt
  close_opened-IsTranslated (some hook) w h opened =
      rw (opened, close) (h (E.close_channel w.engine))

  module _ (on_close : Option (E.State → Outcome (Unit {0}) × E.State))
      (translates : HookTranslates on_close) where
    close-Translates : Translates (close E on_close)
    close-Translates w = elim (Bool-cases w.closed) [
      | inl shut ↦ rw (close_closed E on_close w shut) tt
      | inr opened ↦ close_opened-IsTranslated on_close w translates opened
    ]

    Step-IsTranslated :
        {w v : World E.State} {r : Outcome (Unit {0})} → Step E on_close w r v → IsTranslated r
    Step-IsTranslated {w} (runs p start timeout) =
        IsTranslated-discard _ (run-Translates E p start timeout w)
    Step-IsTranslated {w} (asks_info timeout) =
        IsTranslated-discard _ (get_engine_info-Translates timeout w)
    Step-IsTranslated {w} (asks_status handle timeout) =
        IsTranslated-discard _ (status-Translates handle timeout w)
    Step-IsTranslated {w} (stops handle force timeout) =
        IsTranslated-discard _ (stop-Translates handle force timeout w)
    Step-IsTranslated {w} (waits format handle timeout poll_interval fuel result e) =
        IsTranslated-discard result.0 (
          Ended-IsTranslated format handle timeout poll_interval _
            (wait_running-Result E format handle timeout poll_interval fuel w result e).ended)
    Step-IsTranslated {w} closes = close-Translates w

    -- Whatever a program does with a client and its handles, in whatever order, and whatever the
    -- engine answers or raises: no call lets a raw `grpc.RpcError` out, provided that the hook of the
    -- client, if it has one, does not raise one itself.
    pub Session-IsTranslated :
        {start w : World E.State} {results : List (Outcome (Unit {0}))}
        → Session E on_close start results w
        → All (λ (r : Outcome (Unit {0})). IsTranslated r) results
    Session-IsTranslated begun = tt
    Session-IsTranslated (then_step {results = results} before step) =
        All-append _ results _ (Session-IsTranslated before) (Step-IsTranslated step, tt)

-- ===== src/Run/Ending.antt =====
-- How `wait_running` ends, and what it does until then.
use mathlib.Core.Path.{subst}
use mathlib.Core.Option.{some-injective, none-ne-some}
use mathlib.Core.List.{append-nil, append_assoc}
use conduit_client_python.Prelude.{
  ℕ, zero, suc, ◌+◌, ◌≤◌, ◌≡◌, refl, ◌∙◌, sym, ap, ◌⊎◌, inl, inr, Bool-cases, true, false, Option,
  none, some, List, [], ◌∷◌, ◌++◌, All, ltb, ltb→le, ltb→lt, ◌<◌, ◌<>◌, All-append,
}
use conduit_client_python.Errors.{unknown, conduit, Exception, interrupt, Outcome, ok, raised}
use conduit_client_python.Wire.{get_pipeline}
use conduit_client_python.Client.{Engine, Event, called, slept, Run, World, call}
use conduit_client_python.Run.{
  RunStatus, is_running, is_degraded, Format, status, read_clock, pause, timeout_error, poll_loop,
  wait_running, after_pause,
}
use conduit_client_python.Run.Wait.{status-call}
use conduit_client_python.Run.Settle.{
  Settled, by_raise, by_running, by_degraded, goes_on, settle-Settled,
}
use conduit_client_python.Run.Pause.{pause-cases}

module _ (E : Engine) (run : Run) where
  -- The question of a round that begins in a world, with its answer and the world behind it.
  abbrev pub asked : World E.State → Outcome RunStatus × World E.State
  asked w = status E run 5000 (read_clock E w).1

module _ (E : Engine) (format : Format) (run : Run) (timeout poll_interval : ℕ) where
  -- What a wait does to the outside: it asks for the pipeline of its handle, and sleeps.
  abbrev pub IsPoll : Event → Type 0
  IsPoll e = (e ≡ called (get_pipeline run.pipeline_id) 5000) ⊎ (e ≡ slept poll_interval)

  -- The round that begins in a world asks, since the clock has not reached the deadline, and gets a
  -- status for an answer.
  abbrev pub HasAnswer : ℕ → World E.State → RunStatus → Type 0
  HasAnswer deadline w s = ((read_clock E w).0 < deadline) × ((asked E run w).0 ≡ ok s)

  -- The worlds in which the rounds of a wait begin, each with the status that was seen last: the
  -- first, and behind each round whose status was neither running nor degraded, and whose sleep was
  -- not interrupted, the next.
  pub data Rounds (deadline : ℕ) (first : World E.State)
      : Option RunStatus → World E.State → Type 0 where
    begins : Rounds deadline first none first
    goes_round :
        {last : Option RunStatus} {w : World E.State} (s : RunStatus)
        → Rounds deadline first last w
        → HasAnswer deadline w s
        → is_running s ≡ false
        → is_degraded s ≡ false
        → (E.sleep poll_interval (asked E run w).1.engine).0 ≡ false
        → Rounds deadline first (some s) (pause E poll_interval (asked E run w).1).1

  -- The ways in which a wait ends, in its last round.
  pub data Ended (deadline : ℕ) (last : Option RunStatus) (w : World E.State)
      : Outcome RunStatus × World E.State → Type 0 where
    reached :
        (s : RunStatus)
        → HasAnswer deadline w s
        → is_running s ≡ true
        → Ended deadline last w (ok s, (asked E run w).1)
    degraded :
        (s : RunStatus)
        → HasAnswer deadline w s
        → is_running s ≡ false
        → is_degraded s ≡ true
        → Ended deadline last w (
          raised (
              conduit (record {
                message =
                    "pipeline "
                    <> format.repr run.pipeline_id
                    <> " became degraded while waiting to run: "
                    <> s.error;
                code = "client.pipeline_degraded";
                grpc_status_code = unknown;
                config_path = "";
                suggestion = "";
                docs_url = "";
                pipeline_id = "";
              })),
          (asked E run w).1,
        )
    failed :
        (x : Exception)
        → (read_clock E w).0 < deadline
        → (asked E run w).0 ≡ raised x
        → Ended deadline last w (raised x, (asked E run w).1)
    timed_out :
        deadline ≤ (read_clock E w).0
        → Ended deadline last w (
          raised (
              conduit (record {
                message =
                    "pipeline "
                    <> format.repr run.pipeline_id
                    <> " did not reach running within "
                    <> format.seconds timeout
                    <> "s (last observed status: "
                    <> elim last [ none ↦ "unknown" | some s ↦ s.status ]
                    <> ")";
                code = "client.wait_timeout";
                grpc_status_code = unknown;
                config_path = "";
                suggestion = "";
                docs_url = "";
                pipeline_id = "";
              })),
          (read_clock E w).1,
        )
    interrupted :
        (s : RunStatus)
        → HasAnswer deadline w s
        → is_running s ≡ false
        → is_degraded s ≡ false
        → (E.sleep poll_interval (asked E run w).1.engine).0 ≡ true
        → Ended deadline last w (raised interrupt, (pause E poll_interval (asked E run w).1).1)

  -- A wait that has a result: the rounds that it made, from a world on, the end of the last of them,
  -- and what has been done on the way.
  pub record Result (deadline : ℕ) (first : World E.State)
      (result : Outcome RunStatus × World E.State) : Type 0 where
    pub last : Option RunStatus
    pub final : World E.State
    pub rounds : Rounds deadline first last final
    pub ended : Ended deadline last final result
    pub events : List Event
    pub trace : result.1.trace ≡ first.trace ++ events
    pub only_polls : All IsPoll events

  module _ (deadline : ℕ) (start : World E.State) where
    -- The events up to a world within the wait.
    record Since (w : World E.State) : Type 0 where
      events : List Event
      trace : w.trace ≡ start.trace ++ events
      polls : All IsPoll events

    Since-read_clock : (w : World E.State) → Since w → Since (read_clock E w).1
    unfolding read_clock
    Since-read_clock w since = record {
      events = since.events;
      trace = since.trace;
      polls = since.polls;
    }

    Since-status : (w : World E.State) → Since w → Since (status E run 5000 w).1
    unfolding call
    Since-status w since = record {
      events = since.events ++ called (get_pipeline run.pipeline_id) 5000 ∷ [];
      trace =
          ap (λ (v : World E.State). v.trace) (status-call E run 5000 w)
          ∙ rw (since.trace, append_assoc) refl;
      polls = All-append _ since.events _ since.polls (inl refl, tt);
    }

    Since-asked : (w : World E.State) → Since w → Since (asked E run w).1
    Since-asked w since = Since-status (read_clock E w).1 (Since-read_clock w since)

    Since-pause : (w : World E.State) → Since w → Since (pause E poll_interval w).1
    unfolding pause
    Since-pause w since = record {
      events = since.events ++ slept poll_interval ∷ [];
      trace = rw (since.trace, append_assoc) refl;
      polls = All-append _ since.events _ since.polls (inr refl, tt);
    }

    ends :
        {last : Option RunStatus} {w : World E.State} {result : Outcome RunStatus × World E.State}
        → Rounds deadline start last w
        → Ended deadline last w result
        → Since result.1
        → Result deadline start result
    ends {last} {w} rounds ended since = record {
      last = last;
      final = w;
      rounds = rounds;
      ended = ended;
      events = since.events;
      trace = since.trace;
      only_polls = since.polls;
    }

    -- How the loop goes on behind a status.
    abbrev again : ℕ → World E.State → RunStatus → Option (Outcome RunStatus × World E.State)
    again fuel w s =
        let (r, v) = pause E poll_interval w in
        after_pause r v (poll_loop E format run timeout poll_interval fuel deadline (some s))

    Settled-Result :
        (last : Option RunStatus) (w : World E.State) (fuel : ℕ)
        (result : Outcome RunStatus × World E.State) {r : Outcome RunStatus}
        → Rounds deadline start last w
        → Since (asked E run w).1
        → (read_clock E w).0 < deadline
        → (asked E run w).0 ≡ r
        → ((s : RunStatus)
            → (asked E run w).0 ≡ ok s
            → is_running s ≡ false
            → is_degraded s ≡ false
            → again fuel (asked E run w).1 s ≡ some result
            → Result deadline start result)
        → Settled E format run timeout poll_interval
            (asked E run w).1
            (again fuel (asked E run w).1)
            result
            r
        → Result deadline start result
    Settled-Result last w fuel result rounds since early answer more (by_raise x e) =
        subst (Result deadline start) e (ends rounds (failed x early answer) since)
    Settled-Result last w fuel result rounds since early answer more (by_running s up e) =
        subst (Result deadline start) e (ends rounds (reached s (early, answer) up) since)
    Settled-Result last w fuel result rounds since early answer more (by_degraded s down bad e) =
        subst (Result deadline start) e (ends rounds (degraded s (early, answer) down bad) since)
    Settled-Result last w fuel result rounds since early answer more (goes_on s down fine e) =
        more s answer down fine e

    poll_loop-Result :
        (fuel : ℕ) (last : Option RunStatus) (w : World E.State)
        (result : Outcome RunStatus × World E.State)
        → Rounds deadline start last w
        → Since w
        → poll_loop E format run timeout poll_interval fuel deadline last w ≡ some result
        → Result deadline start result
    unfolding poll_loop after_pause
    poll_loop-Result zero last w result rounds since h = absurd (none-ne-some _ h)
    poll_loop-Result (suc fuel) last w result rounds since h =
        let v = (asked E run w).1 in
        elim (Bool-cases (ltb (read_clock E w).0 deadline)) [
          | inl before ↦
              let early = ltb→lt _ _ before in
              let answered = Since-asked w since in
              Settled-Result last w fuel result rounds answered early refl
                (λ s answer down fine h'. elim (pause-cases E poll_interval v) [
                  | inl (whole, returns) ↦
                      poll_loop-Result fuel (some s) (pause E poll_interval v).1 result
                        (goes_round s rounds (early, answer) down fine whole)
                        (Since-pause v answered) (rw (returns, after_pause) at h')
                  | inr (cut, raises) ↦
                      subst (Result deadline start)
                        (some-injective _ _ (rw (raises, after_pause) at h'))
                        (ends rounds (interrupted s (early, answer) down fine cut)
                          (Since-pause v answered))
                ])
                (settle-Settled E format run timeout poll_interval v (again fuel v)
                  (asked E run w).0 result (rw (before, poll_loop) at h))
          | inr late ↦
              subst (Result deadline start) (some-injective _ _ (rw (late, poll_loop) at h))
                (timed_end last w rounds since (ltb→le _ _ late))
        ]
      where
        timed_end :
            (last : Option RunStatus) (w : World E.State)
            → Rounds deadline start last w
            → Since w
            → deadline ≤ (read_clock E w).0
            → Result deadline start
                (raised (timeout_error E format run timeout poll_interval last), (read_clock E w).1)
        timed_end none w rounds since late = ends rounds (timed_out late) (Since-read_clock w since)
        timed_end (some s) w rounds since late =
            ends rounds (timed_out late) (Since-read_clock w since)

  -- A wait that ends has made rounds, from the first reading of the clock on, which sets the deadline.
  -- Each of them read the clock before the deadline, asked for the status, got one that was neither
  -- running nor degraded, and slept. The last has ended in one of five ways: the status that it got is
  -- running, and it returned that; it is degraded, and it raised an error with the pipeline's id and
  -- the error of that status; `status` raised, and it raised the same; the clock had reached the
  -- deadline, and it raised an error with the pipeline's id, the timeout and the status of the round
  -- before, `unknown` if there was none; or an interrupt from the keyboard ended its sleep, and came
  -- out of it. The wait has asked for nothing but its own pipeline, and has slept in between.
  pub wait_running-Result :
      (fuel : ℕ) (w : World E.State) (result : Outcome RunStatus × World E.State)
      → wait_running E format run timeout poll_interval fuel w ≡ some result
      → Result ((read_clock E w).0 + timeout) (read_clock E w).1 result
  unfolding wait_running
  wait_running-Result fuel w result h =
      let deadline = (read_clock E w).0 + timeout in
      poll_loop-Result deadline (read_clock E w).1 fuel none (read_clock E w).1 result begins
        (record { events = []; trace = sym (append-nil _); polls = tt }) h

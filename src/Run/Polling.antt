-- ===== src/Run/Polling.antt =====
-- How long `wait_running` sleeps, and when it asks.
use mathlib.Core.List.{append-nil, append_assoc}
use conduit_client_python.Prelude.{
  ℕ, zero, suc, ◌+◌, ◌*◌, ◌≤◌, ◌<◌, ◌≡◌, refl, ◌∙◌, sym, ap, ◌⊎◌, inl, inr, Option, some, List, [],
  ◌∷◌, ◌++◌, arith,
}
use conduit_client_python.Errors.{Outcome}
use conduit_client_python.Wire.{get_pipeline}
use conduit_client_python.Client.{Engine, Event, called, slept, Run, World, call}
use conduit_client_python.Run.{RunStatus, Format, read_clock, pause, wait_running}
use conduit_client_python.Run.Ending.{
  asked, Rounds, begins, goes_round, Ended, reached, degraded, failed, timed_out, interrupted,
  wait_running-Result,
}
use conduit_client_python.Run.Wait.{IsClock, status-call, time-read_clock, time-status, time-pause}

module _ (E : Engine) (run : Run) (poll_interval : ℕ) where
  -- The question for the pipeline.
  abbrev pub question : Event
  question = called (get_pipeline run.pipeline_id) 5000

  -- Rounds that ask once, and then sleep once.
  unfoldable pub rounds_of : ℕ → List Event
  rounds_of zero = []
  rounds_of (suc n) = question ∷ slept poll_interval ∷ rounds_of n

  rounds_of-suc : (n : ℕ) → rounds_of n ++ question ∷ slept poll_interval ∷ [] ≡ rounds_of (suc n)
  unfolding rounds_of
  rounds_of-suc zero = refl
  rounds_of-suc (suc n) =
      ap (λ (l : List Event). question ∷ slept poll_interval ∷ l) (rounds_of-suc n)

  trace-asked : (w : World E.State) → (asked E run w).1.trace ≡ w.trace ++ question ∷ []
  unfolding call read_clock
  trace-asked w = ap (λ (v : World E.State). v.trace) (status-call E run 5000 (read_clock E w).1)

  trace-pause :
      (w : World E.State)
      → (pause E poll_interval (asked E run w).1).1.trace
        ≡ w.trace ++ question ∷ slept poll_interval ∷ []
  unfolding pause
  trace-pause w = rw (trace-asked w, append_assoc) refl

module _ (E : Engine) (time : E.State → ℕ) (clock : IsClock E time) (format : Format) (run : Run)
    (timeout poll_interval : ℕ) (positive : 0 < poll_interval) where
  abbrev W : Type 0
  W = World E.State

  -- Rounds from a world and a time to another world: what they have done, and how long they took.
  record Passed (from : ℕ) (first w : W) : Type 0 where
    n : ℕ
    trace : w.trace ≡ first.trace ++ rounds_of E run poll_interval n
    passed : from + n * poll_interval ≤ time w.engine
    below : n * poll_interval < timeout + poll_interval

  trace-round :
      (first w : W) (n : ℕ)
      → w.trace ≡ first.trace ++ rounds_of E run poll_interval n
      → (pause E poll_interval (asked E run w).1).1.trace
        ≡ first.trace ++ rounds_of E run poll_interval (suc n)
  trace-round first w n before =
      trace-pause E run poll_interval w
      ∙ rw (before, append_assoc)
          (ap (λ (l : List Event). first.trace ++ l) (rounds_of-suc E run poll_interval n))

  Rounds-Passed :
      (from : ℕ) (first : W) {last : Option RunStatus} {w : W}
      → from ≤ time first.engine
      → Rounds E format run timeout poll_interval (from + timeout) first last w
      → Passed from first w
  unfolding rounds_of
  Rounds-Passed from first later begins = record {
    n = 0;
    trace = sym (append-nil first.trace);
    passed = omega arith;
    below = omega arith;
  }
  Rounds-Passed from first later (goes_round {w = w} s before (early, answer) down fine whole) =
      let h = Rounds-Passed from first later before in
      let le = h.passed in
      let read = time-read_clock E time clock w in
      let answered = time-status E time clock run 5000 (read_clock E w).1 in
      let slept_on = time-pause E time clock poll_interval (asked E run w).1 whole in
      record {
        n = suc h.n;
        trace = trace-round first w h.n h.trace;
        passed = omega arith;
        below = omega arith;
      }

  -- What a wait has done: rounds that each ask once and then sleep once, and at most one question
  -- behind the last of them.
  pub record Within (start w : W) : Type 0 where
    pub n : ℕ
    pub rest : List Event
    pub at_most_once : (rest ≡ []) ⊎ (rest ≡ question E run poll_interval ∷ [])
    pub trace : w.trace ≡ start.trace ++ (rounds_of E run poll_interval n ++ rest)
    pub slept_lt : n * poll_interval < timeout + poll_interval

  rounds-Within :
      (start w : W) (n : ℕ)
      → w.trace ≡ start.trace ++ rounds_of E run poll_interval n
      → n * poll_interval < timeout + poll_interval
      → Within start w
  rounds-Within start w n done below = record {
    n = n;
    rest = [];
    at_most_once = inl refl;
    trace = done ∙ ap (λ (l : List Event). start.trace ++ l) (sym (append-nil _));
    slept_lt = below;
  }

  asked-Within :
      (start w : W) (n : ℕ)
      → w.trace ≡ start.trace ++ rounds_of E run poll_interval n
      → n * poll_interval < timeout + poll_interval
      → Within start (asked E run w).1
  asked-Within start w n done below = record {
    n = n;
    rest = question E run poll_interval ∷ [];
    at_most_once = inr refl;
    trace = trace-asked E run poll_interval w ∙ rw (done, append_assoc) refl;
    slept_lt = below;
  }

  Ended-Within :
      (from : ℕ) (start : W) {last : Option RunStatus} {w : W} {result : Outcome RunStatus × W}
      → Passed from start w
      → Ended E format run timeout poll_interval (from + timeout) last w result
      → Within start result.1
  unfolding read_clock
  Ended-Within from start {w = w} h (reached s answer up) = asked-Within start w h.n h.trace h.below
  Ended-Within from start {w = w} h (degraded s answer down bad) =
      asked-Within start w h.n h.trace h.below
  Ended-Within from start {w = w} h (failed x early e) = asked-Within start w h.n h.trace h.below
  Ended-Within from start {w = w} h (timed_out late) =
      rounds-Within start (read_clock E w).1 h.n h.trace h.below
  Ended-Within from start {w = w} h (interrupted s (early, answer) down fine cut) =
      let le = h.passed in
      let read = time-read_clock E time clock w in
      rounds-Within start (pause E poll_interval (asked E run w).1).1 (suc h.n)
        (trace-round start w h.n h.trace) (omega arith)

  -- On a clock that runs forward, with an interval above zero, and however the wait ends: what it has
  -- done is a number of rounds, each of which has asked for the pipeline once and then called `sleep`
  -- for the interval once, and behind them at most one more question; and the lengths of these sleeps
  -- are together less than the timeout and one interval.
  pub wait_running-Within :
      (fuel : ℕ) (start : W) (result : Outcome RunStatus × W)
      → wait_running E format run timeout poll_interval fuel start ≡ some result
      → Within start result.1
  unfolding read_clock
  wait_running-Within fuel start result h =
      let ends = wait_running-Result E format run timeout poll_interval fuel start result h in
      let read = time-read_clock E time clock start in
      let within =
        Ended-Within (read_clock E start).0 (read_clock E start).1
          (Rounds-Passed (read_clock E start).0 (read_clock E start).1 (omega arith) ends.rounds)
          ends.ended in
      record {
        n = within.n;
        rest = within.rest;
        at_most_once = within.at_most_once;
        trace = within.trace;
        slept_lt = within.slept_lt;
      }

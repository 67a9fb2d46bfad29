-- ===== src/Local/Since.antt =====
-- What the wait for an engine does, step by step.
use mathlib.Core.List.{append_assoc}
use conduit_client_python.Prelude.{
  ◌≡◌, refl, ◌∙◌, ◌⊎◌, inl, inr, Option, List, [], ◌∷◌, ◌++◌, All, All-append,
}
use conduit_client_python.Prelude.Int.{ℤ}
use conduit_client_python.Wire.{get_info}
use conduit_client_python.Client.{Event, called, slept, World, call, get_engine_info}
use conduit_client_python.Run.{read_clock, pause}
use conduit_client_python.Process.{Machine, Act, polled, Supervised, poll_process}
use conduit_client_python.Local.{supervised, poll_beside}

-- What the wait does to the process, and over the channel.
abbrev pub IsPolled : Act → Type 0
IsPolled a = (code : Option ℤ) × (a ≡ polled code)

abbrev pub IsProbe : Event → Type 0
IsProbe e = (e ≡ called get_info 1000) ⊎ (e ≡ slept 100)

module _ (M : Machine) where
  abbrev W : Type 0
  W = World (Supervised M.engine.State)

  -- What has been done from one state of the wait to another.
  pub record Since (start w : W) : Type 0 where
    pub polls : List Act
    pub events : List Event
    pub closed : w.closed ≡ start.closed
    pub stopped : w.engine.stopped ≡ start.engine.stopped
    pub registered : w.engine.registered ≡ start.engine.registered
    pub host : w.engine.host ≡ start.engine.host
    pub acts : w.engine.acts ≡ start.engine.acts ++ polls
    pub trace : w.trace ≡ start.trace ++ events
    pub only_polls : All IsPolled polls
    pub only_probes : All IsProbe events

  module _ (start : W) where
    pub Since-read_clock : (w : W) → Since start w → Since start (read_clock (supervised M) w).1
    unfolding read_clock
    Since-read_clock w since = record {
      polls = since.polls;
      events = since.events;
      closed = since.closed;
      stopped = since.stopped;
      registered = since.registered;
      host = since.host;
      acts = since.acts;
      trace = since.trace;
      only_polls = since.only_polls;
      only_probes = since.only_probes;
    }

    pub Since-poll_beside : (w : W) → Since start w → Since start (poll_beside M w).1
    unfolding poll_beside poll_process
    Since-poll_beside w since = record {
      polls = since.polls ++ polled (M.poll w.engine.system).0 ∷ [];
      events = since.events;
      closed = since.closed;
      stopped = since.stopped;
      registered = since.registered;
      host = since.host;
      acts = rw (since.acts, append_assoc) refl;
      trace = since.trace;
      only_polls = All-append _ since.polls _ since.only_polls ((_, refl), tt);
      only_probes = since.only_probes;
    }

    -- A step that leaves the supervisor alone and is one event of a probe.
    pub Since-event :
        (w v : W) (e : Event)
        → Since start w
        → IsProbe e
        → v.closed ≡ w.closed
        → v.engine.stopped ≡ w.engine.stopped
        → v.engine.registered ≡ w.engine.registered
        → v.engine.host ≡ w.engine.host
        → v.engine.acts ≡ w.engine.acts
        → v.trace ≡ w.trace ++ e ∷ []
        → Since start v
    Since-event w v e since probe closed stopped registered host acts trace = record {
      polls = since.polls;
      events = since.events ++ e ∷ [];
      closed = closed ∙ since.closed;
      stopped = stopped ∙ since.stopped;
      registered = registered ∙ since.registered;
      host = host ∙ since.host;
      acts = acts ∙ since.acts;
      trace = trace ∙ rw (since.trace, append_assoc) refl;
      only_polls = since.only_polls;
      only_probes = All-append _ since.events _ since.only_probes (probe, tt);
    }

    pub Since-get_engine_info :
        (w : W) → Since start w → Since start (get_engine_info (supervised M) 1000 w).1
    unfolding get_engine_info call
    Since-get_engine_info w since =
        Since-event w _ (called get_info 1000) since (inl refl) refl refl refl refl refl refl

    pub Since-pause : (w : W) → Since start w → Since start (pause (supervised M) 100 w).1
    unfolding pause
    Since-pause w since = Since-event w _ (slept 100) since (inr refl) refl refl refl refl refl refl

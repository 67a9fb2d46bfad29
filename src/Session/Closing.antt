-- ===== src/Session/Closing.antt =====
-- How often the channel of a client is closed, and its hook called, whatever a program does with it.
use mathlib.Core.List.{append-nil, append_assoc}
use conduit_client_python.Prelude.{
  ℕ, suc, ◌+◌, ◌≡◌, refl, ◌∙◌, sym, ap, ◌⊎◌, inl, inr, Bool-cases, Bool, true, false, Option, none,
  some, List, [], ◌∷◌, ◌++◌, All, arith,
}
use conduit_client_python.Errors.{Exception, Outcome, raised, Outcome-cases}
use conduit_client_python.Exec.{Exec}
use conduit_client_python.Client.{
  Engine, Event, opened_channel, called, closed_channel, hooked, slept, World, close,
}
use conduit_client_python.Client.Close.{close_events, trace-close, close_closed, closed-close}
use conduit_client_python.Session.{
  with_client, Step, runs, asks_info, asks_status, stops, waits, closes, Session, begun, then_step,
}
use conduit_client_python.Session.Quiet.{
  IsQuiet, Quietly, run-IsQuietly, get_engine_info-IsQuietly, stop-IsQuietly, status-IsQuietly,
  wait_running-Quietly,
}

-- How often the channel has been closed.
pub closures : List Event → ℕ
closures [] = 0
closures (closed_channel ∷ es) = suc (closures es)
closures (hooked ∷ es) = closures es
closures (called r timeout ∷ es) = closures es
closures (slept d ∷ es) = closures es
closures (opened_channel secure addr ∷ es) = closures es

-- How often the hook has been called.
pub hook_calls : List Event → ℕ
hook_calls [] = 0
hook_calls (hooked ∷ es) = suc (hook_calls es)
hook_calls (closed_channel ∷ es) = hook_calls es
hook_calls (called r timeout ∷ es) = hook_calls es
hook_calls (slept d ∷ es) = hook_calls es
hook_calls (opened_channel secure addr ∷ es) = hook_calls es

abbrev pub once_if : Bool → ℕ
once_if true = 1
once_if false = 0

-- A client that has no hook calls none.
abbrev pub hooks_if {ℓ} : {A : Type ℓ} → Option A → Bool → ℕ
hooks_if none b = 0
hooks_if (some _) b = once_if b

closures-append : (xs ys : List Event) → closures (xs ++ ys) ≡ closures xs + closures ys
unfolding closures
closures-append [] ys = omega arith
closures-append (closed_channel ∷ xs) ys = omega (arith, closures-append xs ys)
closures-append (hooked ∷ xs) ys = closures-append xs ys
closures-append (called r timeout ∷ xs) ys = closures-append xs ys
closures-append (slept d ∷ xs) ys = closures-append xs ys
closures-append (opened_channel secure addr ∷ xs) ys = closures-append xs ys

hook_calls-append : (xs ys : List Event) → hook_calls (xs ++ ys) ≡ hook_calls xs + hook_calls ys
unfolding hook_calls
hook_calls-append [] ys = omega arith
hook_calls-append (hooked ∷ xs) ys = omega (arith, hook_calls-append xs ys)
hook_calls-append (closed_channel ∷ xs) ys = hook_calls-append xs ys
hook_calls-append (called r timeout ∷ xs) ys = hook_calls-append xs ys
hook_calls-append (slept d ∷ xs) ys = hook_calls-append xs ys
hook_calls-append (opened_channel secure addr ∷ xs) ys = hook_calls-append xs ys

quiet_closes_nothing : (es : List Event) → All IsQuiet es → (closures es ≡ 0) × (hook_calls es ≡ 0)
unfolding closures hook_calls
quiet_closes_nothing [] h = (refl, refl)
quiet_closes_nothing (called r timeout ∷ es) h = quiet_closes_nothing es h.1
quiet_closes_nothing (slept d ∷ es) h = quiet_closes_nothing es h.1
quiet_closes_nothing (closed_channel ∷ es) h = absurd h.0
quiet_closes_nothing (hooked ∷ es) h = absurd h.0
quiet_closes_nothing (opened_channel secure addr ∷ es) h = absurd h.0

closing_counts {ℓ} :
    {A : Type ℓ} (on_close : Option A)
    → (closures (close_events on_close) ≡ 1)
      × (hook_calls (close_events on_close) ≡ hooks_if on_close true)
unfolding closures hook_calls
closing_counts none = (refl, refl)
closing_counts (some _) = (refl, refl)

hooks_if-false {ℓ} : {A : Type ℓ} (on_close : Option A) → hooks_if on_close false ≡ 0
hooks_if-false none = refl
hooks_if-false (some _) = refl

module _ (E : Engine) (on_close : Option (E.State → Outcome (Unit {0}) × E.State)) where
  -- Since a client was open: its channel has been closed once if the client is closed, and else not,
  -- and so has its hook been called, if it has one. Nothing of the trace is lost.
  pub record ClosedOnce (start w : World E.State) : Type 0 where
    pub events : List Event
    pub trace : w.trace ≡ start.trace ++ events
    pub channel : closures events ≡ once_if w.closed
    pub hook : hook_calls events ≡ hooks_if on_close w.closed

  module _ (start : World E.State) where
    ClosedOnce-Quietly :
        (w v : World E.State) → ClosedOnce start w → Quietly E w v → ClosedOnce start v
    ClosedOnce-Quietly w v kept step =
        let (no_close, no_hook) = quiet_closes_nothing step.events step.quiet in
        record {
          events = kept.events ++ step.events;
          trace = rw (step.trace, kept.trace, append_assoc) refl;
          channel =
              rw (step.closed)
                (closures-append kept.events step.events ∙ omega (arith, kept.channel, no_close));
          hook =
              rw (step.closed)
                (hook_calls-append kept.events step.events ∙ omega (arith, kept.hook, no_hook));
        }

    ClosedOnce-close :
        (w : World E.State) → ClosedOnce start w → ClosedOnce start (close E on_close w).1
    ClosedOnce-close w kept = elim (Bool-cases w.closed) [
      | inl shut ↦ rw (close_closed E on_close w shut) kept
      | inr opened ↦
          let (channel, hook) = closing_counts on_close in
          let no_close : closures kept.events ≡ 0 = kept.channel ∙ ap once_if opened in
          let no_hook : hook_calls kept.events ≡ 0 =
            kept.hook ∙ ap (hooks_if on_close) opened ∙ hooks_if-false on_close in
          record {
            events = kept.events ++ close_events on_close;
            trace = rw (trace-close E on_close w opened, kept.trace, append_assoc) refl;
            channel = rw (closed-close E on_close w) (
                closures-append kept.events (close_events on_close)
                ∙ omega (arith, no_close, channel));
            hook = rw (closed-close E on_close w) (
                hook_calls-append kept.events (close_events on_close)
                ∙ omega (arith, no_hook, hook));
          }
    ]

    ClosedOnce-Step :
        {w v : World E.State} {r : Outcome (Unit {0})}
        → Step E on_close w r v
        → ClosedOnce start w
        → ClosedOnce start v
    ClosedOnce-Step {w} (runs p go timeout) kept =
        ClosedOnce-Quietly w _ kept (run-IsQuietly E p go timeout w)
    ClosedOnce-Step {w} (asks_info timeout) kept =
        ClosedOnce-Quietly w _ kept (get_engine_info-IsQuietly E timeout w)
    ClosedOnce-Step {w} (asks_status handle timeout) kept =
        ClosedOnce-Quietly w _ kept (status-IsQuietly E handle timeout w)
    ClosedOnce-Step {w} (stops handle force timeout) kept =
        ClosedOnce-Quietly w _ kept (stop-IsQuietly E handle force timeout w)
    ClosedOnce-Step {w} (waits format handle timeout poll_interval fuel result e) kept =
        ClosedOnce-Quietly w _ kept
          (wait_running-Quietly E format handle timeout poll_interval fuel w result e)
    ClosedOnce-Step {w} closes kept = ClosedOnce-close w kept

    -- Whatever calls a program makes on a client that is open at first, in whatever order and with
    -- whatever results: its channel has been closed once if the client is closed, and else not at all,
    -- its hook has been called as often, if it has one, and the trace has only grown.
    pub Session-ClosedOnce :
        {results : List (Outcome (Unit {0}))} {w : World E.State}
        → start.closed ≡ false
        → Session E on_close start results w
        → ClosedOnce start w
    unfolding closures hook_calls
    Session-ClosedOnce opened begun = record {
      events = [];
      trace = sym (append-nil start.trace);
      channel = sym (ap once_if opened);
      hook = sym (ap (hooks_if on_close) opened ∙ hooks_if-false on_close);
    }
    Session-ClosedOnce opened (then_step before step) =
        ClosedOnce-Step step (Session-ClosedOnce opened before)

    -- Behind a `with` block whose body makes any calls on the client, and may close it itself, and
    -- whether it returns or raises, the client is closed, its channel has been closed once and its
    -- hook called once, if it has one; and the block returns or raises what its body does, unless the
    -- close of the client has raised: then it raises that.
    pub with_client-ClosedOnce :
        {A : Type 0} (body : Exec (World E.State) A) (results : List (Outcome (Unit {0})))
        → start.closed ≡ false
        → Session E on_close start results (body start).1
        → ((with_client E on_close body start).1.closed ≡ true)
          × ClosedOnce start (with_client E on_close body start).1
          × (((with_client E on_close body start).0 ≡ (body start).0)
              ⊎ ((x : Exception) × ((close E on_close (body start).1).0 ≡ raised x)
                  × ((with_client E on_close body start).0 ≡ raised x)))
    unfolding with_client
    with_client-ClosedOnce body results opened session = (
      closed-close E on_close (body start).1,
      ClosedOnce-close (body start).1 (Session-ClosedOnce opened session),
      elim (Outcome-cases (close E on_close (body start).1).0) [
        | inl (u, e) ↦ inl (rw e refl)
        | inr (x, e) ↦ inr (x, e, rw e refl)
      ],
    )

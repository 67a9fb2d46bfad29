-- ===== src/Client/Close.antt =====
-- How often `Client.close` acts.
use mathlib.Core.List.{append_assoc}
use conduit_client_python.Prelude.{
  ℕ, zero, suc, ◌≡◌, refl, true, false, Option, none, some, List, [], ◌∷◌, ◌++◌, arith,
}
use conduit_client_python.Errors.{Outcome, ok}
use conduit_client_python.Client.{Engine, Event, closed_channel, hooked, World, close}

-- What the first `close` does: it closes the channel, and only then calls the hook, if there is one.
abbrev pub close_events {ℓ} : {A : Type ℓ} → Option A → List Event
close_events none = closed_channel ∷ []
close_events (some _) = closed_channel ∷ hooked ∷ []

pub trace-close :
    (E : Engine) (on_close : Option (E.State → Outcome (Unit {0}) × E.State)) (w : World E.State)
    → w.closed ≡ false
    → (close E on_close w).1.trace ≡ w.trace ++ close_events on_close
unfolding close
trace-close E none w h = rw h
trace-close E (some hook) w h = rw (h, append_assoc)

module _ (E : Engine) (on_close : Option (E.State → Outcome (Unit {0}) × E.State)) where
  -- `n` calls of `close`; one that raises does not keep the caller from the next.
  pub close_times : ℕ → World E.State → World E.State
  close_times zero w = w
  close_times (suc n) w = close_times n (close E on_close w).1

  pub close_closed : (w : World E.State) → w.closed ≡ true → close E on_close w ≡ (ok tt, w)
  unfolding close
  close_closed w h = rw h

  pub closed-close : (w : World E.State) → (close E on_close w).1.closed ≡ true
  unfolding close
  closed-close w = ground arith

  close_times_closed : (n : ℕ) (w : World E.State) → w.closed ≡ true → close_times n w ≡ w
  unfolding close_times
  close_times_closed zero w h = refl
  close_times_closed (suc n) w h = rw (close_closed w h) (close_times_closed n w h)

  -- However often an open client is closed, from the first time on, its channel is closed once and
  -- then its hook is called once, also when the hook raises; each later call changes nothing.
  pub trace-close_times :
      (n : ℕ) (w : World E.State)
      → w.closed ≡ false
      → (close_times (suc n) w ≡ (close E on_close w).1)
        × ((close_times (suc n) w).closed ≡ true)
        × ((close_times (suc n) w).trace ≡ w.trace ++ close_events on_close)
  unfolding close_times
  trace-close_times n w h =
      let once = close_times_closed n (close E on_close w).1 (closed-close w) in
      (once, rw once (closed-close w), rw once (trace-close E on_close w h))

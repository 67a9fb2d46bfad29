-- ===== src/Run/Settle.antt =====
-- One round of the loop of `wait_running`: what is behind the answer of `status`, and behind the sleep.
use mathlib.Core.Path.{subst}
use mathlib.Core.Option.{some-injective}
use conduit_client_python.Prelude.{ℕ, ◌≡◌, inl, inr, Bool-cases, true, false, Option, some}
use conduit_client_python.Errors.{Exception, Outcome, ok, raised}
use conduit_client_python.Client.{Engine, Run, World}
use conduit_client_python.Run.{
  RunStatus, is_running, is_degraded, Format, pause, degraded_error, settle, after_pause,
}
use conduit_client_python.Run.Pause.{pause-cases}

module _ (E : Engine) where
  abbrev End : Type 0
  End = Outcome RunStatus × World E.State

  module _ (format : Format) (run : Run) (timeout poll_interval : ℕ) (w : World E.State)
      (next : RunStatus → Option End) where
    -- The ways in which the tests on an answer go.
    pub data Settled (result : End) : Outcome RunStatus → Type 0 where
      by_raise : (x : Exception) → (raised x, w) ≡ result → Settled result (raised x)
      by_running :
          (s : RunStatus) → is_running s ≡ true → (ok s, w) ≡ result → Settled result (ok s)
      by_degraded :
          (s : RunStatus)
          → is_running s ≡ false
          → is_degraded s ≡ true
          → (raised (degraded_error E format run timeout poll_interval s), w) ≡ result
          → Settled result (ok s)
      goes_on :
          (s : RunStatus)
          → is_running s ≡ false
          → is_degraded s ≡ false
          → next s ≡ some result
          → Settled result (ok s)

    pub settle-Settled :
        (r : Outcome RunStatus) (result : End)
        → settle E format run timeout poll_interval r w next ≡ some result
        → Settled result r
    unfolding settle
    settle-Settled (raised x) result h = by_raise x (some-injective _ _ h)
    settle-Settled (ok s) result h = elim (Bool-cases (is_running s)) [
      | inl up ↦ by_running s up (some-injective _ _ (rw (up, settle) at h))
      | inr down ↦ elim (Bool-cases (is_degraded s)) [
        | inl bad ↦ by_degraded s down bad (some-injective _ _ (rw (down, bad, settle) at h))
        | inr fine ↦ goes_on s down fine (rw (down, fine, settle) at h)
      ]
    ]

    -- What holds of the world behind the answer, and is kept by the rest, holds at the end.
    pub settle_keeps :
        (P : World E.State → Type 0) (r : Outcome RunStatus) (result : End)
        → P w
        → ((s : RunStatus) → next s ≡ some result → P result.1)
        → settle E format run timeout poll_interval r w next ≡ some result
        → P result.1
    settle_keeps P r result now later h = kept r (settle-Settled r result h)
      where
        ends : (p : End) → p ≡ result → P p.1 → P result.1
        ends p e = subst (λ (q : End). P q.1) e

        kept : (r : Outcome RunStatus) → Settled result r → P result.1
        kept r (by_raise x e) = ends (raised x, w) e now
        kept r (by_running s up e) = ends (ok s, w) e now
        kept r (by_degraded s down bad e) = ends _ e now
        kept r (goes_on s down fine e) = later s e

  -- The same for a sleep, and what is behind it if it has its length.
  pub after_pause_keeps :
      (P : World E.State → Type 0) (d : ℕ) (w : World E.State) (next : World E.State → Option End)
      (result : End)
      → P (pause E d w).1
      → ((E.sleep d w.engine).0 ≡ false → next (pause E d w).1 ≡ some result → P result.1)
      → after_pause (pause E d w).0 (pause E d w).1 next ≡ some result
      → P result.1
  unfolding after_pause
  after_pause_keeps P d w next result now later h = elim (pause-cases E d w) [
    | inl (whole, returns) ↦ later whole (rw (returns, after_pause) at h)
    | inr (cut, raises) ↦
        subst (λ (q : End). P q.1) (some-injective _ _ (rw (raises, after_pause) at h)) now
  ]

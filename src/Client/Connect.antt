-- ===== src/Client/Connect.antt =====
-- What `connect` does, and what it leaves open.
use conduit_client_python.Prelude.{ℕ, ◌≡◌, refl, inl, inr, String, Bool, true, false, [], ◌∷◌}
use conduit_client_python.Errors.{Exception, Outcome, ok, raised, Outcome-cases}
use conduit_client_python.Wire.{Info, get_info}
use conduit_client_python.Client.{
  Engine, opened_channel, called, World, call, get_engine_info, connect,
}

module _ (E : Engine) (addr : String) (credentials : Bool) (timeout : ℕ) (s : E.State) where
  -- The client that `connect` makes, on its open channel.
  abbrev pub dialled : World E.State
  dialled = record { engine = s; closed = false; trace = opened_channel credentials addr ∷ [] }

  -- How `connect` ends, with what it has done: without a check, with an answer to it, or with what
  -- the check has raised.
  pub data Connected : Bool → Outcome (Unit {0}) × World E.State → Type 0 where
    unchecked : Connected false (ok tt, dialled)
    reached :
        (info : Info) (w : World E.State)
        → (get_engine_info E timeout dialled).0 ≡ ok info
        → w.closed ≡ false
        → w.trace ≡ opened_channel credentials addr ∷ called get_info timeout ∷ []
        → Connected true (ok tt, w)
    unreached :
        (x : Exception) (w : World E.State)
        → (get_engine_info E timeout dialled).0 ≡ raised x
        → w.closed ≡ false
        → w.trace ≡ opened_channel credentials addr ∷ called get_info timeout ∷ []
        → Connected true (raised x, w)

  -- `connect` opens one channel of the kind that it was asked for, and makes at most one call,
  -- `GetInfo`, and that exactly if it checks. It returns if it does not check or is answered, and else
  -- raises what the call has raised; in every case, also when it raises, the channel is left open.
  pub connect-Connected :
      (check_version : Bool)
      → Connected check_version (connect E addr credentials check_version timeout s)
  unfolding connect get_engine_info call
  connect-Connected false = unchecked
  connect-Connected true = elim (Outcome-cases (get_engine_info E timeout dialled).0) [
    | inl (info, e) ↦ rw e (reached info _ e refl refl)
    | inr (x, e) ↦ rw e (unreached x _ e refl refl)
  ]

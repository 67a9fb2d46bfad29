-- ===== src/Quickstart/Ends.antt =====
-- The program on any engine: it ends, and leaves no process.
use mathlib.Core.Path.{subst}
use mathlib.Core.Option.{some-injective, none-ne-some}
use conduit_client_python.Run.Wait.{wait_running_total}
use conduit_client_python.Prelude.{
  arith, ℕ, ◌<◌, ◌≡◌, refl, Bool, true, false, Option, none, some, List,
}
use conduit_client_python.Errors.{Outcome, ok, raised}
use conduit_client_python.Exec.{Exec, ◌>>=◌, continue}
use conduit_client_python.Pipeline.{Pipeline}
use conduit_client_python.Client.{Run, World, run}
use conduit_client_python.Client.Moved.{IsLasting}
use conduit_client_python.Run.{Format, RunStatus, status, stop, wait_running}
use conduit_client_python.Session.{
  exit_result, discard, Step, runs, asks_status, stops, waits, Session, begun, then_step,
}
use conduit_client_python.Process.{Machine, Supervised, terminate}
use conduit_client_python.Local.{supervised}
use conduit_client_python.Local.Launch.{local, local_run, local_with, local_close}
use conduit_client_python.Local.Ready.{IsMachineClock, supervised-IsClock}
use conduit_client_python.Local.Exit.{IsReported, IsDelivered}
use conduit_client_python.Local.Orphan.{IsDead}
use conduit_client_python.Local.Whole.{enter, with_local, IsProgram, IsSole, with_local_ends}
use conduit_client_python.Quickstart.{
  wait_result, wait_step, finish, quickstart_body, quickstart_args, orders_sync, quickstart,
}

-- A result of the program, and not a wait that has run out of fuel.
abbrev pub IsOver : Outcome (Option RunStatus) → Type 0
IsOver (ok none) = ⊥
IsOver r = Unit

continue-IsOver :
    {W A : Type 0} (r : Outcome A) (f : A → Exec W (Option RunStatus)) (w : W)
    → ((a : A) (v : W) → IsOver (f a v).0)
    → IsOver (continue r f w).0
continue-IsOver (ok a) f w h = h a w
continue-IsOver (raised x) f w h = tt

exit-IsOver :
    (r : Outcome (Option RunStatus)) (closed : Outcome (Unit {0}))
    → IsOver r
    → IsOver (exit_result r closed)
exit-IsOver r (ok u) over = over
exit-IsOver r (raised x) over = tt

module _ (M : Machine) where
  abbrev W : Type 0
  W = World (Supervised M.engine.State)

  -- The calls that lead from one state of the client to another.
  abbrev Leads : W → W → Type 0
  Leads u w =
      (results : List (Outcome (Unit {0}))) × Session (supervised M) (some (terminate M)) u results
        w

  Leads-trans : {u v w : W} → Leads u v → Leads v w → Leads u w
  Leads-trans before (_, begun) = before
  Leads-trans before (_, then_step more step) =
      let (_, session) = Leads-trans before (_, more) in (_, then_step session step)

  continue-Leads :
      {A B : Type 0} (u : W) (r : Outcome A) (f : A → Exec W B) (w : W)
      → Leads u w
      → ((a : A) → IsProgram M (f a))
      → Leads u (continue r f w).1
  continue-Leads u (ok a) f w h hf = Leads-trans h (hf a w)
  continue-Leads u (raised x) f w h hf = h

  bind-IsProgram :
      {A B : Type 0} (m : Exec W A) (f : A → Exec W B)
      → IsProgram M m
      → ((a : A) → IsProgram M (f a))
      → IsProgram M (m >>= f)
  bind-IsProgram m f hm hf w = continue-Leads w (m w).0 f (m w).1 (hm w) hf

  module _ (format : Format) where
    wait_step-IsProgram : (fuel : ℕ) (handle : Run) → IsProgram M (wait_step M format fuel handle)
    unfolding wait_step
    wait_step-IsProgram fuel handle w =
        waited (wait_running (supervised M) format handle 30000 200 fuel w)
          (waits format handle 30000 200 fuel)
      where
        waited :
            (end : Option (Outcome RunStatus × W))
            → ((result : Outcome RunStatus × W)
                → end ≡ some result
                → Step (supervised M) (some (terminate M)) w (discard result.0) result.1)
            → Leads w (wait_result M format w end).1
        waited none h = (_, begun)
        waited (some (ok s, v)) h = (_, then_step begun (h (ok s, v) refl))
        waited (some (raised x, v)) h = (_, then_step begun (h (raised x, v) refl))

    finish-IsProgram :
        (handle : Run) (reached : Option RunStatus) → IsProgram M (finish M format handle reached)
    finish-IsProgram handle none w = (_, begun)
    finish-IsProgram handle (some up) w =
        bind-IsProgram (status (supervised M) handle 5000) _
          (λ u. (_, then_step begun (asks_status handle 5000)))
          (λ found.
            bind-IsProgram (stop (supervised M) handle false 10000) _
              (λ u. (_, then_step begun (stops handle false 10000))) (λ _ u. (_, begun)))
          w

    body-IsProgram : (fuel : ℕ) (p : Pipeline) → IsProgram M (quickstart_body M format fuel p)
    unfolding quickstart_body local_run
    body-IsProgram fuel p =
        bind-IsProgram (run (supervised M) p true 10000) _
          (λ w. (_, then_step begun (runs p true 10000)))
          λ handle.
            bind-IsProgram (wait_step M format fuel handle) _ (wait_step-IsProgram fuel handle)
              (finish-IsProgram handle)

    module _ (time : M.engine.State → ℕ) (clock : IsMachineClock M time) (fuel : ℕ)
        (enough : 30000 < fuel) where
      wait_step-IsOver : (handle : Run) (w : W) → IsOver (wait_step M format fuel handle w).0
      unfolding wait_step
      wait_step-IsOver handle w =
          let (result, e) =
            wait_running_total (supervised M) (λ s. time s.system) (supervised-IsClock M time clock)
              format handle 30000 200 (omega arith) fuel w enough in
          rw e (over result)
        where
          over : (result : Outcome RunStatus × W) → IsOver (wait_result M format w (some result)).0
          over (ok s, v) = tt
          over (raised x, v) = tt

      finish-IsOver :
          (handle : Run) (up : RunStatus) (w : W) → IsOver (finish M format handle (some up) w).0
      finish-IsOver handle up w =
          continue-IsOver (status (supervised M) handle 5000 w).0 _ _
            λ found v. continue-IsOver (stop (supervised M) handle false 10000 v).0 _ _ λ _ u. tt

      continue-finish-IsOver :
          (handle : Run) (r : Outcome (Option RunStatus)) (w : W)
          → IsOver r
          → IsOver (continue r (finish M format handle) w).0
      continue-finish-IsOver handle (ok none) w over = over
      continue-finish-IsOver handle (ok (some up)) w over = finish-IsOver handle up w
      continue-finish-IsOver handle (raised x) w over = tt

      body-IsOver : (p : Pipeline) (w : W) → IsOver (quickstart_body M format fuel p w).0
      unfolding quickstart_body local_run
      body-IsOver p w = continue-IsOver (run (supervised M) p true 10000 w).0 _ _ λ handle v.
          continue-finish-IsOver handle (wait_step M format fuel handle v).0 _
            (wait_step-IsOver handle v)

      enter-IsOver :
          (p : Pipeline) (entered : Option (Outcome (Unit {0}) × W))
          (end : Outcome (Option RunStatus) × W)
          → enter M (quickstart_body M format fuel p) entered ≡ some end
          → IsOver end.0
      unfolding local_with
      enter-IsOver p none end h = absurd (none-ne-some _ h)
      enter-IsOver p (some (raised x, w)) end h =
          subst (λ (q : Outcome (Option RunStatus) × W). IsOver q.0) (some-injective _ _ h) tt
      enter-IsOver p (some (ok u, w)) end h =
          subst (λ (q : Outcome (Option RunStatus) × W). IsOver q.0) (some-injective _ _ h)
            (exit-IsOver (quickstart_body M format fuel p w).0
              (local_close M (quickstart_body M format fuel p w).1).0 (body-IsOver p w))

    -- The program of the example, on any engine, whatever that answers or fails to answer, and
    -- whatever fails on the way: it ends, with a round of each of the two waits for each millisecond
    -- of its timeout of 30 seconds and one more, and leaves no process, if there was none before. The host's clock runs forward, the system is one whose reports are true and whose
    -- signals arrive, no call but a `Popen` that returns starts the process, and it does not come
    -- back.
    pub quickstart_ends :
        (alive : M.engine.State → Bool) (time : M.engine.State → ℕ)
        → IsMachineClock M time
        → IsSole M alive
        → IsReported M alive
        → IsDelivered M alive
        → IsLasting M.engine (λ s. alive s ≡ false)
        → (fuel : ℕ) (s : Supervised M.engine.State) → 30000 < fuel
        → IsDead M alive s
        → (end : Outcome (Option RunStatus) × W) × (quickstart M format fuel s ≡ some end)
          × IsOver end.0
          × IsDead M alive end.1.engine
    unfolding quickstart with_local
    quickstart_ends alive time clock sole reported delivered dead_lasts fuel s enough dead =
        let (end, ends, gone) =
          with_local_ends M alive sole reported delivered dead_lasts time clock fuel quickstart_args
            (quickstart_body M format fuel orders_sync) s enough dead
            (body-IsProgram fuel orders_sync) in
        (
          end,
          ends,
          enter-IsOver time clock fuel enough orders_sync (local M fuel quickstart_args s) end ends,
          gone,
        )

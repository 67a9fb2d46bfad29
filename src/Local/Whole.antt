-- ===== src/Local/Whole.antt =====
-- A program that uses `local` in a `with` statement, from the start of the engine to its end.
use mathlib.Core.Option.{some-injective}
use mathlib.Core.Path.{subst}
use conduit_client_python.Prelude.{
  ℕ, ◌<◌, ◌≡◌, refl, inl, inr, Option-cases, Bool, false, Option, none, some, String, ◌<>◌, List,
}
use conduit_client_python.Errors.{Exception, Outcome, ok, raised, Outcome-cases, ok≢raised}
use conduit_client_python.Exec.{Exec, ◌>>=◌, ◌>>◌, pure}
use conduit_client_python.Client.{World}
use conduit_client_python.Session.{Session}
use conduit_client_python.Client.Moved.{IsLasting}
use conduit_client_python.Process.{Machine, Act, opened_log, made_dir, Supervised, act, terminate}
use conduit_client_python.Local.{supervised}
use conduit_client_python.Local.Launch.{
  LocalArgs, spawn_engine, find_binary, free_port, warn_default, announce, local, local_with,
  command, mark_running, start_engine, state_directory,
}
use conduit_client_python.Local.Ready.{IsMachineClock}
use conduit_client_python.Local.Start.{
  Unstarted, unspawned, undone, start_engine_raised, start_engine_returned, local_total,
}
use conduit_client_python.Local.Exit.{IsReported, IsDelivered, terminate_exits}
use conduit_client_python.Local.Orphan.{IsDead, held_open, IsDead-local_with}

module _ (M : Machine) where
  abbrev W : Type 0
  W = World (Supervised M.engine.State)

  abbrev pub enter :
      {A : Type 0} → Exec W A → Option (Outcome (Unit {0}) × W) → Option (Outcome A × W)
  enter body none = none
  enter body (some (raised x, w)) = some (raised x, w)
  enter body (some (ok u, w)) = some (local_with M body w)

  -- `with local(...) as client: body`
  unfoldable pub with_local :
      {A : Type 0} → ℕ → LocalArgs → Exec W A → Supervised M.engine.State → Option (Outcome A × W)
  with_local fuel args body s = enter body (local M fuel args s)

  -- A body that makes calls on its client, any number in any order, with what it likes in between.
  abbrev pub IsProgram : {A : Type 0} → Exec W A → Type 0
  IsProgram body =
      (w : W)
      → (results : List (Outcome (Unit {0}))) × Session (supervised M) (some (terminate M)) w
          results (body w).1

  module _ (alive : M.engine.State → Bool) where
    -- No call but that of `Popen` starts a process, and not that if it raises.
    pub record IsSole : Type 0 where
      pub makes :
          (path : String) (s : M.engine.State)
          → alive s ≡ false
          → alive (M.make_dir path s).1 ≡ false
      pub assigns : (s : M.engine.State) → alive s ≡ false → alive (M.assign_port s).1 ≡ false
      pub opens :
          (path : String) (s : M.engine.State)
          → alive s ≡ false
          → alive (M.open_log path s).1 ≡ false
      pub spawns :
          (argv : List String) (s : M.engine.State) {x : Exception}
          → alive s ≡ false
          → (M.spawn argv s).0 ≡ raised x
          → alive (M.spawn argv s).1 ≡ false

    module _ (sole : IsSole) where
      -- An action that starts no process, or none if it raises.
      abbrev Keeps : {A : Type 0} → Exec (Supervised M.engine.State) A → Type 0
      Keeps m = (s : Supervised M.engine.State) → IsDead M alive s → IsDead M alive (m s).1

      abbrev RaisesDead : {A : Type 0} → Exec (Supervised M.engine.State) A → Type 0
      RaisesDead m =
          (s : Supervised M.engine.State) (x : Exception)
          → IsDead M alive s
          → (m s).0 ≡ raised x
          → IsDead M alive (m s).1

      bind-Keeps :
          {A B : Type 0} (m : Exec (Supervised M.engine.State) A)
          (f : A → Exec (Supervised M.engine.State) B)
          → Keeps m
          → ((a : A) → Keeps (f a))
          → Keeps (m >>= f)
      bind-Keeps m f hm hf s dead = elim (Outcome-cases (m s).0) [
        | inl (a, e) ↦ rw e (hf a (m s).1 (hm s dead))
        | inr (x, e) ↦ rw e (hm s dead)
      ]

      bind-RaisesDead :
          {A B : Type 0} (m : Exec (Supervised M.engine.State) A)
          (f : A → Exec (Supervised M.engine.State) B)
          → Keeps m
          → ((a : A) → RaisesDead (f a))
          → RaisesDead (m >>= f)
      bind-RaisesDead m f hm hf s x dead fails = elim (Outcome-cases (m s).0) [
        | inl (a, e) ↦ rw e (hf a (m s).1 x (hm s dead) (rw e at fails))
        | inr (y, e) ↦ rw e (hm s dead)
      ]

      find_binary-Keeps : (args : LocalArgs) → Keeps (find_binary M args)
      unfolding find_binary
      find_binary-Keeps args s dead = elim (Option-cases args.binary) [
        | inl given ↦ rw given dead
        | inr (path, e) ↦ rw e dead
      ]

      free_port-Keeps : Keeps (free_port M)
      unfolding free_port
      free_port-Keeps s dead = sole.assigns s.system dead

      -- The process is spawned, and that is not undone.
      spawn-RaisesDead :
          (a : Act) (argv : List String) (port : ℕ)
          → RaisesDead (act M a (M.spawn argv) >> (mark_running M >> pure port))
      spawn-RaisesDead a argv port s x dead fails = elim (Outcome-cases (M.spawn argv s.system).0) [
        | inl (u, e) ↦ absurd (ok≢raised (rw e at fails))
        | inr (y, e) ↦ rw e (sole.spawns argv s.system dead e)
      ]

      spawn_engine-RaisesDead :
          (state_dir : String) (args : LocalArgs) → RaisesDead (spawn_engine M state_dir args)
      unfolding spawn_engine
      spawn_engine-RaisesDead state_dir args =
          bind-RaisesDead (find_binary M args) _ (find_binary-Keeps args) λ binary.
            bind-RaisesDead (free_port M) _ free_port-Keeps λ grpc_port.
              bind-RaisesDead (free_port M) _ free_port-Keeps λ http_port.
                bind-RaisesDead
                  (act M (opened_log (state_dir <> "/conduit.log"))
                    (M.open_log (state_dir <> "/conduit.log")))
                  _ (λ s dead. sole.opens (state_dir <> "/conduit.log") s.system dead)
                  λ _. spawn-RaisesDead _ (command M binary state_dir grpc_port http_port) grpc_port

      warn-Keeps : (dir : Option String) → Keeps (warn_default M dir)
      warn-Keeps none s dead = dead
      warn-Keeps (some dir) s dead = dead

      announce-Keeps : (args : LocalArgs) → Keeps (announce M args)
      unfolding announce
      announce-Keeps args =
          let dir = state_directory M args.state_dir in
          let makes = act M (made_dir dir) (M.make_dir dir) in
          bind-Keeps (warn_default M args.state_dir >> makes) _
            (bind-Keeps (warn_default M args.state_dir) (λ _. makes) (warn-Keeps args.state_dir)
              (λ _ t h. sole.makes dir t.system h))
            (λ _ t h. h)

      module _ (reported : IsReported M alive) (delivered : IsDelivered M alive)
          (dead_lasts : IsLasting M.engine (λ s. alive s ≡ false)) where
        Unstarted-IsDead :
            (state_dir : String) (args : LocalArgs) (s : Supervised M.engine.State) (fuel : ℕ)
            (x : Exception) (w : W)
            → IsDead M alive s
            → Unstarted M state_dir args s fuel x w
            → IsDead M alive w.engine
        Unstarted-IsDead state_dir args s fuel x w dead (unspawned fails same) =
            rw same (spawn_engine-RaisesDead state_dir args s x dead fails)
        Unstarted-IsDead state_dir args s fuel x w dead
              (undone port cause v spawns ends running how same down) =
            rw same (terminate_exits M alive reported delivered v.engine running)

        -- A program that has been let in, or not.
        abbrev Leaves : {A : Type 0} → Exec W A → Option (Outcome (Unit {0}) × W) → Type 0
        Leaves {A} body entered =
            (end : Outcome A × W) × (enter body entered ≡ some end) × IsDead M alive end.1.engine

        start_engine-Leaves :
            {A : Type 0} (fuel : ℕ) (state_dir : String) (args : LocalArgs) (body : Exec W A)
            (s : Supervised M.engine.State) (result : Outcome (Unit {0}) × W)
            → IsDead M alive s
            → IsProgram body
            → start_engine M fuel state_dir args s ≡ some result
            → Leaves body (some result)
        start_engine-Leaves fuel state_dir args body s (raised x, w) dead program e = (
          (raised x, w),
          refl,
          Unstarted-IsDead state_dir args s fuel x w dead
              (start_engine_raised M state_dir args s fuel e),
        )
        start_engine-Leaves fuel state_dir args body s (ok u, w) dead program e =
            let started = start_engine_returned M state_dir args s fuel e in
            let (results, session) = program w in
            (
              local_with M body w,
              refl,
              IsDead-local_with M alive reported delivered dead_lasts body w results
                  (held_open started.closed started.stopped) session,
            )

        local-Leaves :
            {A : Type 0} (fuel : ℕ) (args : LocalArgs) (body : Exec W A)
            (s : Supervised M.engine.State) (result : Outcome (Unit {0}) × W)
            → IsDead M alive s
            → IsProgram body
            → local M fuel args s ≡ some result
            → Leaves body (some result)
        unfolding local
        local-Leaves fuel args body s result dead program e =
            elim (Outcome-cases (announce M args s).0) [
              | inr (y, fails) ↦
                  subst (λ (p : Outcome (Unit {0}) × W). Leaves body (some p))
                    (some-injective _ _ (rw fails at e))
                    ((raised y, _), refl, announce-Keeps args s dead)
              | inl (u, told) ↦
                  start_engine-Leaves fuel (state_directory M args.state_dir) args body
                    (announce M args s).1 result (announce-Keeps args s dead) program (rw told at e)
            ]

        -- `with local(...) as client: body`, for a body that makes any calls on its client and its
        -- handles, and may close it, and on a host whose clock runs forward: the program ends, with a
        -- round of the wait for each millisecond of the startup timeout and one more, and at its end
        -- the process is gone, whether the start failed or the body raised or not, if it was not there
        -- before. The system is one whose reports are true and whose signals arrive, where no call but
        -- a `Popen` that returns starts the process, and where it does not come back.
        pub with_local_ends :
            (time : M.engine.State → ℕ) (clock : IsMachineClock M time) {A : Type 0} (fuel : ℕ)
            (args : LocalArgs) (body : Exec W A) (s : Supervised M.engine.State)
            → args.startup_timeout < fuel
            → IsDead M alive s
            → IsProgram body
            → (end : Outcome A × W) × (with_local fuel args body s ≡ some end)
              × IsDead M alive end.1.engine
        unfolding with_local
        with_local_ends time clock fuel args body s enough dead program =
            let (result, e) = local_total M time clock fuel args s enough in
            rw e (local-Leaves fuel args body s result dead program e)

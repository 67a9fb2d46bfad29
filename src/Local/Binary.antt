-- ===== src/Local/Binary.antt =====
-- Which binary a process is started from.
use conduit_client_python.Prelude.{
  ℕ, ◌≡◌, ◌≢◌, refl, ◌∙◌, sym, ap, inl, inr, Option-cases, String, none, some, List, [], ◌∷◌, ◌++◌,
  ◌<>◌,
}
use mathlib.Core.Path.{subst}
use mathlib.Core.List.{append_assoc}
use conduit_client_python.Errors.{Outcome, ok, Outcome-cases, ok≢raised}
use conduit_client_python.Exec.{Exec, ◌>>=◌, ◌>>◌, pure, bind_returned}
use conduit_client_python.Checksums.{Bytes}
use conduit_client_python.Install.{File, Host}
use conduit_client_python.Install.Moments.{complete}
use conduit_client_python.Provision.{resolve_version, cached_binary_path, ensure_binary}
use conduit_client_python.Provision.Download.{Verified}
use conduit_client_python.Provision.Ensure.{ensure_binary_returned}
use conduit_client_python.Process.{Machine, Act, opened_log, spawned, Supervised, act}
use conduit_client_python.Local.Launch.{
  LocalArgs, command, spawn_engine, find_binary, free_port, mark_running,
}

module _ (M : Machine) (state_dir : String) (args : LocalArgs) (s : Supervised M.engine.State) where
  abbrev pub cache_path : String
  cache_path = cached_binary_path M.surroundings (resolve_version M.surroundings args.version)

  -- Where a binary comes from: the caller gave it; or it was in the cache, and the network has not
  -- been asked for anything; or it has been downloaded and checked, and is in the cache as a whole.
  pub data Origin (path : String) (after : Host) : Type 0 where
    given : args.binary ≡ some path → after ≡ s.host → Origin path after
    cached :
        (f : File)
        → args.binary ≡ none
        → path ≡ cache_path
        → s.host.file cache_path ≡ some f
        → after ≡ s.host
        → Origin path after
    downloaded :
        (binary : Bytes)
        → args.binary ≡ none
        → path ≡ cache_path
        → after.file cache_path ≡ some (complete binary)
        → Verified M.surroundings s.host (resolve_version M.surroundings args.version) binary
        → Origin path after

  find_given : (path : String) → args.binary ≡ some path → find_binary M args s ≡ (ok path, s)
  unfolding find_binary
  find_given path gives = rw gives refl

  abbrev ensured : Outcome String × Host
  ensured = ensure_binary M.surroundings M.faults args.version s.host

  find_absent :
      args.binary ≡ none → find_binary M args s ≡ (ensured.0, record s { host = ensured.1 })
  unfolding find_binary
  find_absent absent = rw absent refl

  find_binary-Origin :
      {path : String}
      → M.faults.temp ≢ cache_path
      → (find_binary M args s).0 ≡ ok path
      → Origin path (find_binary M args s).1.host
  find_binary-Origin {path} apart e = elim (Option-cases args.binary) [
    | inr (p, gives) ↦
        let same = find_given p gives in
        let e' : ok p ≡ ok path = rw same at e in
        given (gives ∙ cc e')
          (ap (λ (r : Outcome String × Supervised M.engine.State). r.1.host) same)
    | inl absent ↦
        let same = find_absent absent in
        let (path_same, where_from) =
          ensure_binary_returned M.surroundings M.faults args.version s.host apart (rw same at e) in
        let host_same = ap (λ (r : Outcome String × Supervised M.engine.State). r.1.host) same in
        elim where_from [
          | inl (f, found, kept) ↦ cached f absent path_same found (host_same ∙ kept)
          | inr (binary, whole, verified) ↦
              downloaded binary absent path_same
                (ap (λ (h : Host). h.file cache_path) host_same ∙ whole) verified
        ]
  ]

  acts-find_binary : (find_binary M args s).1.acts ≡ s.acts
  acts-find_binary = elim (Option-cases args.binary) [
    | inr (p, gives) ↦
        ap (λ (r : Outcome String × Supervised M.engine.State). r.1.acts) (find_given p gives)
    | inl absent ↦
        ap (λ (r : Outcome String × Supervised M.engine.State). r.1.acts) (find_absent absent)
  ]

  -- What `spawn_engine` does with a binary.
  abbrev launch : String → Exec (Supervised M.engine.State) ℕ
  launch binary = free_port M >>= λ grpc_port.
      (free_port M >>= λ http_port.
      (act M (opened_log (state_dir <> "/conduit.log")) (M.open_log (state_dir <> "/conduit.log"))
        >> (act M (spawned (command M binary state_dir grpc_port http_port))
              (M.spawn (command M binary state_dir grpc_port http_port))
            >> (mark_running M >> pure grpc_port))))

  launch_returned :
      (binary : String) (w : Supervised M.engine.State) {port : ℕ}
      → (launch binary w).0 ≡ ok port
      → (http_port : ℕ) × ((launch binary w).1.acts
          ≡ w.acts
            ++ opened_log (state_dir <> "/conduit.log")
              ∷ spawned (command M binary state_dir port http_port)
              ∷ [])
        × ((launch binary w).1.host ≡ w.host)
  unfolding free_port
  launch_returned binary w {port} e =
      let t1 = (M.assign_port w.system).1 in
      let t2 = (M.assign_port t1).1 in
      let t3 = (M.open_log (state_dir <> "/conduit.log") t2).1 in
      elim (Outcome-cases (M.assign_port w.system).0) [
        | inr (x, f) ↦ absurd (ok≢raised (sym (rw f at e)))
        | inl (g, f1) ↦ elim (Outcome-cases (M.assign_port t1).0) [
          | inr (x, f) ↦ absurd (ok≢raised (sym (rw (f1, f) at e)))
          | inl (h, f2) ↦ elim (Outcome-cases (M.open_log (state_dir <> "/conduit.log") t2).0) [
            | inr (x, f) ↦ absurd (ok≢raised (sym (rw (f1, f2, f) at e)))
            | inl (u, f3) ↦ elim (Outcome-cases (M.spawn (command M binary state_dir g h) t3).0) [
              | inr (x, f) ↦ absurd (ok≢raised (sym (rw (f1, f2, f3, f) at e)))
              | inl (v, f4) ↦
                  let same : ok g ≡ ok port = rw (f1, f2, f3, f4) at e in
                  let same_port : g ≡ port = cc same in
                  (
                    h,
                    rw (f1, f2, f3, f4)
                        (append_assoc w.acts _ _
                          ∙ ap
                              (λ p.
                                w.acts
                                ++ opened_log (state_dir <> "/conduit.log")
                                  ∷ spawned (command M binary state_dir p h)
                                  ∷ [])
                              same_port),
                    rw (f1, f2, f3, f4) refl,
                  )
            ]
          ]
        ]
      ]

  -- A start that has come as far as a process: it was started once, by its command line, and from a
  -- binary that the caller gave, or that was in the cache, or that `ensure_binary` has put there, the
  -- whole binary of the release out of an archive that has passed the check of its checksum, where no
  -- file has changed since. The path of the cache is not that of the temporary file.
  pub spawn_engine-Origin :
      {port : ℕ}
      → M.faults.temp ≢ cache_path
      → (spawn_engine M state_dir args s).0 ≡ ok port
      → (path : String) × (http_port : ℕ) × ((spawn_engine M state_dir args s).1.acts
          ≡ s.acts
            ++ opened_log (state_dir <> "/conduit.log")
              ∷ spawned (command M path state_dir port http_port)
              ∷ [])
        × Origin path (spawn_engine M state_dir args s).1.host
  unfolding spawn_engine
  spawn_engine-Origin {port} apart e =
      let (path, found, same, e') = bind_returned (find_binary M args) launch s e in
      let (http_port, acts, host) = launch_returned path (find_binary M args s).1 e' in
      (
        path,
        http_port,
        ap (λ (r : Outcome ℕ × Supervised M.engine.State). r.1.acts) same
            ∙ acts
            ∙ ap
                (λ (before : List Act).
                  before
                  ++ opened_log (state_dir <> "/conduit.log")
                    ∷ spawned (command M path state_dir port http_port)
                    ∷ [])
                acts-find_binary,
        subst (Origin path)
            (sym (ap (λ (r : Outcome ℕ × Supervised M.engine.State). r.1.host) same ∙ host))
            (find_binary-Origin apart found),
      )

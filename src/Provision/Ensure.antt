-- ===== src/Provision/Ensure.antt =====
-- What `ensure_binary` leaves in the cache.
use conduit_client_python.Prelude.{
  ◌≡◌, ◌≢◌, refl, ◌∙◌, ap, ◌⊎◌, inl, inr, Option-cases, String, Option, none, some, [], ◌∷◌, ◌++◌,
  ◌<>◌,
}
use conduit_client_python.Errors.{Outcome, ok}
use conduit_client_python.Exec.{Exec, pure, lift, ◌>>=◌, ◌>>◌, bind_returned}
use conduit_client_python.Checksums.{Bytes, verify_checksum}
use conduit_client_python.Provision.{
  base_url, Surroundings, resolve_version, Triplet, platform_triplet, archive_name, binary_name,
  cached_binary_path, extract_binary, download, provision, ensure_binary,
}
use conduit_client_python.Install.{File, Faults, Host, install}
use conduit_client_python.Install.Moments.{complete, Always}
use conduit_client_python.Install.Atomic.{install_returned}
use conduit_client_python.Provision.Download.{Verified, download_returned}
use conduit_client_python.Provision.Safe.{IsVerified, checked_install, IsSafe-provision}

module _ (s : Surroundings) (faults : Faults) (version target : String) (h : Host)
    (apart : faults.temp ≢ target) where
  abbrev checked : String → Bytes × Bytes → Exec Host String
  checked = checked_install s faults version target h apart

  -- The target holds the complete binary of the release.
  abbrev IsInstalled : Host → Type 0
  IsInstalled h' =
      (binary : Bytes) × (h'.file target ≡ some (complete binary)) × Verified s h version binary

  abbrev file_at_target : Outcome String × Host → Option File
  file_at_target p = p.1.file target

  checked_install_returned :
      (archive : String) (archive_bytes checksums : Bytes) (w : Host) {path : String}
      → archive_name s version ≡ ok archive
      → s.http_get h.fetched (base_url version <> "/" <> archive) ≡ ok archive_bytes
      → s.http_get
          (h.fetched ++ (base_url version <> "/" <> archive) ∷ [])
          (base_url version <> "/checksums.txt")
        ≡ ok checksums
      → (checked archive (archive_bytes, checksums) w).0 ≡ ok path
      → (path ≡ target) × IsInstalled (checked archive (archive_bytes, checksums) w).1
  checked_install_returned archive archive_bytes checksums w named got_archive got_checksums e =
      let put = λ (binary : Bytes). (install faults binary target >> pure target) in
      let unpack = λ (triplet : Triplet).
        (lift (extract_binary s archive_bytes triplet.ext (binary_name s)) >>= put) in
      let (u, accepted, s₁, e₁) =
        bind_returned (lift (verify_checksum s.codec s.repr archive_bytes checksums archive))
          (λ _. lift (platform_triplet s) >>= unpack) w e in
      let (triplet, known, s₂, e₂) = bind_returned (lift (platform_triplet s)) unpack w e₁ in
      let (binary, extracted, s₃, e₃) =
        bind_returned (lift (extract_binary s archive_bytes triplet.ext (binary_name s))) put w
          e₂ in
      let (v, installed, s₄, e₄) =
        bind_returned (install faults binary target) (λ _. pure target) w e₃ in
      (
        cc e₄,
        (
          binary,
          ap file_at_target (s₁ ∙ s₂ ∙ s₃ ∙ s₄)
              ∙ install_returned faults binary target w apart installed,
          record {
            triplet = triplet;
            archive = archive;
            archive_bytes = archive_bytes;
            checksums = checksums;
            known = known;
            named = named;
            got_archive = got_archive;
            got_checksums = got_checksums;
            checked = accepted;
            extracted = extracted;
          },
        ),
      )

  provision_returned :
      {path : String}
      → (provision s faults version target h).0 ≡ ok path
      → (path ≡ target) × IsInstalled (provision s faults version target h).1
  unfolding provision
  provision_returned e =
      let (archive, named, s₁, e₁) =
        bind_returned (lift (archive_name s version))
          (λ archive. download s version archive >>= checked archive) h e in
      let (got, downloaded, s₂, e₂) =
        bind_returned (download s version archive) (checked archive) h e₁ in
      let (got_archive, got_checksums) = download_returned s version archive h downloaded in
      let w = (download s version archive h).1 in
      let (same, (binary, at_target, verified)) =
        checked_install_returned archive got.0 got.1 w named got_archive got_checksums e₂ in
      (same, (binary, ap file_at_target (s₁ ∙ s₂) ∙ at_target, verified))

module _ (s : Surroundings) (faults : Faults) (version : Option String) (h : Host)
    (apart : faults.temp ≢ cached_binary_path s (resolve_version s version)) where
  abbrev resolved : String
  resolved = resolve_version s version

  abbrev target_path : String
  target_path = cached_binary_path s resolved

  cached :
      (f : File)
      → h.file target_path ≡ some f
      → ensure_binary s faults version h ≡ (ok target_path, h)
  unfolding ensure_binary
  cached f e = rw (e, ensure_binary) refl

  fresh :
      h.file target_path ≡ none
      → ensure_binary s faults version h ≡ provision s faults resolved target_path h
  unfolding ensure_binary
  fresh e = rw (e, ensure_binary) refl

  -- Whatever the network answers and whichever calls fail, and whether it returns or raises: at
  -- every moment of `ensure_binary`, which is what a process killed on the way leaves, and at its end,
  -- the path of the binary, which the temporary file does not share, holds what it held before, or the
  -- whole binary of the release, executable, out of an archive that has passed the check of its
  -- checksum.
  pub ensure_binary_safe :
      h.past ≡ []
      → Always
          (IsVerified s faults resolved target_path h apart)
          (ensure_binary s faults version h).1
  ensure_binary_safe first = elim (Option-cases (h.file target_path)) [
    | inl e ↦ rw (fresh e) (IsSafe-provision s faults resolved target_path h apart first)
    | inr (f, e) ↦ rw (cached f e) (record { now = inl refl; past = rw first tt })
  ]

  -- When `ensure_binary` returns, with a temporary file apart from the path of the binary, it
  -- returns that path, and either a file was there, and it has asked the network for nothing and
  -- changed no file, or it has put there the whole binary of the release, executable, out of an
  -- archive that has passed the check of its checksum.
  pub ensure_binary_returned :
      {path : String}
      → (ensure_binary s faults version h).0 ≡ ok path
      → (path ≡ target_path)
        × (((f : File) × (h.file target_path ≡ some f) × ((ensure_binary s faults version h).1 ≡ h))
            ⊎ ((binary : Bytes) × ((ensure_binary s faults version h).1.file target_path
                  ≡ some (complete binary))
                × Verified s h resolved binary))
  ensure_binary_returned e = elim (Option-cases (h.file target_path)) [
    | inl absent ↦
        let (same, placed) =
          provision_returned s faults resolved target_path h apart (rw (fresh absent) at e) in
        (same, inr (rw (fresh absent) placed))
    | inr (f, found) ↦
        let e' = rw (cached f found) at e in (cc e', inl (f, found, rw (cached f found) refl))
  ]

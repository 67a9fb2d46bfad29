-- ===== src/Provision/Safe.antt =====
-- The target of `ensure_binary` at every moment of a provisioning.
use conduit_client_python.Prelude.{
  ◌≡◌, ◌≢◌, refl, ◌∙◌, ap, ◌⊎◌, inl, inr, String, Option, some, [], ◌∷◌, ◌++◌, ◌<>◌,
}
use conduit_client_python.Errors.{ok, Outcome-cases}
use conduit_client_python.Exec.{Exec, pure, lift, ◌>>=◌, ◌>>◌}
use conduit_client_python.Checksums.{Bytes, verify_checksum}
use conduit_client_python.Provision.{
  base_url, Surroundings, platform_triplet, archive_name, binary_name, extract_binary, download,
  provision,
}
use conduit_client_python.Install.{File, Faults, Host, install}
use conduit_client_python.Install.Moments.{complete, Always, Always-weaken, IsWhole, Always-install}
use conduit_client_python.Provision.Download.{
  Verified, file-download, past-download, download_returned,
}

module _ (s : Surroundings) (faults : Faults) (version target : String) (h : Host)
    (apart : faults.temp ≢ target) where
  -- The target as it was before, or the complete binary of the release.
  abbrev pub IsVerified : (String → Option File) → Type 0
  IsVerified files =
      (files target ≡ h.file target)
      ⊎ ((binary : Bytes) × (files target ≡ some (complete binary)) × Verified s h version binary)

  -- The same at every moment.
  abbrev pub IsSafe : Host → Type 0
  IsSafe h' = Always IsVerified h'

  -- Nothing has been done to the files yet.
  abbrev IsUntouched : Host → Type 0
  IsUntouched w = (w.file target ≡ h.file target) × (w.past ≡ [])

  IsSafe-IsUntouched : (w : Host) → IsUntouched w → IsSafe w
  IsSafe-IsUntouched w (same, first) = record { now = inl same; past = rw first tt }

  same_target : (archive : String) → (download s version archive h).1.file target ≡ h.file target
  same_target archive =
      ap (λ (f : String → Option File). f target) (file-download s version archive h)

  -- What is left to do once the archive and the checksums are there.
  abbrev pub checked_install : String → Bytes × Bytes → Exec Host String
  checked_install archive (archive_bytes, checksums) = do
    lift (verify_checksum s.codec s.repr archive_bytes checksums archive)
    triplet ← lift (platform_triplet s)
    binary ← lift (extract_binary s archive_bytes triplet.ext (binary_name s))
    install faults binary target
    pure target

  IsSafe-install :
      (binary : Bytes) (w : Host)
      → IsUntouched w
      → Verified s h version binary
      → IsSafe ((install faults binary target >> pure target) w).1
  IsSafe-install binary w (same, first) verified =
      let kept =
        Always-install faults binary target (h.file target) apart w
          (record { now = inl same; past = rw first tt }) in
      let safe =
        Always-weaken (IsWhole faults binary target (h.file target) apart) IsVerified placed _
          kept in
      elim (Outcome-cases (install faults binary target w).0) [
        | inl (u, e) ↦ rw e safe
        | inr (x, e) ↦ rw e safe
      ]
    where
      placed :
          (files : String → Option File)
          → IsWhole faults binary target (h.file target) apart files
          → IsVerified files
      placed files (inl kept) = inl kept
      placed files (inr done) = inr (binary, done, verified)

  IsUntouched-download :
      (archive : String) → h.past ≡ [] → IsUntouched (download s version archive h).1
  IsUntouched-download archive first =
      (same_target archive, past-download s version archive h ∙ first)

  IsSafe-checked_install :
      (archive : String) (archive_bytes checksums : Bytes) (w : Host)
      → IsUntouched w
      → archive_name s version ≡ ok archive
      → s.http_get h.fetched (base_url version <> "/" <> archive) ≡ ok archive_bytes
      → s.http_get
          (h.fetched ++ (base_url version <> "/" <> archive) ∷ [])
          (base_url version <> "/checksums.txt")
        ≡ ok checksums
      → IsSafe (checked_install archive (archive_bytes, checksums) w).1
  IsSafe-checked_install archive archive_bytes checksums w kept named got_archive got_checksums =
      elim (Outcome-cases (verify_checksum s.codec s.repr archive_bytes checksums archive)) [
        | inr (x, e) ↦ rw e (IsSafe-IsUntouched w kept)
        | inl (u, checked) ↦ rw checked (elim (Outcome-cases (platform_triplet s)) [
          | inr (x, e) ↦ rw e (IsSafe-IsUntouched w kept)
          | inl (triplet, known) ↦
              rw known
                (elim (Outcome-cases (extract_binary s archive_bytes triplet.ext (binary_name s))) [
                  | inr (x, e) ↦ rw e (IsSafe-IsUntouched w kept)
                  | inl (binary, extracted) ↦ rw extracted (
                      IsSafe-install binary w kept (record {
                        triplet = triplet;
                        archive = archive;
                        archive_bytes = archive_bytes;
                        checksums = checksums;
                        known = known;
                        named = named;
                        got_archive = got_archive;
                        got_checksums = got_checksums;
                        checked = checked;
                        extracted = extracted;
                      }))
                ])
        ])
      ]

  pub IsSafe-provision : h.past ≡ [] → IsSafe (provision s faults version target h).1
  unfolding provision
  IsSafe-provision first = elim (Outcome-cases (archive_name s version)) [
    | inr (x, e) ↦ rw e (IsSafe-IsUntouched h (refl, first))
    | inl (archive, named) ↦ rw named (elim (Outcome-cases (download s version archive h).0) [
      | inr (x, e) ↦ rw e (IsSafe-IsUntouched _ (IsUntouched-download archive first))
      | inl (got, e) ↦
          let (got_archive, got_checksums) = download_returned s version archive h e in
          rw e (
            IsSafe-checked_install archive got.0 got.1 (download s version archive h).1
              (IsUntouched-download archive first) named got_archive got_checksums)
    ])
  ]

-- ===== src/Tests/Provision.antt =====
-- The provisioning of a release on small hosts.
use conduit_client_python.Prelude.{
  ◌≡◌, ◌≢◌, refl, ◌⊎◌, inl, String, Option, none, some, [], ◌∷◌, arith, eq_iff, after_prefix,
  removeprefix, lower,
}
use conduit_client_python.Prelude.Split.{base_name, splitlines, split, is_break, is_space}
use conduit_client_python.Errors.{ok, raised}
use conduit_client_python.Checksums.{
  Bytes, find_expected, digest_in, compare_digest, verify_checksum,
}
use conduit_client_python.Provision.{
  resolve_version, goreleaser_os, goreleaser_arch, platform_triplet, archive_name, binary_name,
  cache_dir, cached_binary_path, unsupported, extract_binary, find_in_tar, http_get, download,
  provision, ensure_binary,
}
use conduit_client_python.Install.{File, FsCall, write_temp, Faults, install, fill_and_move}
use conduit_client_python.Provision.Platform.{ensure_binary_foreign}
use conduit_client_python.Install.Moments.{complete, Always, IsWhole}
use conduit_client_python.Install.Atomic.{install_atomic}
use conduit_client_python.Provision.Download.{Verified}
use conduit_client_python.Provision.Safe.{IsVerified}
use conduit_client_python.Provision.Ensure.{ensure_binary_safe, ensure_binary_returned}
use conduit_client_python.Tests.Network.{host_of, empty_host, no_faults}

abbrev pub full_disk : FsCall → Option String
full_disk write_temp = some "No space left on device"
full_disk _ = none

abbrev faulty : Faults
faulty = record { fails = full_disk; partial = 7 ∷ []; temp = "/tmp/x" }

ensure_binary_foreign_example :
    ensure_binary (host_of "Haiku") no_faults none empty_host
    ≡ (raised (unsupported (host_of "Haiku")), empty_host)
ensure_binary_foreign_example =
    ensure_binary_foreign (host_of "Haiku") no_faults none empty_host
      (inl (
        ground (arith, eq_iff "Haiku" "Darwin"),
        (ground (arith, eq_iff "Haiku" "Linux"), (ground (arith, eq_iff "Haiku" "Windows"), tt)),
      ))
      refl

pub apart_texts : ◌≢◌ {A = String} "/tmp/x" "/bin/conduit"
apart_texts = ground (arith, eq_iff "/tmp/x" "/bin/conduit")

install_atomic_example :
    Always
      (IsWhole faulty (7 ∷ 8 ∷ []) "/bin/conduit" none apart_texts)
      (install faulty (7 ∷ 8 ∷ []) "/bin/conduit" empty_host).1
    × ((install faulty (7 ∷ 8 ∷ []) "/bin/conduit" empty_host).1.file "/etc/passwd" ≡ none)
    × (((install faulty (7 ∷ 8 ∷ []) "/bin/conduit" empty_host).1.file "/tmp/x" ≡ none)
        ⊎ ((text : String) × (◌≡◌ {A = Option String} none (some text))))
install_atomic_example =
    install_atomic faulty (7 ∷ 8 ∷ []) "/bin/conduit" empty_host apart_texts "/etc/passwd"
      (ground (arith, eq_iff "/etc/passwd" "/bin/conduit"))
      (ground (arith, eq_iff "/etc/passwd" "/tmp/x")) refl refl

path_known :
    cached_binary_path (host_of "Linux") (resolve_version (host_of "Linux") none)
    ≡ "/cache/bin/0.18.0/conduit"
unfolding cached_binary_path cache_dir binary_name resolve_version removeprefix after_prefix
path_known = refl

pub apart_path :
    "/tmp/x" ≢ cached_binary_path (host_of "Linux") (resolve_version (host_of "Linux") none)
apart_path = rw path_known (ground (arith, eq_iff "/tmp/x" "/cache/bin/0.18.0/conduit"))

ensure_binary_safe_example :
    Always
      (IsVerified
        (host_of "Linux")
        faulty
        (resolve_version (host_of "Linux") none)
        (cached_binary_path (host_of "Linux") (resolve_version (host_of "Linux") none))
        empty_host
        apart_path)
      (ensure_binary (host_of "Linux") faulty none empty_host).1
ensure_binary_safe_example =
    ensure_binary_safe (host_of "Linux") faulty none empty_host apart_path refl

provisions :
    (ensure_binary (host_of "Linux") no_faults none empty_host).0 ≡ ok "/cache/bin/0.18.0/conduit"
unfolding ensure_binary provision archive_name platform_triplet goreleaser_os goreleaser_arch lower
    download http_get verify_checksum find_expected compare_digest digest_in splitlines split
    extract_binary find_in_tar install fill_and_move cached_binary_path cache_dir binary_name
    resolve_version removeprefix after_prefix base_name is_break is_space
provisions = refl

ensure_binary_returned_example :
    ("/cache/bin/0.18.0/conduit"
      ≡ cached_binary_path (host_of "Linux") (resolve_version (host_of "Linux") none))
    × (((f : File) × (◌≡◌ {A = Option File} none (some f))
          × ((ensure_binary (host_of "Linux") no_faults none empty_host).1 ≡ empty_host))
        ⊎ ((binary : Bytes) × ((ensure_binary (host_of "Linux") no_faults none empty_host).1.file
                (cached_binary_path (host_of "Linux") (resolve_version (host_of "Linux") none))
              ≡ some (complete binary))
            × Verified
                (host_of "Linux")
                empty_host
                (resolve_version (host_of "Linux") none)
                binary))
ensure_binary_returned_example =
    ensure_binary_returned (host_of "Linux") no_faults none empty_host apart_path provisions

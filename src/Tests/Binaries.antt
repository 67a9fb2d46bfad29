-- ===== src/Tests/Binaries.antt =====
-- A start that provisions its binary.
use conduit_client_python.Prelude.{
  ℕ, ◌≡◌, refl, String, none, [], ◌∷◌, after_prefix, removeprefix, lower,
}
use conduit_client_python.Prelude.Split.{splitlines, split, is_break, is_space, base_name}
use conduit_client_python.Errors.{ok}
use conduit_client_python.Checksums.{find_expected, digest_in, compare_digest, verify_checksum}
use conduit_client_python.Install.{install, fill_and_move}
use conduit_client_python.Provision.{
  resolve_version, goreleaser_os, goreleaser_arch, platform_triplet, archive_name, binary_name,
  cache_dir, cached_binary_path, extract_binary, find_in_tar, http_get, download, provision,
  ensure_binary,
}
use conduit_client_python.Process.{opened_log, spawned}
use conduit_client_python.Local.Launch.{LocalArgs, command, spawn_engine, find_binary, free_port}
use conduit_client_python.Local.Binary.{Origin, spawn_engine-Origin}
use conduit_client_python.Tests.Provision.{apart_path}
use conduit_client_python.Tests.Supervision.{machine, args, idle}

abbrev provisioned : LocalArgs
provisioned = record args { binary = none }

spawns : (spawn_engine (machine none) "/state" provisioned idle).0 ≡ ok 8000
unfolding spawn_engine find_binary free_port ensure_binary provision archive_name platform_triplet
    goreleaser_os goreleaser_arch lower download http_get verify_checksum find_expected
    compare_digest digest_in splitlines split extract_binary find_in_tar install fill_and_move
    cached_binary_path cache_dir binary_name resolve_version removeprefix after_prefix base_name
    is_break is_space
spawns = refl

spawn_engine-Origin_example :
    (path : String) × (http_port : ℕ) × ((spawn_engine
        (machine none)
        "/state"
        provisioned
        idle).1.acts
      ≡ opened_log "/state/conduit.log"
        ∷ spawned (command (machine none) path "/state" 8000 http_port)
        ∷ [])
    × Origin
        (machine none)
        "/state"
        provisioned
        idle
        path
        (spawn_engine (machine none) "/state" provisioned idle).1.host
spawn_engine-Origin_example =
    spawn_engine-Origin (machine none) "/state" provisioned idle apart_path spawns

-- ===== src/Provision/Platform.antt =====
-- Which hosts a release asset is known for, and the parts of its name.
use conduit_client_python.Prelude.{
  ◌≡◌, ◌≢◌, refl, ◌⊎◌, inl, inr, String, Option, none, some, [], ◌∷◌, arith, eq_iff, All, lower,
}
use conduit_client_python.Errors.{ok, raised}
use conduit_client_python.Provision.{
  Surroundings, resolve_version, goreleaser_os, goreleaser_arch, Triplet, triplet_of, unsupported,
  platform_triplet, archive_name, binary_name, cached_binary_path, provision, ensure_binary,
}
use conduit_client_python.Install.{Faults, Host}

goreleaser_os-eq : (system : String) {os : String} → goreleaser_os system ≡ some os → os ≡ system
unfolding goreleaser_os
goreleaser_os-eq system h =
    ground (arith, eq_iff system "Darwin", eq_iff system "Linux", eq_iff system "Windows")

goreleaser_arch_known :
    (machine : String) {arch : String}
    → goreleaser_arch machine ≡ some arch
    → (arch ≡ "x86_64") ⊎ (arch ≡ "arm64")
unfolding goreleaser_arch
goreleaser_arch_known machine h = ground arith

-- A triplet that is returned names the host's own system and one of two architectures, and goes
-- with the name of the binary: a zip archive with `conduit.exe`, or a tar.gz with `conduit`.
pub platform_triplet_lem :
    (s : Surroundings) {t : Triplet}
    → platform_triplet s ≡ ok t
    → (t.os ≡ s.system)
      × ((t.arch ≡ "x86_64") ⊎ (t.arch ≡ "arm64"))
      × (((t.ext ≡ "zip") × (binary_name s ≡ "conduit.exe"))
          ⊎ ((t.ext ≡ "tar.gz") × (binary_name s ≡ "conduit")))
unfolding platform_triplet binary_name
platform_triplet_lem s {t} h =
    of_parts (goreleaser_os s.system) (goreleaser_arch (lower s.machine)) refl refl h
  where
    of_parts :
        (os arch : Option String)
        → goreleaser_os s.system ≡ os
        → goreleaser_arch (lower s.machine) ≡ arch
        → triplet_of s os arch ≡ ok t
        → (t.os ≡ s.system)
          × ((t.arch ≡ "x86_64") ⊎ (t.arch ≡ "arm64"))
          × (((t.ext ≡ "zip") × (binary_name s ≡ "conduit.exe"))
              ⊎ ((t.ext ≡ "tar.gz") × (binary_name s ≡ "conduit")))
    of_parts none arch e e' k = cc
    of_parts (some os) none e e' k = cc
    of_parts (some os) (some arch) e e' k =
        ground (arith, goreleaser_os-eq s.system e, goreleaser_arch_known (lower s.machine) e')

-- The host is none of the systems or of the machines that assets are published for.
abbrev pub IsForeign : Surroundings → Type 0
IsForeign s =
    All (λ (os : String). s.system ≢ os) ("Darwin" ∷ "Linux" ∷ "Windows" ∷ [])
    ⊎ All (λ (machine : String). lower s.machine ≢ machine)
        ("x86_64" ∷ "amd64" ∷ "arm64" ∷ "aarch64" ∷ [])

goreleaser_os-none :
    (system : String)
    → All (λ (os : String). system ≢ os) ("Darwin" ∷ "Linux" ∷ "Windows" ∷ [])
    → goreleaser_os system ≡ none
unfolding goreleaser_os
goreleaser_os-none system h =
    ground (arith, eq_iff system "Darwin", eq_iff system "Linux", eq_iff system "Windows")

goreleaser_arch-none :
    (machine : String)
    → All (λ (m : String). machine ≢ m) ("x86_64" ∷ "amd64" ∷ "arm64" ∷ "aarch64" ∷ [])
    → goreleaser_arch machine ≡ none
unfolding goreleaser_arch
goreleaser_arch-none machine h = ground (
  arith,
  eq_iff machine "x86_64",
  eq_iff machine "amd64",
  eq_iff machine "arm64",
  eq_iff machine "aarch64",
)

no_arch : (s : Surroundings) (os : Option String) → triplet_of s os none ≡ raised (unsupported s)
no_arch s none = refl
no_arch s (some os) = refl

platform_triplet_foreign :
    (s : Surroundings) → IsForeign s → platform_triplet s ≡ raised (unsupported s)
unfolding platform_triplet
platform_triplet_foreign s (inl h) = rw (goreleaser_os-none s.system h) refl
platform_triplet_foreign s (inr h) =
    rw (goreleaser_arch-none (lower s.machine) h) (no_arch s (goreleaser_os s.system))

-- On a host that is none of the systems, or none of the machines, that assets are published for,
-- and where no binary is cached, `ensure_binary` raises `client.unsupported_platform`, and has
-- asked the network for nothing and changed no file.
pub ensure_binary_foreign :
    (s : Surroundings) (faults : Faults) (version : Option String) (h : Host)
    → IsForeign s
    → h.file (cached_binary_path s (resolve_version s version)) ≡ none
    → ensure_binary s faults version h ≡ (raised (unsupported s), h)
unfolding ensure_binary provision archive_name
ensure_binary_foreign s faults version h foreign absent =
    rw (absent, ensure_binary, platform_triplet_foreign s foreign) refl

-- ===== src/Provision.antt =====
-- conduit/_provision.py: which release asset a host needs, its download, check and extraction, and
-- `ensure_binary` over them. The network, the archive formats and the codec are parameters.
pub mod Version
pub mod Platform
pub mod Download
pub mod Safe
pub mod Ensure
use conduit_client_python.Prelude.{
  String, Bool, true, false, Option, none, some, List, [], ◌∷◌, ◌++◌, ◌<>◌, ◌==◌, ◌&&◌, or_text,
  or_default, removeprefix, lower, if◌then◌else◌,
}
use conduit_client_python.Prelude.Split.{base_name}
use conduit_client_python.Errors.{
  Exception, conduit, os_error, client_error, Outcome, ok, raised, ◌>>=◌ as outcome_bind,
}
use conduit_client_python.Exec.{Exec, pure, raise, lift, ◌>>=◌, ◌>>◌}
use conduit_client_python.Checksums.{Bytes, Codec, verify_checksum}
use conduit_client_python.Install.{Faults, Host, install}

abbrev pub default_conduit_version : String
default_conduit_version = "0.18.0"

abbrev pub github_releases : String
github_releases = "https://github.com/ConduitIO/conduit/releases/download"

-- An entry of a tar archive: its name, `isfile()`, and what a read of what
-- `extractfile` gives returns, if it gives anything.
pub record Member : Type 0 where
  pub name : String
  pub is_file : Bool
  pub extracted : Option (Outcome Bytes)

-- What the module asks of its surroundings.
pub record Surroundings : Type 0 where
  -- `platform.system()`, `platform.machine()`
  pub system : String
  pub machine : String
  -- the variable CONDUIT_CLIENT_ENGINE_VERSION, if it is set
  pub version_variable : Option String
  -- `platformdirs.user_cache_dir("conduit-client-python")`
  pub user_cache_dir : String
  -- the answer to a GET, after the requests that were made before it
  pub http_get : List String → String → Outcome Bytes
  pub codec : Codec
  -- `!r` of a text
  pub repr : String → String
  -- `namelist()` and `read(name)` of a zip archive, `getmembers()` of a tar.gz
  pub zip_names : Bytes → Outcome (List String)
  pub zip_read : Bytes → String → Outcome Bytes
  pub tar_members : Bytes → Outcome (List Member)

-- `resolve_version`
unfoldable pub resolve_version : Surroundings → Option String → String
resolve_version s version =
    removeprefix
      (or_text (or_default version "")
        (or_text (or_default s.version_variable "") default_conduit_version))
      "v"

-- `os_map.get(system)`
unfoldable pub goreleaser_os : String → Option String
goreleaser_os system =
    if system == "Darwin"
    then some "Darwin"
    else if system == "Linux"
    then some "Linux"
    else if system == "Windows"
    then some "Windows"
    else none

-- `arch_map.get(machine)`
unfoldable pub goreleaser_arch : String → Option String
goreleaser_arch machine =
    if machine == "x86_64"
    then some "x86_64"
    else if machine == "amd64"
    then some "x86_64"
    else if machine == "arm64"
    then some "arm64"
    else if machine == "aarch64"
    then some "arm64"
    else none

pub record Triplet : Type 0 where
  pub os : String
  pub arch : String
  pub ext : String

abbrev pub unsupported : Surroundings → Exception
unsupported s = conduit (
    client_error
      ("no published conduit release asset known for platform system="
        <> s.repr s.system
        <> " machine="
        <> s.repr (lower s.machine)
        <> ". Supported: ['Darwin', 'Linux', 'Windows'] x ['arm64', 'x86_64'].")
      "client.unsupported_platform")

abbrev triplet_of : Surroundings → Option String → Option String → Outcome Triplet
triplet_of s (some os) (some arch) =
    ok (record { os = os; arch = arch; ext = if os == "Windows" then "zip" else "tar.gz" })
triplet_of s _ _ = raised (unsupported s)

-- `_platform_triplet`
unfoldable pub platform_triplet : Surroundings → Outcome Triplet
platform_triplet s = triplet_of s (goreleaser_os s.system) (goreleaser_arch (lower s.machine))

-- `_archive_name`
unfoldable pub archive_name : Surroundings → String → Outcome String
archive_name s version =
    outcome_bind (platform_triplet s)
      λ t. ok ("conduit_" <> version <> "_" <> t.os <> "_" <> t.arch <> "." <> t.ext)

-- `_binary_name`
unfoldable pub binary_name : Surroundings → String
binary_name s = if s.system == "Windows" then "conduit.exe" else "conduit"

-- `cache_dir`
unfoldable pub cache_dir : Surroundings → String → String
cache_dir s version = s.user_cache_dir <> "/bin/" <> version

-- `cached_binary_path`
unfoldable pub cached_binary_path : Surroundings → String → String
cached_binary_path s version = cache_dir s version <> "/" <> binary_name s

abbrev pub malformed : Surroundings → String → Exception
malformed s name = conduit (
    client_error
      ("archive did not contain a "
        <> s.repr name
        <> " entry -- release asset layout may have changed; this client's extraction logic needs updating.")
      "client.malformed_release_asset")

-- The loop over `zf.namelist()`: the first name that fits.
unfoldable pub find_in_zip : String → List String → Option String
find_in_zip binary [] = none
find_in_zip binary (name ∷ rest) =
    if base_name name == binary then some name else find_in_zip binary rest

-- The loop over `tf.getmembers()`. A member that `extractfile` gives nothing for is passed over.
unfoldable pub find_in_tar : String → List Member → Option (Outcome Bytes)
find_in_tar binary [] = none
find_in_tar binary (m ∷ rest) =
    let later = find_in_tar binary rest in
    if base_name m.name == binary && m.is_file
    then elim (m.extracted) [ none ↦ later | some read ↦ some read ]
    else later

abbrev pub read_zip : Surroundings → Bytes → String → Option String → Outcome Bytes
read_zip s archive binary none = raised (malformed s binary)
read_zip s archive binary (some name) = s.zip_read archive name

abbrev pub read_tar : Surroundings → String → Option (Outcome Bytes) → Outcome Bytes
read_tar s binary none = raised (malformed s binary)
read_tar s binary (some read) = read

-- `_extract_binary`
unfoldable pub extract_binary : Surroundings → Bytes → String → String → Outcome Bytes
extract_binary s archive ext binary =
    if ext == "zip"
    then outcome_bind (s.zip_names archive)
        (λ names. read_zip s archive binary (find_in_zip binary names))
    else outcome_bind (s.tar_members archive)
        (λ members. read_tar s binary (find_in_tar binary members))

-- `_http_get`
unfoldable pub http_get : Surroundings → String → Exec Host Bytes
http_get s url h = (s.http_get h.fetched url, record h { fetched = h.fetched ++ url ∷ [] })

abbrev pub download_failed : String → String → String → Exception
download_failed version archive text = conduit (
    client_error
      ("failed to download conduit v" <> version <> " release asset (" <> archive
        <> ") from GitHub Releases: " <> text)
      "client.download_failed")

-- `except OSError as e: raise ConduitError(…)`
abbrev pub wrap_os_error {ℓ} : {A : Type ℓ} → (String → Exception) → Outcome A → Outcome A
wrap_os_error f (raised (os_error text)) = raised (f text)
wrap_os_error f r = r

abbrev pub base_url : String → String
base_url version = github_releases <> "/v" <> version

-- The two downloads, under their `try`.
unfoldable pub download : Surroundings → String → String → Exec Host (Bytes × Bytes)
unfolding http_get
download s version archive h =
    let (r, h') =
      (do
        archive_bytes ← http_get s (base_url version <> "/" <> archive)
        checksums_bytes ← http_get s (base_url version <> "/checksums.txt")
        pure (archive_bytes, checksums_bytes))
        h in
    (wrap_os_error (download_failed version archive) r, h')

-- What `ensure_binary` does when the target is not there.
unfoldable pub provision : Surroundings → Faults → String → String → Exec Host String
provision s faults version target = do
  archive ← lift (archive_name s version)
  (archive_bytes, checksums_bytes) ← download s version archive
  lift (verify_checksum s.codec s.repr archive_bytes checksums_bytes archive)
  triplet ← lift (platform_triplet s)
  binary ← lift (extract_binary s archive_bytes triplet.ext (binary_name s))
  install faults binary target
  pure target

-- `ensure_binary`
unfoldable pub ensure_binary : Surroundings → Faults → Option String → Exec Host String
ensure_binary s faults version h =
    let resolved = resolve_version s version in
    let target = cached_binary_path s resolved in
    elim (h.file target) [ some _ ↦ (ok target, h) | none ↦ provision s faults resolved target h ]

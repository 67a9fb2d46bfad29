-- ===== src/Tests/Network.antt =====
-- A small network, and a host without files.
use conduit_client_python.Prelude.{String, true, none, some, [], ◌∷◌}
use conduit_client_python.Errors.{ok}
use conduit_client_python.Provision.{Surroundings}
use conduit_client_python.Install.{Faults, Host}

abbrev digest_line : String
digest_line = "ab12  conduit_0.18.0_Linux_x86_64.tar.gz\n"

-- A host of a system, with a network that answers each request with one byte.
abbrev pub host_of : String → Surroundings
host_of system = record {
  system = system;
  machine = "AMD64";
  version_variable = some "v0.18.0";
  user_cache_dir = "/cache";
  http_get = λ fetched url. ok (1 ∷ []);
  codec = record { sha256 = λ b. "ab12"; decode = λ b. ok digest_line };
  repr = λ s. s;
  zip_names = λ b. ok [];
  zip_read = λ b name. ok [];
  tar_members = λ b. ok (
      record { name = "LICENSE"; is_file = true; extracted = some (ok []) }
      ∷ record { name = "conduit"; is_file = true; extracted = some (ok (7 ∷ [])) }
      ∷ []);
}

abbrev pub empty_host : Host
empty_host = record { file = λ p. none; fetched = []; past = [] }

abbrev pub no_faults : Faults
no_faults = record { fails = λ c. none; partial = []; temp = "/tmp/x" }

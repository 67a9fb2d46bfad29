-- ===== src/Provision/Download.antt =====
-- What the downloads of `ensure_binary` give.
use conduit_client_python.Prelude.{◌≡◌, String, [], ◌∷◌, ◌++◌, ◌<>◌, arith}
use conduit_client_python.Errors.{ok}
use conduit_client_python.Checksums.{Bytes, verify_checksum}
use conduit_client_python.Provision.{
  base_url, Surroundings, Triplet, platform_triplet, archive_name, binary_name, extract_binary,
  download,
}
use conduit_client_python.Install.{Host}

-- The binary of a version as a release publishes it: what the archive holds that the network
-- answered with, once that has passed the check against the checksums that it answered with.
pub record Verified (s : Surroundings) (h : Host) (version : String) (binary : Bytes) : Type 0 where
  pub triplet : Triplet
  pub archive : String
  pub archive_bytes : Bytes
  pub checksums : Bytes
  pub known : platform_triplet s ≡ ok triplet
  pub named : archive_name s version ≡ ok archive
  pub got_archive : s.http_get h.fetched (base_url version <> "/" <> archive) ≡ ok archive_bytes
  pub got_checksums :
      s.http_get
        (h.fetched ++ (base_url version <> "/" <> archive) ∷ [])
        (base_url version <> "/checksums.txt")
      ≡ ok checksums
  pub checked : verify_checksum s.codec s.repr archive_bytes checksums archive ≡ ok tt
  pub extracted : extract_binary s archive_bytes triplet.ext (binary_name s) ≡ ok binary

module _ (s : Surroundings) (version archive : String) (h : Host) where
  pub file-download : (download s version archive h).1.file ≡ h.file
  unfolding download
  file-download = ground arith

  pub past-download : (download s version archive h).1.past ≡ h.past
  unfolding download
  past-download = ground arith

  pub download_returned :
      {got : Bytes × Bytes}
      → (download s version archive h).0 ≡ ok got
      → (s.http_get h.fetched (base_url version <> "/" <> archive) ≡ ok got.0)
        × (s.http_get
              (h.fetched ++ (base_url version <> "/" <> archive) ∷ [])
              (base_url version <> "/checksums.txt")
            ≡ ok got.1)
  unfolding download
  download_returned {got} e = ground arith

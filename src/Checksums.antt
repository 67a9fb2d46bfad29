-- ===== src/Checksums.antt =====
-- `_verify_checksum` of conduit/_provision.py. SHA-256 and the decoding of UTF-8 are parameters.
pub mod Listing
use conduit_client_python.Prelude.{
  ℕ, String, Bool, Option, none, some, List, [], ◌∷◌, ◌<>◌, ◌==◌, ◌&&◌, if◌then◌else◌,
}
use conduit_client_python.Prelude.Split.{splitlines, split}
use conduit_client_python.Errors.{Exception, conduit, client_error, Outcome, ok, raised, ◌>>=◌}

abbrev pub Bytes : Type 0
Bytes = List ℕ

-- `len(parts) == 2 and parts[1] == archive_name`, with `parts[0]`.
unfoldable pub digest_in : String → List String → Option String
digest_in archive_name (digest ∷ name ∷ []) = if name == archive_name then some digest else none
digest_in archive_name _ = none

abbrev pub or_later : Option String → Option String → Option String
or_later (some digest) later = some digest
or_later none later = later

-- The loop over the lines, up to its `break`.
unfoldable pub find_expected : String → List String → Option String
unfolding digest_in split
find_expected archive_name [] = none
find_expected archive_name (line ∷ lines) =
    or_later (digest_in archive_name (split line)) (find_expected archive_name lines)

-- The standard library's functions on bytes.
pub record Codec : Type 0 where
  -- `hashlib.sha256(b).hexdigest()`
  pub sha256 : Bytes → String
  -- `b.decode("utf-8")`
  pub decode : Bytes → Outcome String

abbrev pub mismatch : String → Exception
mismatch message = conduit (client_error message "client.checksum_mismatch")

-- The tests behind the loop.
unfoldable pub compare_digest :
    (String → String) → String → String → Option String → Outcome (Unit {0})
compare_digest repr archive_name actual none = raised (
    mismatch (
      repr archive_name
      <> " not listed in the release's checksums.txt -- refusing to trust an unverifiable download."))
compare_digest repr archive_name actual (some expected) =
    if actual == expected
    then ok tt
    else raised (
        mismatch (
          "checksum mismatch for "
          <> repr archive_name
          <> ": expected "
          <> expected
          <> ", got "
          <> actual
          <> ". Refusing to use a download that doesn't match the published release checksum."))

-- `_verify_checksum`; `repr` is `!r` of a text.
unfoldable pub verify_checksum :
    Codec → (String → String) → Bytes → Bytes → String → Outcome (Unit {0})
unfolding find_expected compare_digest splitlines
verify_checksum codec repr archive_bytes checksums_txt archive_name = do
  text ← codec.decode checksums_txt
  compare_digest repr archive_name (codec.sha256 archive_bytes)
      (find_expected archive_name (splitlines text))

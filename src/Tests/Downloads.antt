-- ===== src/Tests/Downloads.antt =====
-- Releases, as a small network publishes them.
use conduit_client_python.Prelude.{◌≡◌, refl, some, [], ◌∷◌, arith, eq_iff, ◌↔◌}
use conduit_client_python.Errors.{ok}
use conduit_client_python.Prelude.Split.{is_space}
use conduit_client_python.Checksums.{Codec, verify_checksum}
use conduit_client_python.Checksums.Listing.{listing, digest_of, verify_checksum-listing}

abbrev codec : Codec
codec = record {
  sha256 = λ b. "ab12";
  decode = λ b. ok (listing (("ab12", "conduit_1.tar.gz") ∷ []));
}

verify_checksum-listing_example :
    (verify_checksum codec (λ s. s) [] [] "conduit_1.tar.gz" ≡ ok tt)
    ↔ (digest_of "conduit_1.tar.gz" (("ab12", "conduit_1.tar.gz") ∷ []) ≡ some "ab12")
unfolding is_space
verify_checksum-listing_example =
    verify_checksum-listing codec (λ s. s) [] [] "conduit_1.tar.gz"
      (("ab12", "conduit_1.tar.gz") ∷ []) refl
      (ground (arith, eq_iff "ab12" "", eq_iff "conduit_1.tar.gz" ""))

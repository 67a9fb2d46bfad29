-- ===== src/Install/Atomic.antt =====
-- The installation of a binary, whatever calls on the file system fail.
use conduit_client_python.Prelude.{
  ◌≡◌, ◌≢◌, refl, [], ◌⊎◌, inl, inr, Option-cases, String, none, some, arith, eq_iff,
}
use conduit_client_python.Errors.{ok}
use conduit_client_python.Checksums.{Bytes}
use conduit_client_python.Install.{unlink_temp, Faults, Host, install}
use conduit_client_python.Install.Moments.{complete, Always, IsWhole, Always-install}

module _ (faults : Faults) (binary : Bytes) (target : String) (h : Host)
    (apart : faults.temp ≢ target) where
  -- An installation that returned has put the complete file at the target.
  pub install_returned :
      (install faults binary target h).0 ≡ ok tt
      → (install faults binary target h).1.file target ≡ some (complete binary)
  unfolding install
  install_returned e = ground (
    arith,
    eq_iff faults.temp target,
    eq_iff target faults.temp,
    eq_iff target target,
    eq_iff faults.temp faults.temp,
  )

  elsewhere :
      (p : String)
      → p ≢ target
      → p ≢ faults.temp
      → (install faults binary target h).1.file p ≡ h.file p
  unfolding install
  elsewhere p p≢target p≢temp = ground (arith, eq_iff p target, eq_iff p faults.temp)

  fetched-install : (install faults binary target h).1.fetched ≡ h.fetched
  unfolding install
  fetched-install = ground arith

  temp_after :
      faults.fails unlink_temp ≡ none
      → h.file faults.temp ≡ none
      → (install faults binary target h).1.file faults.temp ≡ none
  unfolding install
  temp_after unlinks fresh =
      ground (arith, eq_iff faults.temp target, eq_iff faults.temp faults.temp)

  Always-IsWhole :
      h.past ≡ []
      → Always
          (IsWhole faults binary target (h.file target) apart)
          (install faults binary target h).1
  Always-IsWhole first =
      Always-install faults binary target (h.file target) apart h
        (record { now = inl refl; past = rw first tt })

  -- With a temporary file that is new and not the target, whichever calls on the file system fail,
  -- and with whatever a write leaves behind when it fails or midway: at every moment of the
  -- installation, at its end too, the target is as it was or complete and executable; at its end every
  -- other file is as it was, and the temporary file is gone, or the call that removes it has failed.
  pub install_atomic :
      (p : String)
      → p ≢ target
      → p ≢ faults.temp
      → h.file faults.temp ≡ none
      → h.past ≡ []
      → Always
          (IsWhole faults binary target (h.file target) apart)
          (install faults binary target h).1
        × ((install faults binary target h).1.file p ≡ h.file p)
        × (((install faults binary target h).1.file faults.temp ≡ none)
            ⊎ ((text : String) × (faults.fails unlink_temp ≡ some text)))
  install_atomic p p≢target p≢temp fresh first = (
    Always-IsWhole first,
    elsewhere p p≢target p≢temp,
    elim (Option-cases (faults.fails unlink_temp)) [
      | inl unlinks ↦ inl (temp_after unlinks fresh)
      | inr failed ↦ inr failed
    ],
  )

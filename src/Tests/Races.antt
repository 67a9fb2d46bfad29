-- ===== src/Tests/Races.antt =====
-- Two programs that install the same release, one of them on a disk that is full.
use conduit_client_python.Prelude.{
  ◌≡◌, ◌≢◌, refl, ◌⊎◌, String, false, none, List, [], ◌∷◌, arith, eq_iff,
}
use conduit_client_python.Errors.{ok}
use conduit_client_python.Checksums.{Bytes}
use conduit_client_python.Install.{Faults, Host, install}
use conduit_client_python.Install.Moments.{complete, Always}
use conduit_client_python.Install.Changes.{
  Change, writes, moves, removes, apply_all, install_changes,
}
use conduit_client_python.Install.Race.{Interleaved, both_done, first_acts, second_acts}
use conduit_client_python.Install.Together.{IsEither, IsOneOf, installs_together}
use conduit_client_python.Tests.Network.{empty_host, no_faults}
use conduit_client_python.Tests.Provision.{full_disk, apart_texts}

abbrev other : Faults
other = record { fails = full_disk; partial = 7 ∷ []; temp = "/tmp/y" }

apart_other : ◌≢◌ {A = String} "/tmp/y" "/bin/conduit"
apart_other = ground (arith, eq_iff "/tmp/y" "/bin/conduit")

apart_both : ◌≢◌ {A = String} "/tmp/x" "/tmp/y"
apart_both = ground (arith, eq_iff "/tmp/x" "/tmp/y")

abbrev fill : String → Bytes → Change
fill path content = writes path (record { content = content; executable = false })

abbrev mixed : List Change
mixed =
    fill "/tmp/x" []
    ∷ fill "/tmp/y" []
    ∷ fill "/tmp/x" []
    ∷ fill "/tmp/y" (7 ∷ [])
    ∷ fill "/tmp/x" (8 ∷ [])
    ∷ writes "/tmp/x" (complete (8 ∷ []))
    ∷ moves "/tmp/x" "/bin/conduit"
    ∷ removes "/tmp/y"
    ∷ removes "/tmp/x"
    ∷ []

order :
    Interleaved
      (install_changes no_faults (8 ∷ []) "/bin/conduit")
      (install_changes other (9 ∷ []) "/bin/conduit")
      mixed
unfolding install_changes
order = first_acts (
    second_acts (
      first_acts
        (second_acts (first_acts (first_acts (first_acts (second_acts (first_acts both_done))))))))

installs_together_example :
    ((w : Host)
      → (install no_faults (8 ∷ []) "/bin/conduit" w).1
        ≡ apply_all (install_changes no_faults (8 ∷ []) "/bin/conduit") w)
    × Always
        (λ files. IsEither none (8 ∷ []) (9 ∷ []) (files "/bin/conduit"))
        (apply_all mixed empty_host)
    × (((install no_faults (8 ∷ []) "/bin/conduit" empty_host).0 ≢ ok tt)
        ⊎ IsOneOf (8 ∷ []) (9 ∷ []) ((apply_all mixed empty_host).file "/bin/conduit"))
installs_together_example =
    installs_together no_faults other (8 ∷ []) (9 ∷ []) "/bin/conduit" empty_host apart_texts
      apart_other apart_both order refl

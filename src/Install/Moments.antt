-- ===== src/Install/Moments.antt =====
-- The target at every moment of an installation.
use conduit_client_python.Prelude.{
  ◌≡◌, ◌≢◌, ◌⊎◌, inl, inr, Option-cases, String, Option, true, false, none, some, List, [], ◌∷◌,
  All, ◌==◌, arith, eq_iff, if◌then◌else◌,
}
use conduit_client_python.Checksums.{Bytes}
use conduit_client_python.Install.{
  File, FsCall, make_parent, make_temp, write_temp, set_mode, replace_target, unlink_temp, Faults,
  Host, set_file, move, attempt, fill_and_move, install,
}

abbrev pub complete : Bytes → File
complete binary = record { content = binary; executable = true }

-- Something holds of the files at every moment up to now.
pub record Always (P : (String → Option File) → Type 0) (h : Host) : Type 0 where
  pub now : P h.file
  pub past : All P h.past

module _ (P Q : (String → Option File) → Type 0)
    (weaken : (files : String → Option File) → P files → Q files) where
  All-weaken : (past : List (String → Option File)) → All P past → All Q past
  All-weaken [] kept = tt
  All-weaken (files ∷ past) (now, kept) = (weaken files now, All-weaken past kept)

  pub Always-weaken : (h : Host) → Always P h → Always Q h
  Always-weaken h kept = record { now = weaken h.file kept.now; past = All-weaken h.past kept.past }

module _ (faults : Faults) (binary : Bytes) (target : String) (before : Option File)
    (apart : faults.temp ≢ target) where
  -- The target is as it was, or complete and executable.
  abbrev pub IsWhole : (String → Option File) → Type 0
  IsWhole files = (files target ≡ before) ⊎ (files target ≡ some (complete binary))

  IsWhole-temp :
      (x : Option File) (files : String → Option File)
      → IsWhole files
      → IsWhole (λ p. if p == faults.temp then x else files p)
  IsWhole-temp x files whole = ground (arith, eq_iff target faults.temp)

  Always-set_temp :
      (x : Option File) (h : Host) → Always IsWhole h → Always IsWhole (set_file faults.temp x h)
  Always-set_temp x h kept = record {
    now = IsWhole-temp x h.file kept.now;
    past = (kept.now, kept.past);
  }

  Always-move :
      (h : Host)
      → h.file faults.temp ≡ some (complete binary)
      → Always IsWhole h
      → Always IsWhole (move faults.temp target h)
  Always-move h filled kept = record {
    now = ground (arith, eq_iff target faults.temp, eq_iff target target);
    past = (kept.now, kept.past);
  }

  Always-attempt :
      (c : FsCall) (failed done : Host → Host) (h : Host)
      → Always IsWhole (failed h)
      → Always IsWhole (done h)
      → Always IsWhole (attempt faults c failed done h).1
  Always-attempt c failed done h f d = elim (Option-cases (faults.fails c)) [
    | inl fine ↦ rw (fine, attempt) d
    | inr (text, fails) ↦ rw (fails, attempt) f
  ]

  Always-fill_and_move :
      (h : Host) → Always IsWhole h → Always IsWhole (fill_and_move faults binary target h).1
  unfolding fill_and_move
  Always-fill_and_move h kept =
      let partial =
        Always-set_temp (some (record { content = faults.partial; executable = false })) h kept in
      let written =
        Always-set_temp (some (record { content = binary; executable = false })) _ partial in
      let marked = Always-set_temp (some (complete binary)) _ written in
      elim (Option-cases (faults.fails write_temp)) [
        | inr (text, fails) ↦ rw (fails, attempt) partial
        | inl writes ↦
            rw (writes, attempt)
              (elim (Option-cases (faults.fails set_mode)) [
                | inr (text, fails) ↦ rw (fails, attempt) written
                | inl sets ↦
                    rw (sets, attempt)
                      (Always-attempt replace_target (λ w. w) (move faults.temp target) _ marked
                        (Always-move _ (ground (arith, eq_iff faults.temp faults.temp)) marked))
              ])
      ]

  pub Always-install :
      (h : Host) → Always IsWhole h → Always IsWhole (install faults binary target h).1
  unfolding install
  Always-install h kept =
      let made = Always-set_temp (some (record { content = []; executable = false })) h kept in
      elim (Option-cases (faults.fails make_parent)) [
        | inr (text, fails) ↦ rw (fails, attempt) kept
        | inl makes ↦
            rw (makes, attempt)
              (elim (Option-cases (faults.fails make_temp)) [
                | inr (text, fails) ↦ rw (fails, attempt) kept
                | inl opens ↦
                    let filled = Always-fill_and_move _ made in
                    rw (opens, attempt)
                      (Always-attempt unlink_temp (λ h. h) (set_file faults.temp none) _ filled
                        (Always-set_temp none _ filled))
              ])
      ]

-- ===== src/Install/Changes.antt =====
-- An installation as the changes of files that it makes, one after the other.
use conduit_client_python.Prelude.{
  ◌≡◌, refl, ◌∙◌, sym, ap, inl, inr, Option-cases, String, Option, none, some, false, List, [], ◌∷◌,
  ◌++◌,
}
use conduit_client_python.Checksums.{Bytes}
use conduit_client_python.Install.{
  File, make_parent, make_temp, write_temp, set_mode, replace_target, unlink_temp, Faults, Host,
  set_file, move, attempt, fill_and_move, install,
}
use conduit_client_python.Install.Moments.{complete}

pub data Change : Type 0 where
  writes : String → File → Change
  moves : String → String → Change
  removes : String → Change

abbrev pub apply : Change → Host → Host
apply (writes path f) h = set_file path (some f) h
apply (moves from to) h = move from to h
apply (removes path) h = set_file path none h

abbrev pub apply_all : List Change → Host → Host
apply_all [] h = h
apply_all (x ∷ xs) h = apply_all xs (apply x h)

pub apply_all-append :
    (xs ys : List Change) (h : Host) → apply_all (xs ++ ys) h ≡ apply_all ys (apply_all xs h)
apply_all-append [] ys h = refl
apply_all-append (x ∷ xs) ys h = apply_all-append xs ys (apply x h)

-- What comes next, if a call does not fail.
abbrev pub unless {ℓ} : {A : Type ℓ} → Option A → List Change → List Change
unless none xs = xs
unless (some _) xs = []

module _ (faults : Faults) (binary : Bytes) (target : String) where
  abbrev pub temp_of : Bytes → Change
  temp_of content = writes faults.temp (record { content = content; executable = false })

  -- Behind the write of the temporary file.
  abbrev pub move_changes : List Change
  move_changes = unless (faults.fails set_mode) (
      writes faults.temp (complete binary)
      ∷ unless (faults.fails replace_target) (moves faults.temp target ∷ []))

  abbrev pub fill_changes : List Change
  fill_changes =
      temp_of faults.partial ∷ unless (faults.fails write_temp) (temp_of binary ∷ move_changes)

  -- The changes of an installation.
  unfoldable pub install_changes : List Change
  install_changes = unless (faults.fails make_parent) (
      unless (faults.fails make_temp) (
        temp_of []
        ∷ (fill_changes ++ unless (faults.fails unlink_temp) (removes faults.temp ∷ []))))

  fill_and_move-changes :
      (h : Host) → (fill_and_move faults binary target h).1 ≡ apply_all fill_changes h
  unfolding fill_and_move
  fill_and_move-changes h = elim (Option-cases (faults.fails write_temp)) [
    | inr (text, fails) ↦ rw (fails, attempt) refl
    | inl fine ↦
        rw (fine, attempt)
          (elim (Option-cases (faults.fails set_mode)) [
            | inr (text, fails) ↦ rw (fails, attempt) refl
            | inl sets ↦
                rw (sets, attempt)
                  (elim (Option-cases (faults.fails replace_target)) [
                    | inr (text, fails) ↦ rw (fails, attempt) refl
                    | inl replaces ↦ rw (replaces, attempt) refl
                  ])
          ])
  ]

  unlink-changes :
      (h : Host)
      → (attempt faults unlink_temp (λ w. w) (set_file faults.temp none) h).1
        ≡ apply_all (unless (faults.fails unlink_temp) (removes faults.temp ∷ [])) h
  unlink-changes h = elim (Option-cases (faults.fails unlink_temp)) [
    | inr (text, fails) ↦ rw (fails, attempt) refl
    | inl fine ↦ rw (fine, attempt) refl
  ]

  -- The installation makes these changes, one after the other.
  pub install-changes :
      (h : Host) → (install faults binary target h).1 ≡ apply_all install_changes h
  unfolding install install_changes
  install-changes h = elim (Option-cases (faults.fails make_parent)) [
    | inr (text, fails) ↦ rw (fails, attempt) refl
    | inl makes ↦
        rw (makes, attempt)
          (elim (Option-cases (faults.fails make_temp)) [
            | inr (text, fails) ↦ rw (fails, attempt) refl
            | inl opens ↦
                let w = apply (temp_of []) h in
                rw (opens, attempt)
                  (unlink-changes (fill_and_move faults binary target w).1
                    ∙ ap
                        (λ v.
                          apply_all (unless (faults.fails unlink_temp) (removes faults.temp ∷ []))
                            v)
                        (fill_and_move-changes w)
                    ∙ sym (apply_all-append fill_changes _ w))
          ])
  ]

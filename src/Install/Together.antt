-- ===== src/Install/Together.antt =====
-- Two installations at the same path at the same time, as by two programs that provision the same
-- release.
use conduit_client_python.Prelude.{
  ◌≡◌, ◌≢◌, refl, ◌∙◌, sym, ◌⊎◌, inl, inr, Option-cases, String, Option, none, some, false, List,
  [], ◌∷◌, ◌++◌,
}
use conduit_client_python.Errors.{Outcome, ok, raised, Outcome-cases, ok≢raised}
use conduit_client_python.Checksums.{Bytes}
use conduit_client_python.Install.{
  File, make_parent, make_temp, write_temp, set_mode, replace_target, unlink_temp, Faults, Host,
  attempt, override, fill_and_move, install,
}
use conduit_client_python.Install.Moments.{complete, Always}
use conduit_client_python.Install.Changes.{
  Change, writes, moves, removes, apply_all, unless, fill_changes, install_changes, install-changes,
}
use conduit_client_python.Install.Race.{
  Interleaved, IsGuarded, Moves, Always-Interleaved, moved-Interleaved,
}

module _ (faults : Faults) (binary : Bytes) (target : String) where
  abbrev Guarded : List Change → Type 0
  Guarded xs = (held : Option File) → IsGuarded faults.temp target binary xs held

  IsGuarded-unless :
      (o : Option String) (xs : List Change) (held : Option File)
      → IsGuarded faults.temp target binary xs held
      → IsGuarded faults.temp target binary (unless o xs) held
  IsGuarded-unless none xs held h = h
  IsGuarded-unless (some text) xs held h = tt

  IsGuarded-append :
      (xs ys : List Change) (held : Option File)
      → IsGuarded faults.temp target binary xs held
      → Guarded ys
      → IsGuarded faults.temp target binary (xs ++ ys) held
  IsGuarded-append [] ys held h k = k held
  IsGuarded-append (writes path f ∷ xs) ys held (same, h) k =
      (same, IsGuarded-append xs ys (some f) h k)
  IsGuarded-append (moves from to ∷ xs) ys held (same, there, full, h) k =
      (same, there, full, IsGuarded-append xs ys none h k)
  IsGuarded-append (removes path ∷ xs) ys held (same, h) k = (same, IsGuarded-append xs ys none h k)

  IsGuarded-fill_changes : Guarded (fill_changes faults binary target)
  IsGuarded-fill_changes held = (
    refl,
    IsGuarded-unless (faults.fails write_temp) _ _ (
      refl,
      IsGuarded-unless (faults.fails set_mode) _ _
          (refl, IsGuarded-unless (faults.fails replace_target) _ _ (refl, refl, refl, tt)),
    ),
  )

  IsGuarded-install_changes : Guarded (install_changes faults binary target)
  unfolding install_changes
  IsGuarded-install_changes held = IsGuarded-unless (faults.fails make_parent) _ held (
      IsGuarded-unless (faults.fails make_temp) _ held (
        refl,
        IsGuarded-append (fill_changes faults binary target) _
            (some (record { content = []; executable = false })) (IsGuarded-fill_changes none)
            λ now. IsGuarded-unless (faults.fails unlink_temp) _ _ (refl, tt),
      ))

  override_ok : (r r' : Outcome (Unit {0})) → override r r' ≡ ok tt → r ≡ ok tt
  override_ok r (ok u) h = h
  override_ok r (raised x) h = absurd (ok≢raised (sym h))

  Moves-append : (xs ys : List Change) → Moves xs → Moves (xs ++ ys)
  Moves-append [] ys h = absurd h
  Moves-append (writes path f ∷ xs) ys h = Moves-append xs ys h
  Moves-append (moves from to ∷ xs) ys h = tt
  Moves-append (removes path ∷ xs) ys h = Moves-append xs ys h

  Moves-fill_changes :
      (h : Host)
      → (fill_and_move faults binary target h).0 ≡ ok tt
      → Moves (fill_changes faults binary target)
  unfolding fill_and_move
  Moves-fill_changes h e = elim (Option-cases (faults.fails write_temp)) [
    | inr (text, fails) ↦ absurd (ok≢raised (sym (rw (fails, attempt) at e)))
    | inl fine ↦ rw fine (elim (Option-cases (faults.fails set_mode)) [
      | inr (text, fails) ↦ absurd (ok≢raised (sym (rw (fine, fails, attempt) at e)))
      | inl sets ↦ rw sets (elim (Option-cases (faults.fails replace_target)) [
        | inr (text, fails) ↦ absurd (ok≢raised (sym (rw (fine, sets, fails, attempt) at e)))
        | inl replaces ↦ rw replaces tt
      ])
    ])
  ]

  Moves-install_changes :
      (h : Host)
      → (install faults binary target h).0 ≡ ok tt
      → Moves (install_changes faults binary target)
  unfolding install_changes install
  Moves-install_changes h e = elim (Option-cases (faults.fails make_parent)) [
    | inr (text, fails) ↦ absurd (ok≢raised (sym (rw (fails, attempt) at e)))
    | inl makes ↦ rw makes (elim (Option-cases (faults.fails make_temp)) [
      | inr (text, fails) ↦ absurd (ok≢raised (sym (rw (makes, fails, attempt) at e)))
      | inl opens ↦ rw opens (
          Moves-append (fill_changes faults binary target) _
            (Moves-fill_changes _ (override_ok _ _ (rw (makes, opens, attempt) at e))))
    ])
  ]

-- What was there, or one of two complete files.
abbrev pub IsEither : Option File → Bytes → Bytes → Option File → Type 0
IsEither before one two held =
    (held ≡ before) ⊎ ((held ≡ some (complete one)) ⊎ (held ≡ some (complete two)))

abbrev pub IsOneOf : Bytes → Bytes → Option File → Type 0
IsOneOf one two held = (held ≡ some (complete one)) ⊎ (held ≡ some (complete two))

module _ (faults₁ faults₂ : Faults) (one two : Bytes) (target : String) (h : Host)
    (apart₁ : faults₁.temp ≢ target) (apart₂ : faults₂.temp ≢ target)
    (apart : faults₁.temp ≢ faults₂.temp) where
  -- An installation makes its changes of files one after the other. Two processes install at the same
  -- path at the same time, each with a temporary file of its own, with their changes in any order,
  -- each keeping its own, and whichever of their calls fail: at every moment
  -- the target is as it was or complete and executable, with the binary of one of them; if the
  -- installation of the first does not fail, it is complete at the end.
  pub installs_together :
      {changes : List Change}
      → Interleaved
          (install_changes faults₁ one target)
          (install_changes faults₂ two target)
          changes
      → h.past ≡ []
      → ((w : Host)
          → (install faults₁ one target w).1 ≡ apply_all (install_changes faults₁ one target) w)
        × Always (λ files. IsEither (h.file target) one two (files target)) (apply_all changes h)
        × (((install faults₁ one target h).0 ≢ ok tt)
            ⊎ IsOneOf one two ((apply_all changes h).file target))
  installs_together order first = (
    install-changes faults₁ one target,
    Always-Interleaved faults₁.temp faults₂.temp target one two apart₁ apart₂ apart
        (IsEither (h.file target) one two) (inr (inl refl)) (inr (inr refl)) h order
        (IsGuarded-install_changes faults₁ one target _)
        (IsGuarded-install_changes faults₂ two target _)
        (record { now = inl refl; past = rw first tt }),
    elim (Outcome-cases (install faults₁ one target h).0) [
      | inr (x, fails) ↦ inl (λ e. ok≢raised (sym e ∙ fails))
      | inl (tt, returns) ↦ inr (
          moved-Interleaved faults₁.temp faults₂.temp target one two apart₁ apart₂ apart
            (IsOneOf one two) (inl refl) (inr refl) h order
            (IsGuarded-install_changes faults₁ one target _)
            (IsGuarded-install_changes faults₂ two target _)
            (Moves-install_changes faults₁ one target h returns))
    ],
  )

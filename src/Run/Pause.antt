-- ===== src/Run/Pause.antt =====
-- The sleeps of the two loops, which an interrupt from the keyboard may end.
use conduit_client_python.Prelude.{ℕ, ◌≡◌, refl, ◌⊎◌, inl, inr, Bool-cases, true, false}
use conduit_client_python.Errors.{interrupt, ok, raised}
use conduit_client_python.Client.{Engine, World}
use conduit_client_python.Run.{pause}

module _ (E : Engine) (d : ℕ) (w : World E.State) where
  pub pause_whole : (E.sleep d w.engine).0 ≡ false → (pause E d w).0 ≡ ok tt
  unfolding pause
  pause_whole whole = rw whole refl

  -- A sleep has its length, or is interrupted.
  pub pause-cases :
      (((E.sleep d w.engine).0 ≡ false) × ((pause E d w).0 ≡ ok tt))
      ⊎ (((E.sleep d w.engine).0 ≡ true) × ((pause E d w).0 ≡ raised interrupt))
  unfolding pause
  pause-cases = elim (Bool-cases (E.sleep d w.engine).0) [
    | inl cut ↦ inr (cut, rw cut refl)
    | inr whole ↦ inl (whole, pause_whole whole)
  ]

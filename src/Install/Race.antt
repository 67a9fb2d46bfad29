-- ===== src/Install/Race.antt =====
-- The changes of two processes that each fill a temporary file of their own and move it to one path.
use conduit_client_python.Prelude.{
  ◌≡◌, ◌≢◌, sym, ap, ◌⊎◌, inl, inr, String, Option, none, some, List, [], ◌∷◌, arith, eq_iff,
}
use mathlib.Core.Path.{subst}
use conduit_client_python.Checksums.{Bytes}
use conduit_client_python.Install.{File, Host}
use conduit_client_python.Install.Moments.{complete, Always}
use conduit_client_python.Install.Changes.{Change, writes, moves, removes, apply, apply_all}

-- The changes of two processes in one order, each process keeping its own.
pub data Interleaved : List Change → List Change → List Change → Type 0 where
  both_done : Interleaved [] [] []
  first_acts :
      {x : Change} {xs ys zs : List Change}
      → Interleaved xs ys zs
      → Interleaved (x ∷ xs) ys (x ∷ zs)
  second_acts :
      {y : Change} {xs ys zs : List Change}
      → Interleaved xs ys zs
      → Interleaved xs (y ∷ ys) (y ∷ zs)

module _ (temp target : String) (binary : Bytes) where
  -- Changes of a temporary file, which is moved to the target only when it is complete.
  abbrev pub IsGuarded : List Change → Option File → Type 0
  IsGuarded [] held = Unit
  IsGuarded (writes path f ∷ rest) held = (path ≡ temp) × IsGuarded rest (some f)
  IsGuarded (moves from to ∷ rest) held =
      (from ≡ temp) × (to ≡ target) × (held ≡ some (complete binary)) × IsGuarded rest none
  IsGuarded (removes path ∷ rest) held = (path ≡ temp) × IsGuarded rest none

  module _ (apart : temp ≢ target) where
    placed :
        (from to : String) (xs : List Change) (h : Host)
        → IsGuarded (moves from to ∷ xs) (h.file temp)
        → (apply (moves from to) h).file target ≡ some (complete binary)
    placed from to xs h (same, to_target, held, rest) =
        ground (arith, eq_iff target from, eq_iff target to, ap h.file same)

    -- What one of them does: the target is kept or complete, and no other file is changed.
    IsGuarded-apply :
        (x : Change) (xs : List Change) (h : Host)
        → IsGuarded (x ∷ xs) (h.file temp)
        → IsGuarded xs ((apply x h).file temp)
          × (((apply x h).file target ≡ h.file target)
              ⊎ ((apply x h).file target ≡ some (complete binary)))
    IsGuarded-apply (writes path f) xs h (same, rest) = (
      subst (IsGuarded xs) (ground (arith, eq_iff temp path)) rest,
      inl (ground (arith, eq_iff target path)),
    )
    IsGuarded-apply (moves from to) xs h (same, to_target, held, rest) = (
      subst (IsGuarded xs) (ground (arith, eq_iff temp from)) rest,
      inr (placed from to xs h (same, to_target, held, rest)),
    )
    IsGuarded-apply (removes path) xs h (same, rest) = (
      subst (IsGuarded xs) (ground (arith, eq_iff temp path)) rest,
      inl (ground (arith, eq_iff target path)),
    )

    elsewhere-apply :
        (x : Change) (xs : List Change) (h : Host) (p : String)
        → IsGuarded (x ∷ xs) (h.file temp)
        → p ≢ temp
        → p ≢ target
        → h.file p ≡ (apply x h).file p
    elsewhere-apply (writes path f) xs h p guarded p≢temp p≢target =
        ground (arith, eq_iff p path, guarded.0)
    elsewhere-apply (moves from to) xs h p guarded p≢temp p≢target =
        ground (arith, eq_iff p from, eq_iff p to, guarded.0, guarded.1)
    elsewhere-apply (removes path) xs h p guarded p≢temp p≢target =
        ground (arith, eq_iff p path, guarded.0)

-- A change that puts something at the target.
abbrev pub Moves : List Change → Type 0
Moves [] = ⊥
Moves (writes path f ∷ rest) = Moves rest
Moves (moves from to ∷ rest) = Unit
Moves (removes path ∷ rest) = Moves rest

Always-apply :
    (P : (String → Option File) → Type 0) (x : Change) (h : Host)
    → Always P h
    → P (apply x h).file
    → Always P (apply x h)
Always-apply P (writes path f) h kept now = record { now = now; past = (kept.now, kept.past) }
Always-apply P (moves from to) h kept now = record { now = now; past = (kept.now, kept.past) }
Always-apply P (removes path) h kept now = record { now = now; past = (kept.now, kept.past) }

module _ (temp₁ temp₂ target : String) (one two : Bytes) (apart₁ : temp₁ ≢ target)
    (apart₂ : temp₂ ≢ target) (apart : temp₁ ≢ temp₂) where
  -- The next change of the first process, and of the second.
  first-apply :
      (x : Change) (xs ys : List Change) (h : Host)
      → IsGuarded temp₁ target one (x ∷ xs) (h.file temp₁)
      → IsGuarded temp₂ target two ys (h.file temp₂)
      → IsGuarded temp₁ target one xs ((apply x h).file temp₁)
        × IsGuarded temp₂ target two ys ((apply x h).file temp₂)
  first-apply x xs ys h mine other = (
    (IsGuarded-apply temp₁ target one apart₁ x xs h mine).0,
    subst (IsGuarded temp₂ target two ys)
        (elsewhere-apply temp₁ target one apart₁ x xs h temp₂ mine (λ e. apart (sym e)) apart₂)
        other,
  )

  second-apply :
      (y : Change) (xs ys : List Change) (h : Host)
      → IsGuarded temp₁ target one xs (h.file temp₁)
      → IsGuarded temp₂ target two (y ∷ ys) (h.file temp₂)
      → IsGuarded temp₁ target one xs ((apply y h).file temp₁)
        × IsGuarded temp₂ target two ys ((apply y h).file temp₂)
  second-apply y xs ys h other mine = (
    subst (IsGuarded temp₁ target one xs)
        (elsewhere-apply temp₂ target two apart₂ y ys h temp₁ mine apart apart₁) other,
    (IsGuarded-apply temp₂ target two apart₂ y ys h mine).0,
  )

  module _ (P : Option File → Type 0) (at_one : P (some (complete one)))
      (at_two : P (some (complete two))) where
    -- A property of what is at the target, which the two complete files have.
    abbrev AtTarget : (String → Option File) → Type 0
    AtTarget files = P (files target)

    kept_or :
        {before now : Option File} {binary : Bytes}
        → P before
        → P (some (complete binary))
        → (now ≡ before) ⊎ (now ≡ some (complete binary))
        → P now
    kept_or h k (inl same) = subst P (sym same) h
    kept_or h k (inr done) = subst P (sym done) k

    pub Always-Interleaved :
        {xs ys zs : List Change} (h : Host)
        → Interleaved xs ys zs
        → IsGuarded temp₁ target one xs (h.file temp₁)
        → IsGuarded temp₂ target two ys (h.file temp₂)
        → Always AtTarget h
        → Always AtTarget (apply_all zs h)
    Always-Interleaved h both_done guarded₁ guarded₂ kept = kept
    Always-Interleaved h (first_acts {x} {xs} {ys} rest) guarded₁ guarded₂ kept =
        let (next₁, next₂) = first-apply x xs ys h guarded₁ guarded₂ in
        Always-Interleaved (apply x h) rest next₁ next₂ (
          Always-apply AtTarget x h kept
            (kept_or kept.now at_one (IsGuarded-apply temp₁ target one apart₁ x xs h guarded₁).1))
    Always-Interleaved h (second_acts {y} {xs} {ys} rest) guarded₁ guarded₂ kept =
        let (next₁, next₂) = second-apply y xs ys h guarded₁ guarded₂ in
        Always-Interleaved (apply y h) rest next₁ next₂ (
          Always-apply AtTarget y h kept
            (kept_or kept.now at_two (IsGuarded-apply temp₂ target two apart₂ y ys h guarded₂).1))

    -- What has the property keeps it.
    kept-Interleaved :
        {xs ys zs : List Change} (h : Host)
        → Interleaved xs ys zs
        → IsGuarded temp₁ target one xs (h.file temp₁)
        → IsGuarded temp₂ target two ys (h.file temp₂)
        → AtTarget h.file
        → AtTarget (apply_all zs h).file
    kept-Interleaved h both_done guarded₁ guarded₂ kept = kept
    kept-Interleaved h (first_acts {x} {xs} {ys} rest) guarded₁ guarded₂ kept =
        let (next₁, next₂) = first-apply x xs ys h guarded₁ guarded₂ in
        kept-Interleaved (apply x h) rest next₁ next₂
          (kept_or kept at_one (IsGuarded-apply temp₁ target one apart₁ x xs h guarded₁).1)
    kept-Interleaved h (second_acts {y} {xs} {ys} rest) guarded₁ guarded₂ kept =
        let (next₁, next₂) = second-apply y xs ys h guarded₁ guarded₂ in
        kept-Interleaved (apply y h) rest next₁ next₂
          (kept_or kept at_two (IsGuarded-apply temp₂ target two apart₂ y ys h guarded₂).1)

    -- A process that puts its file at the target gives the target the property.
    pub moved-Interleaved :
        {xs ys zs : List Change} (h : Host)
        → Interleaved xs ys zs
        → IsGuarded temp₁ target one xs (h.file temp₁)
        → IsGuarded temp₂ target two ys (h.file temp₂)
        → Moves xs
        → AtTarget (apply_all zs h).file
    moved-Interleaved h (second_acts {y} {xs} {ys} rest) guarded₁ guarded₂ puts =
        let (next₁, next₂) = second-apply y xs ys h guarded₁ guarded₂ in
        moved-Interleaved (apply y h) rest next₁ next₂ puts
    moved-Interleaved h (first_acts {x = writes path f} {xs} {ys} rest) guarded₁ guarded₂ puts =
        let (next₁, next₂) = first-apply (writes path f) xs ys h guarded₁ guarded₂ in
        moved-Interleaved (apply (writes path f) h) rest next₁ next₂ puts
    moved-Interleaved h (first_acts {x = removes path} {xs} {ys} rest) guarded₁ guarded₂ puts =
        let (next₁, next₂) = first-apply (removes path) xs ys h guarded₁ guarded₂ in
        moved-Interleaved (apply (removes path) h) rest next₁ next₂ puts
    moved-Interleaved h (first_acts {x = moves from to} {xs} {ys} rest) guarded₁ guarded₂ puts =
        let x = moves from to in
        let (next₁, next₂) = first-apply x xs ys h guarded₁ guarded₂ in
        kept-Interleaved (apply x h) rest next₁ next₂
          (subst P (sym (placed temp₁ target one apart₁ from to xs h guarded₁)) at_one)
    moved-Interleaved h both_done guarded₁ guarded₂ puts = absurd puts

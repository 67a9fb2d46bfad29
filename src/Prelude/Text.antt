-- ===== src/Prelude/Text.antt =====
-- Python texts: truth, `startswith` with the slice behind it, `removeprefix`, `lower`, `join`.
use Prim.Native.Nat.{◌-◌}
use Prim.Native.Char.{Char, code}
use Prim.Native.String.{String, [], ◌∷◌, ◌++◌, char_at}
use mathlib.Core.Path.{◌≡◌, ap₂}
use mathlib.Core.Logic.{inl, inr}
use mathlib.Core.Bool.{Bool, ◌&&◌}
use mathlib.Core.Option.{Option, none, some}
use mathlib.Core.List.{List}
use native.Mathlib.Omega.{arith}
use text.Mathlib.Text
use text.Mathlib.TextEquality.{Char-path}
use text.Mathlib.TextLemmas.{nil-append, cons-append}
use conduit_client_python.Prelude.Tests.{Bool-cases, leb, eqb, if◌then◌else◌}

infix 50 ◌==◌
abbrev pub ◌==◌ : String → String → Bool
s == t = Text.◌==◌ s t

-- `a or b` on texts: the empty text is false.
abbrev pub or_text : String → String → String
or_text a b = if a == "" then b else a

-- What is left of the text behind the prefix, if it starts with it: `startswith` and `[len(p):]`.
unfoldable pub after_prefix : String → String → Option String
after_prefix [] s = some s
after_prefix (c ∷ p) [] = none
after_prefix (c ∷ p) (d ∷ s) =
    let rest = after_prefix p s in if eqb (code c) (code d) then rest else none

-- `s.removeprefix(p)`
unfoldable pub removeprefix : String → String → String
removeprefix s p = elim (after_prefix p s) [ none ↦ s | some rest ↦ rest ]

lower_char : Char → Char
lower_char c =
    if leb 65 (code c) && leb (code c) 90
    then char_at "abcdefghijklmnopqrstuvwxyz" (code c - 65)
    else c

-- `s.lower()` on ASCII letters. The names that the program lowers are ASCII.
unfoldable pub lower : String → String
unfolding lower_char
lower [] = []
lower (c ∷ s) = lower_char c ∷ lower s

-- `sep.join(lines)`
unfoldable pub join : String → List String → String
join sep List.[] = ""
join sep (List.◌∷◌ s List.[]) = s
join sep (List.◌∷◌ s (List.◌∷◌ t rest)) = s ++ (sep ++ join sep (List.◌∷◌ t rest))

pub after_prefix-append : (p s : String) → after_prefix p (p ++ s) ≡ some s
unfolding after_prefix
after_prefix-append [] s = rw nil-append
after_prefix-append (c ∷ p) s = rw cons-append (ground (arith, after_prefix-append p s))

pub eq_of_after_prefix : (p s : String) {r : String} → after_prefix p s ≡ some r → s ≡ p ++ r
unfolding after_prefix
eq_of_after_prefix [] s {r} h = rw nil-append (ground arith)
eq_of_after_prefix (c ∷ p) [] h = cc
eq_of_after_prefix (c ∷ p) (d ∷ s) {r} h = elim (Bool-cases (eqb (code c) (code d))) [
  | inl same ↦
      rw cons-append
        (ap₂ ◌∷◌ (Char-path d c (ground arith)) (eq_of_after_prefix p s (ground arith)))
  | inr differ ↦ absurd (ground arith)
]

-- ===== src/Prelude/Lines.antt =====
-- Lines of texts, against `splitlines`.
use Prim.Native.Char.{Char, code}
use text.Mathlib.TextLemmas.{nil-append, cons-append, cons≢nil}
use conduit_client_python.Prelude.{
  ◌≡◌, ◌≢◌, refl, ◌∙◌, ap, sym, String, Bool, true, false, List, [], ◌∷◌, ◌<>◌, arith, All,
  if◌then◌else◌, eqb, join,
}
use conduit_client_python.Prelude.Split.{is_break, add_char, splitlines}

-- No character of the text ends a line.
abbrev pub NoBreak : String → Type 0
NoBreak String.[] = Unit
NoBreak (String.◌∷◌ c s) = (is_break c ≡ false) × NoBreak s

-- The line feed.
abbrev pub newline : Char
newline = "\n"

pub NoBreak-append : (s t : String) → NoBreak s → NoBreak t → NoBreak (s <> t)
NoBreak-append String.[] t hs ht = rw nil-append ht
NoBreak-append (String.◌∷◌ c s) t hs ht = rw cons-append (hs.0, NoBreak-append s t hs.1 ht)

not_return : (c : Char) → is_break c ≡ false → eqb (code c) 13 ≡ false
unfolding is_break
not_return c h = ground arith

-- A line in front of the rest.
pub splitlines-line :
    (s rest : String) → NoBreak s → splitlines (s <> String.◌∷◌ newline rest) ≡ s ∷ splitlines rest
unfolding splitlines is_break
splitlines-line String.[] rest h = rw nil-append refl
splitlines-line (String.◌∷◌ c s) rest h =
    rw cons-append (ground (arith, not_return c h.0, splitlines-line s rest h.1, h.0))

pub splitlines_nil : splitlines "" ≡ []
unfolding splitlines
splitlines_nil = refl

-- A line that is not lost at the end of a text.
abbrev pub IsLine : String → Type 0
IsLine s = (s ≢ "") × NoBreak s

pub IsLine-append : (s t : String) → IsLine s → NoBreak t → IsLine (s <> t)
IsLine-append String.[] t h k = absurd (h.0 refl)
IsLine-append (String.◌∷◌ c s) t h k =
    ((λ e. cons≢nil (sym (cons-append c s t) ∙ e)), NoBreak-append (String.◌∷◌ c s) t h.1 k)

-- The test of a text for line ends.
unfoldable pub no_break : String → Bool
no_break String.[] = true
no_break (String.◌∷◌ c s) = let rest = no_break s in if is_break c then false else rest

pub NoBreak-no_break : (s : String) → no_break s ≡ true → NoBreak s
unfolding no_break
NoBreak-no_break String.[] h = tt
NoBreak-no_break (String.◌∷◌ c s) h = (ground arith, NoBreak-no_break s (ground arith))

splitlines_unit :
    (c : Char)
    → is_break c ≡ false
    → splitlines (String.◌∷◌ c String.[]) ≡ String.◌∷◌ c String.[] ∷ []
unfolding splitlines add_char
splitlines_unit c h = ground (arith, h)

splitlines_cons :
    (c : Char) (l : String) (ls : List String) (s : String)
    → is_break c ≡ false
    → splitlines s ≡ l ∷ ls
    → splitlines (String.◌∷◌ c s) ≡ String.◌∷◌ c l ∷ ls
unfolding splitlines add_char
splitlines_cons c l ls s h e = ground (arith, not_return c h, h, e)

-- A text of one line.
splitlines_alone : (s : String) → IsLine s → splitlines s ≡ s ∷ []
splitlines_alone String.[] h = absurd (h.0 refl)
splitlines_alone (String.◌∷◌ c String.[]) h = splitlines_unit c h.1.0
splitlines_alone (String.◌∷◌ c (String.◌∷◌ d s)) h =
    splitlines_cons c _ [] _ h.1.0 (splitlines_alone (String.◌∷◌ d s) ((λ e. cons≢nil e), h.1.1))

-- Lines that have been joined are split again.
pub splitlines-join :
    (l : String) (ls : List String) → All IsLine (l ∷ ls) → splitlines (join "\n" (l ∷ ls)) ≡ l ∷ ls
unfolding join
splitlines-join l [] h = splitlines_alone l h.0
splitlines-join l (k ∷ ls) h =
    ap (λ t. splitlines (l <> t))
      (cons-append newline String.[] _ ∙ ap (λ t. String.◌∷◌ newline t) (nil-append _))
    ∙ splitlines-line l _ h.0.1
    ∙ ap (λ t. l ∷ t) (splitlines-join k ls h.1)

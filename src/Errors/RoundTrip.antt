-- ===== src/Errors/RoundTrip.antt =====
-- Reading an error back from what `ConduitError.__str__` shows of it.
use Prim.Native.Char.{code}
use conduit_client_python.Prelude.{
  ◌≡◌, refl, ◌∙◌, String, Bool, true, false, none, some, List, [], ◌∷◌, ◌++◌, ◌<>◌, arith, eq_iff,
  eqb, All, All-append, if◌then◌else◌, after_prefix, or_default, after_prefix-append,
}
use conduit_client_python.Prelude.Split.{splitlines, is_break}
use conduit_client_python.Prelude.Lines.{
  IsLine, IsLine-append, no_break, NoBreak-no_break, NoBreak, NoBreak-append, splitlines-join,
}
use text.Mathlib.TextLemmas.{nil-append, cons-append, cons≢nil}
use conduit_client_python.Errors.{ConduitError, field_line, lines_of, to_string}
use conduit_client_python.Errors.Render.{
  Field, label, value, config_path_field, suggestion_field, docs_url_field, pipeline_id_field,
}

-- What stands in front of the first closing bracket, and what stands behind it.
unfoldable pub at_bracket : String → String × String
at_bracket String.[] = ("", "")
at_bracket (String.◌∷◌ c s) =
    let rest = at_bracket s in if eqb (code c) 93 then ("", s) else (String.◌∷◌ c rest.0, rest.1)

-- The text behind the label on the first line that has it.
unfoldable pub find_field : String → List String → String
find_field l [] = ""
find_field l (line ∷ rest) =
    let later = find_field l rest in elim (after_prefix l line) [ none ↦ later | some text ↦ text ]

-- The texts differ before either ends.
differs : String → String → Bool
differs (String.◌∷◌ c s) (String.◌∷◌ d t) =
    let rest = differs s t in if eqb (code c) (code d) then rest else true
differs _ _ = false

after_prefix-none : (p q s : String) → differs p q ≡ true → after_prefix p (q <> s) ≡ none
unfolding after_prefix differs
after_prefix-none String.[] q s h = ground arith
after_prefix-none (String.◌∷◌ c p) String.[] s h = ground arith
after_prefix-none (String.◌∷◌ c p) (String.◌∷◌ d q) s h =
    rw cons-append (ground (arith, after_prefix-none p q s))

-- A closing bracket is in the text.
unfoldable pub has_bracket : String → Bool
has_bracket String.[] = false
has_bracket (String.◌∷◌ c s) = let rest = has_bracket s in if eqb (code c) 93 then true else rest

at_bracket-append :
    (s t : String) → has_bracket s ≡ false → at_bracket (s <> String.◌∷◌ "]" t) ≡ (s, t)
unfolding at_bracket has_bracket
at_bracket-append String.[] t h = rw nil-append refl
at_bracket-append (String.◌∷◌ c s) t h = rw cons-append (ground (arith, at_bracket-append s t))

-- The code and the message, read off the first line.
unfoldable pub read_head : List String → String × String
read_head [] = ("", "")
read_head (line ∷ rest) =
    let (code, behind) = at_bracket (or_default (after_prefix "[" line) "") in
    (code, or_default (after_prefix " " behind) "")

-- A field, read off the lines behind the first.
unfoldable pub read_field : Field → List String → String
read_field f [] = ""
read_field f (line ∷ rest) = find_field (label f) rest

-- Texts that the lines can hold: no line break, and no closing bracket in the code.
pub record IsPlain (e : ConduitError) : Type 0 where
  pub code_plain : NoBreak e.code × (has_bracket e.code ≡ false)
  pub message_plain : NoBreak e.message
  pub fields_plain : (f : Field) → NoBreak (value f e)

find_field-own :
    (l v : String) (rest : List String)
    → find_field l rest ≡ ""
    → find_field l (field_line l v ++ rest) ≡ v
unfolding find_field field_line
find_field-own l v rest h = ground (arith, eq_iff v "", after_prefix-append l v, h)

find_field-other :
    (l k v : String) (rest : List String)
    → differs l k ≡ true
    → find_field l (field_line k v ++ rest) ≡ find_field l rest
unfolding find_field field_line
find_field-other l k v rest h = ground (arith, after_prefix-none l k v h)

find_field-own_last : (l v : String) → find_field l (field_line l v) ≡ v
unfolding find_field field_line
find_field-own_last l v = ground (arith, eq_iff v "", after_prefix-append l v)

find_field-other_last : (l k v : String) → differs l k ≡ true → find_field l (field_line k v) ≡ ""
unfolding find_field field_line
find_field-other_last l k v h = ground (arith, eq_iff v "", after_prefix-none l k v h)

label-IsLine : (f : Field) → IsLine (label f)
unfolding no_break is_break
label-IsLine config_path_field = ((λ e. cons≢nil e), NoBreak-no_break "  config path: " refl)
label-IsLine suggestion_field = ((λ e. cons≢nil e), NoBreak-no_break "  suggestion: " refl)
label-IsLine docs_url_field = ((λ e. cons≢nil e), NoBreak-no_break "  docs: " refl)
label-IsLine pipeline_id_field =
    ((λ e. cons≢nil e), NoBreak-no_break "  pipeline id (already created): " refl)

field_line-IsLine : (l v : String) → IsLine (l <> v) → All IsLine (field_line l v)
unfolding field_line
field_line-IsLine l v h = ground (arith, eq_iff v "", h)

field-IsLine :
    (e : ConduitError) (f : Field) → IsPlain e → All IsLine (field_line (label f) (value f e))
field-IsLine e f h =
    field_line-IsLine (label f) (value f e)
      (IsLine-append (label f) (value f e) (label-IsLine f) (h.fields_plain f))

opening-IsLine : (e : ConduitError) → IsPlain e → IsLine ("[" <> e.code <> "] " <> e.message)
unfolding no_break is_break
opening-IsLine e h =
    IsLine-append "[" _ ((λ x. cons≢nil x), NoBreak-no_break "[" refl)
      (NoBreak-append e.code _ h.code_plain.0
        (NoBreak-append "] " e.message (NoBreak-no_break "] " refl) h.message_plain))

lines_of-IsLine : (e : ConduitError) → IsPlain e → All IsLine (lines_of e)
unfolding lines_of
lines_of-IsLine e h = (
  opening-IsLine e h,
  All-append IsLine (field_line (label config_path_field) e.config_path) _
      (field-IsLine e config_path_field h)
      (All-append IsLine (field_line (label suggestion_field) e.suggestion) _
        (field-IsLine e suggestion_field h)
        (All-append IsLine (field_line (label docs_url_field) e.docs_url) _
          (field-IsLine e docs_url_field h) (field-IsLine e pipeline_id_field h))),
)

read_head-lines_of : (e : ConduitError) → IsPlain e → read_head (lines_of e) ≡ (e.code, e.message)
unfolding read_head lines_of
read_head-lines_of e h =
    rw
      (
        after_prefix-append "[" (e.code <> "] " <> e.message),
        cons-append "]" " " e.message,
        at_bracket-append e.code (" " <> e.message) h.code_plain.1,
        after_prefix-append " " e.message,
      )
      refl

read_field-lines_of : (e : ConduitError) (f : Field) → read_field f (lines_of e) ≡ value f e
unfolding read_field lines_of differs
read_field-lines_of e config_path_field = find_field-own "  config path: " e.config_path _ (
    find_field-other "  config path: " "  suggestion: " e.suggestion _ refl
    ∙ find_field-other "  config path: " "  docs: " e.docs_url _ refl
    ∙ find_field-other_last "  config path: " "  pipeline id (already created): " e.pipeline_id
        refl)
read_field-lines_of e suggestion_field =
    find_field-other "  suggestion: " "  config path: " e.config_path _ refl
    ∙ find_field-own "  suggestion: " e.suggestion _ (
        find_field-other "  suggestion: " "  docs: " e.docs_url _ refl
        ∙ find_field-other_last "  suggestion: " "  pipeline id (already created): " e.pipeline_id
            refl)
read_field-lines_of e docs_url_field =
    find_field-other "  docs: " "  config path: " e.config_path _ refl
    ∙ find_field-other "  docs: " "  suggestion: " e.suggestion _ refl
    ∙ find_field-own "  docs: " e.docs_url _
        (find_field-other_last "  docs: " "  pipeline id (already created): " e.pipeline_id refl)
read_field-lines_of e pipeline_id_field =
    find_field-other "  pipeline id (already created): " "  config path: " e.config_path _ refl
    ∙ find_field-other "  pipeline id (already created): " "  suggestion: " e.suggestion _ refl
    ∙ find_field-other "  pipeline id (already created): " "  docs: " e.docs_url _ refl
    ∙ find_field-own_last "  pipeline id (already created): " e.pipeline_id

splitlines-to_string : (e : ConduitError) → IsPlain e → splitlines (to_string e) ≡ lines_of e
unfolding to_string lines_of
splitlines-to_string e h = splitlines-join _ _ (lines_of-IsLine e h)

-- An error whose texts have no line break, and whose code has no closing bracket, is read back from
-- what it shows: the code and the message from the first line, and the config path, the suggestion,
-- the link and the pipeline id, empty ones too, from the line with the label.
pub read-to_string :
    (e : ConduitError)
    → IsPlain e
    → (read_head (splitlines (to_string e)) ≡ (e.code, e.message))
      × ((f : Field) → read_field f (splitlines (to_string e)) ≡ value f e)
read-to_string e h = rw (splitlines-to_string e h) (read_head-lines_of e h, read_field-lines_of e)

-- ===== src/Errors/Render.antt =====
-- What `ConduitError.__str__` shows of an error.
use text.Mathlib.TextLemmas.{append-nil as text_append-nil, append_assoc as text_append_assoc}
use mathlib.Core.List.{append_assoc}
use mathlib.Core.Path.{subst}
use conduit_client_python.Prelude.{
  ◌≡◌, ◌≢◌, ◌∙◌, sym, ap, String, List, [], ◌∷◌, ◌++◌, ◌<>◌, join, arith, eq_iff,
}
use conduit_client_python.Errors.{ConduitError, field_line, lines_of, to_string}

-- The fields that have a line of their own, with its label.
pub data Field : Type 0 where
  config_path_field suggestion_field docs_url_field pipeline_id_field : Field

abbrev pub label : Field → String
label config_path_field = "  config path: "
label suggestion_field = "  suggestion: "
label docs_url_field = "  docs: "
label pipeline_id_field = "  pipeline id (already created): "

abbrev pub value : Field → ConduitError → String
value config_path_field e = e.config_path
value suggestion_field e = e.suggestion
value docs_url_field e = e.docs_url
value pipeline_id_field e = e.pipeline_id

-- A part of a text.
abbrev pub Shows : String → String → Type 0
Shows part text = (before : String) × (after : String) × (text ≡ before <> (part <> after))

join-Shows :
    (sep line first : String) (front back : List String)
    → Shows (sep <> line) (join sep (first ∷ (front ++ (line ∷ back))))
unfolding join
join-Shows sep line first [] [] =
    (first, "", ap (λ t. first <> t) (sym (text_append-nil (sep <> line))))
join-Shows sep line first [] (b ∷ back) =
    (first, sep <> join sep (b ∷ back), ap (λ t. first <> t) (sym (text_append_assoc sep line _)))
join-Shows sep line first (f ∷ front) back =
    let (before, after, e) = join-Shows sep line f front back in
    (
      first <> (sep <> before),
      after,
      ap (λ t. first <> (sep <> t)) e
          ∙ sym (
              text_append_assoc first (sep <> before) _
              ∙ ap (λ t. first <> t) (text_append_assoc sep before _)),
    )

field_line-eq : (l text : String) → text ≢ "" → field_line l text ≡ (l <> text) ∷ []
unfolding field_line
field_line-eq l text given = ground (arith, eq_iff text "")

regroup : (front middle back : List String) → (front ++ middle) ++ back ≡ front ++ (middle ++ back)
regroup front middle back = simp append_assoc

-- The same where the lines in front stand in two groups.
join-Shows_grouped :
    (sep line first : String) (front middle back : List String)
    → Shows (sep <> line) (join sep (first ∷ (front ++ (middle ++ (line ∷ back)))))
join-Shows_grouped sep line first front middle back =
    subst (λ (ls : List String). Shows (sep <> line) (join sep (first ∷ ls)))
      (regroup front middle (line ∷ back)) (join-Shows sep line first (front ++ middle) back)

abbrev first_line : ConduitError → String
first_line e = "[" <> e.code <> "] " <> e.message

-- A config path, a suggestion, a link or a pipeline id that is not empty is shown behind a line
-- break, with its label.
pub to_string-Shows :
    (e : ConduitError) (f : Field)
    → value f e ≢ ""
    → Shows ("\n" <> (label f <> value f e)) (to_string e)
unfolding to_string lines_of
to_string-Shows e config_path_field given =
    rw (field_line-eq "  config path: " e.config_path given)
      (join-Shows "\n" ("  config path: " <> e.config_path) (first_line e) [] _)
to_string-Shows e suggestion_field given = rw (field_line-eq "  suggestion: " e.suggestion given) (
    join-Shows "\n" ("  suggestion: " <> e.suggestion) (first_line e)
      (field_line "  config path: " e.config_path) _)
to_string-Shows e docs_url_field given = rw (field_line-eq "  docs: " e.docs_url given) (
    join-Shows_grouped "\n" ("  docs: " <> e.docs_url) (first_line e)
      (field_line "  config path: " e.config_path) (field_line "  suggestion: " e.suggestion) _)
to_string-Shows e pipeline_id_field given =
    rw (field_line-eq "  pipeline id (already created): " e.pipeline_id given) (
      subst
        (λ (ls : List String).
          Shows ("\n" <> ("  pipeline id (already created): " <> e.pipeline_id))
            (join "\n" (first_line e ∷ ls)))
        (ap (λ ls. field_line "  config path: " e.config_path ++ ls)
          (regroup (field_line "  suggestion: " e.suggestion) (field_line "  docs: " e.docs_url) _))
        (join-Shows_grouped "\n" ("  pipeline id (already created): " <> e.pipeline_id)
          (first_line e) (field_line "  config path: " e.config_path)
          (field_line "  suggestion: " e.suggestion ++ field_line "  docs: " e.docs_url) []))

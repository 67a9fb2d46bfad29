-- ===== src/Provision/Version.antt =====
-- Which version is provisioned.
use conduit_client_python.Prelude.{
  ◌≡◌, refl, ◌∙◌, ap, ◌⊎◌, inl, inr, String, Option, none, some, List, [], ◌∷◌, ◌==◌, ◌<>◌,
  if◌then◌else◌, or_default, or_text, after_prefix, removeprefix, after_prefix-append,
}
use conduit_client_python.Provision.{default_conduit_version, Surroundings, resolve_version}

-- The two spellings of a version.
abbrev pub IsSpelling : String → String → Type 0
IsSpelling version text = (text ≡ version) ⊎ (text ≡ "v" <> version)

-- The first text that is given and not empty: the argument, the variable, or the default.
abbrev pub first_given : List (Option String) → String
first_given [] = default_conduit_version
first_given (none ∷ rest) = first_given rest
first_given (some text ∷ rest) = if text == "" then first_given rest else text

plain_kept :
    (version : String) → after_prefix "v" version ≡ none → removeprefix version "v" ≡ version
unfolding removeprefix
plain_kept version plain = rw (plain, removeprefix) refl

removeprefix-IsSpelling :
    (version text : String)
    → after_prefix "v" version ≡ none
    → IsSpelling version text
    → removeprefix text "v" ≡ version
unfolding removeprefix
removeprefix-IsSpelling version text plain (inl e) =
    ap (λ t. removeprefix t "v") e ∙ plain_kept version plain
removeprefix-IsSpelling version text plain (inr e) =
    rw (e, after_prefix-append "v" version, removeprefix) refl

first_of_variable :
    (variable : Option String)
    → first_given (variable ∷ []) ≡ or_text (or_default variable "") default_conduit_version
first_of_variable none = refl
first_of_variable (some text) = refl

resolve_version_first :
    (s : Surroundings) (explicit : Option String)
    → resolve_version s explicit
      ≡ removeprefix (first_given (explicit ∷ s.version_variable ∷ [])) "v"
unfolding resolve_version
resolve_version_first s none = rw (first_of_variable s.version_variable) refl
resolve_version_first s (some text) = rw (first_of_variable s.version_variable) refl

-- The version that is resolved is the one that the argument gives, else the variable, else the
-- default, where an empty text gives none; spelled with a leading `v` or without, it is the same
-- version, which itself does not begin with `v`.
pub resolve_version_lem :
    (s : Surroundings) (explicit : Option String) (version : String)
    → after_prefix "v" version ≡ none
    → IsSpelling version (first_given (explicit ∷ s.version_variable ∷ []))
    → resolve_version s explicit ≡ version
resolve_version_lem s explicit version plain spelled =
    resolve_version_first s explicit ∙ removeprefix-IsSpelling version _ plain spelled

-- ===== src/Checksums/Listing.antt =====
-- `_verify_checksum` on a `checksums.txt` as a release publishes it, against the list of its entries.
use Prim.Native.Char.{Char}
use text.Mathlib.TextLemmas.{nil-append, cons-append, cons≢nil}
use conduit_client_python.Prelude.{
  ◌≡◌, ◌≢◌, refl, ◌∙◌, ap, ◌↔◌, String, true, false, Option, none, some, List, [], ◌∷◌, ◌<>◌, ◌==◌,
  arith, eq_iff, All, if◌then◌else◌,
}
use conduit_client_python.Prelude.Split.{is_break, is_space, add_char, splitlines, at_word, split}
use conduit_client_python.Prelude.Lines.{
  NoBreak, newline, NoBreak-append, splitlines-line, splitlines_nil,
}
use conduit_client_python.Errors.{ok, ◌>>=◌}
use conduit_client_python.Checksums.{Bytes, find_expected, Codec, compare_digest, verify_checksum}

-- No character of the text is a space.
abbrev pub NoSpace : String → Type 0
NoSpace String.[] = Unit
NoSpace (String.◌∷◌ c s) = (is_space c ≡ false) × NoSpace s

abbrev pub IsWord : String → Type 0
IsWord s = (s ≢ "") × NoSpace s

abbrev space : Char
space = " "

is_break_of_space : (c : Char) → is_space c ≡ false → is_break c ≡ false
unfolding is_space is_break
is_break_of_space c h = ground arith

NoBreak-of_NoSpace : (s : String) → NoSpace s → NoBreak s
NoBreak-of_NoSpace String.[] h = tt
NoBreak-of_NoSpace (String.◌∷◌ c s) h = (is_break_of_space c h.0, NoBreak-of_NoSpace s h.1)

split_nil : split "" ≡ []
unfolding split
split_nil = refl

split-space : (t : String) → split (String.◌∷◌ space t) ≡ split t
unfolding split is_space
split-space t = refl

split_head :
    (c : Char) (s : String)
    → is_space c ≡ false
    → at_word s ≡ true
    → split (String.◌∷◌ c s) ≡ add_char c (split s)
unfolding split
split_head c s h k = rw (h, k) refl

split_last :
    (c : Char) (s : String)
    → is_space c ≡ false
    → at_word s ≡ false
    → split (String.◌∷◌ c s) ≡ String.◌∷◌ c "" ∷ split s
unfolding split
split_last c s h k = rw (h, k) refl

at_word_head : (c : Char) (s : String) → is_space c ≡ false → at_word (String.◌∷◌ c s) ≡ true
unfolding at_word
at_word_head c s h = rw h refl

not_at_word-space : (s : String) → at_word (String.◌∷◌ space s) ≡ false
unfolding at_word is_space
not_at_word-space s = refl

-- A word that is alone, and a word before a space.
split_word : (s : String) → IsWord s → split s ≡ s ∷ []
unfolding at_word add_char
split_word String.[] h = absurd (h.0 refl)
split_word (String.◌∷◌ c String.[]) h =
    split_last c "" h.1.0 refl ∙ ap (λ (l : List String). String.◌∷◌ c "" ∷ l) split_nil
split_word (String.◌∷◌ c (String.◌∷◌ d s)) h =
    split_head c (String.◌∷◌ d s) h.1.0 (at_word_head d s h.1.1.0)
    ∙ rw (split_word (String.◌∷◌ d s) ((λ e. cons≢nil e), h.1.1)) refl

split-words : (s t : String) → IsWord s → split (s <> String.◌∷◌ space t) ≡ s ∷ split t
unfolding add_char
split-words String.[] t h = absurd (h.0 refl)
split-words (String.◌∷◌ c String.[]) t h =
    rw (cons-append, nil-append)
      (split_last c (String.◌∷◌ space t) h.1.0 (not_at_word-space t) ∙ rw split-space refl)
split-words (String.◌∷◌ c (String.◌∷◌ d s)) t h =
    rw (cons-append c (String.◌∷◌ d s) (String.◌∷◌ space t)) (
      split_head c (String.◌∷◌ d s <> String.◌∷◌ space t) h.1.0
        (rw cons-append (at_word_head d (s <> String.◌∷◌ space t) h.1.1.0))
      ∙ rw (split-words (String.◌∷◌ d s) t ((λ e. cons≢nil e), h.1.1)) refl)

-- The line of an entry: the digest, two spaces and the file's name.
abbrev pub entry_line : String × String → String
entry_line (digest, name) = digest <> String.◌∷◌ space (String.◌∷◌ space name)

-- A `checksums.txt` as a release publishes it.
abbrev pub listing : List (String × String) → String
listing [] = ""
listing (e ∷ rest) = entry_line e <> String.◌∷◌ newline (listing rest)

abbrev pub IsEntry : String × String → Type 0
IsEntry (digest, name) = IsWord digest × IsWord name

-- The digest of the first entry for a file.
abbrev pub digest_of : String → List (String × String) → Option String
digest_of file [] = none
digest_of file ((digest, name) ∷ rest) = if name == file then some digest else digest_of file rest

split-entry_line :
    (digest name : String)
    → IsEntry (digest, name)
    → split (entry_line (digest, name)) ≡ digest ∷ name ∷ []
split-entry_line digest name h =
    split-words digest (String.◌∷◌ space name) h.0 ∙ rw (split-space, split_word name h.1) refl

NoBreak-entry_line :
    (digest name : String) → IsEntry (digest, name) → NoBreak (entry_line (digest, name))
unfolding is_break
NoBreak-entry_line digest name h =
    NoBreak-append digest (String.◌∷◌ space (String.◌∷◌ space name))
      (NoBreak-of_NoSpace digest h.0.1) (refl, (refl, NoBreak-of_NoSpace name h.1.1))

find_expected-listing :
    (file : String) (entries : List (String × String))
    → All IsEntry entries
    → find_expected file (splitlines (listing entries)) ≡ digest_of file entries
unfolding find_expected
find_expected-listing file [] h = rw splitlines_nil refl
find_expected-listing file ((digest, name) ∷ rest) h =
    rw
      (
        splitlines-line (entry_line (digest, name)) (listing rest)
            (NoBreak-entry_line digest name h.0),
        find_expected,
        split-entry_line digest name h.0,
      )
      (ground (arith, find_expected-listing file rest h.1))

compare_digest_ok :
    (repr : String → String) (name actual : String) (found : Option String)
    → (compare_digest repr name actual found ≡ ok tt) ↔ (found ≡ some actual)
unfolding compare_digest
compare_digest_ok repr name actual none = (λ h. cc, λ h. cc)
compare_digest_ok repr name actual (some expected) = ground (arith, eq_iff actual expected)

-- On a `checksums.txt` that lists digests and file names, none of them empty or with spaces, a
-- download is accepted exactly when the first entry for its file has its SHA-256 digest.
pub verify_checksum-listing :
    (codec : Codec) (repr : String → String) (archive checksums : Bytes) (file : String)
    (entries : List (String × String))
    → codec.decode checksums ≡ ok (listing entries)
    → All IsEntry entries
    → (verify_checksum codec repr archive checksums file ≡ ok tt)
      ↔ (digest_of file entries ≡ some (codec.sha256 archive))
unfolding verify_checksum
verify_checksum-listing codec repr archive checksums file entries decoded h =
    rw (decoded, ◌>>=◌, find_expected-listing file entries h)
      (compare_digest_ok repr file (codec.sha256 archive) (digest_of file entries))

-- ===== src/Prelude/Split.antt =====
-- Python's `splitlines`, `split` and the last part of a path.
use Prim.Native.Char.{Char, code}
use Prim.Native.String.{String, [], ◌∷◌}
use mathlib.Core.Bool.{Bool, false, ◌&&◌, ◌||◌, not}
use mathlib.Core.List.{List}
use conduit_client_python.Prelude.Tests.{leb, eqb, if◌then◌else◌}
use conduit_client_python.Prelude.Text.{◌==◌}

-- Where `str.splitlines` breaks.
unfoldable pub is_break : Char → Bool
is_break c =
    leb 10 (code c) && leb (code c) 13
    || (leb 28 (code c) && leb (code c) 30
        || (eqb (code c) 133 || (eqb (code c) 8232 || eqb (code c) 8233)))

-- Where `str.split()` breaks.
unfoldable pub is_space : Char → Bool
is_space c =
    leb 9 (code c) && leb (code c) 13
    || (leb 28 (code c) && leb (code c) 32
        || (eqb (code c) 133
            || (eqb (code c) 160
                || (eqb (code c) 5760
                    || (leb 8192 (code c) && leb (code c) 8202
                        || (eqb (code c) 8232
                            || (eqb (code c) 8233
                                || (eqb (code c) 8239
                                    || (eqb (code c) 8287 || eqb (code c) 12288)))))))))

-- A character in front of the first text.
unfoldable pub add_char : Char → List String → List String
add_char c List.[] = List.◌∷◌ (c ∷ []) List.[]
add_char c (List.◌∷◌ l ls) = List.◌∷◌ (c ∷ l) ls

-- The first character is a line feed.
unfoldable pub at_line_feed : String → Bool
at_line_feed [] = false
at_line_feed (c ∷ s) = eqb (code c) 10

-- `s.splitlines()`. A carriage return before a line feed goes with it.
unfoldable pub splitlines : String → List String
unfolding add_char at_line_feed
splitlines [] = List.[]
splitlines (c ∷ s) =
    let rest = splitlines s in
    if eqb (code c) 13 && at_line_feed s
    then rest
    else if is_break c
    then List.◌∷◌ "" rest
    else add_char c rest

-- The text goes on with a word: it is not empty, and does not begin with a space.
unfoldable pub at_word : String → Bool
at_word [] = false
at_word (c ∷ s) = not (is_space c)

-- `s.split()`
unfoldable pub split : String → List String
unfolding add_char at_word
split [] = List.[]
split (c ∷ s) =
    let rest = split s in
    if is_space c then rest else if at_word s then add_char c rest else List.◌∷◌ (c ∷ []) rest

-- The parts of a text between slashes.
unfoldable pub components : String → List String
unfolding add_char
components [] = List.◌∷◌ "" List.[]
components (c ∷ s) =
    let rest = components s in if eqb (code c) b'/' then List.◌∷◌ "" rest else add_char c rest

-- The last part that is neither empty nor `.`, or else the text given.
unfoldable pub last_name : String → List String → String
last_name found List.[] = found
last_name found (List.◌∷◌ s rest) = last_name (if s == "" || s == "." then found else s) rest

-- `Path(s).name`, on POSIX.
unfoldable pub base_name : String → String
unfolding components last_name
base_name s = last_name "" (components s)

-- ===== src/Prelude/Strings.antt =====
-- String methods of Python on ASCII texts: `lower`, `strip`, `split` and `partition`. A letter outside
-- ASCII is left as it is, and only ASCII whitespace is stripped.
use Prim.Native.Nat.{ℕ, ◌+◌}
use Prim.Native.Char.{Char, code}
use Prim.Native.String.{String}
use Prim.Native.String
use mathlib.Core.Path.{◌≡◌, refl}
use mathlib.Core.Bool.{Bool, ◌&&◌, ◌||◌}
use mathlib.Core.List.{List, [], ◌∷◌}
use mathlib.Core.Option.{none, some}
use text.Mathlib.Text.{◌==◌, find?}
use sc_tpcrs.Prelude.Tests.{nat_eq, leb, if◌then◌else◌}

abbrev lower_char : Char → String
lower_char c = elim (find? "ABCDEFGHIJKLMNOPQRSTUVWXYZ" (String.◌∷◌ c "")) [
  | none ↦ String.◌∷◌ c ""
  | some i ↦ String.slice "abcdefghijklmnopqrstuvwxyz" i (i + 1)
]

-- `s.lower()`.
unfoldable pub lower : String → String
lower String.[] = ""
lower (String.◌∷◌ c s) = String.◌++◌ (lower_char c) (lower s)

-- Space, tab, line feed, vertical tab, form feed and carriage return.
abbrev is_space : Char → Bool
is_space c = nat_eq (code c) b' ' || leb 9 (code c) && leb (code c) 13

-- `s.lstrip()`.
unfoldable pub lstrip : String → String
lstrip String.[] = ""
lstrip (String.◌∷◌ c s) = let rest = lstrip s in if is_space c then rest else String.◌∷◌ c s

-- `s.rstrip()`.
unfoldable pub rstrip : String → String
rstrip String.[] = ""
rstrip (String.◌∷◌ c s) =
    let rest = rstrip s in if is_space c && rest == "" then "" else String.◌∷◌ c rest

-- `s.strip()`.
unfoldable pub strip : String → String
unfolding lstrip rstrip
strip s = rstrip (lstrip s)

-- The first part of a split is extended by a character.
abbrev extend : Char → List String → List String
extend c [] = String.◌∷◌ c "" ∷ []
extend c (t ∷ ts) = String.◌∷◌ c t ∷ ts

-- `s.split(sep)` for a separator of one character.
unfoldable pub split_on : ℕ → String → List String
split_on sep String.[] = "" ∷ []
split_on sep (String.◌∷◌ c s) =
    let rest = split_on sep s in if nat_eq (code c) sep then "" ∷ rest else extend c rest

-- The characters at which `s.splitlines()` ends a line.
abbrev ends_line : Char → Bool
ends_line c =
    leb 10 (code c) && leb (code c) 13
    || (leb 28 (code c) && leb (code c) 30
        || (nat_eq (code c) 133 || (nat_eq (code c) 8232 || nat_eq (code c) 8233)))

-- The lines of a text, with an empty line between the two characters of a line end that has both, and another
-- after the last line end.
unfoldable pub split_lines : String → List String
split_lines String.[] = "" ∷ []
split_lines (String.◌∷◌ c s) =
    let rest = split_lines s in if ends_line c then "" ∷ rest else extend c rest

abbrev keep_words : List String → List String
keep_words [] = []
keep_words (w ∷ ws) = let rest = keep_words ws in if w == "" then rest else w ∷ rest

-- `s.split()`: the words between runs of whitespace.
spaced : String → List String
spaced String.[] = "" ∷ []
spaced (String.◌∷◌ c s) = let rest = spaced s in if is_space c then "" ∷ rest else extend c rest

unfoldable pub words : String → List String
unfolding spaced
words s = keep_words (spaced s)

-- `s.partition(sep)` for a separator of one character: the text before it and the text after it.
unfoldable pub partition_on : ℕ → String → String × String
partition_on sep String.[] = ("", "")
partition_on sep (String.◌∷◌ c s) =
    let rest = partition_on sep s in
    if nat_eq (code c) sep then ("", s) else (String.◌∷◌ c rest.0, rest.1)

lower_example : lower "Left-Pad" ≡ "left-pad"
unfolding lower
lower_example = refl

strip_example : strip "  a b\n" ≡ "a b"
unfolding strip
strip_example = refl

split_example : split_on b',' "a,,b" ≡ "a" ∷ "" ∷ "b" ∷ []
unfolding split_on
split_example = refl

words_example : words " PACKAGE-MANAGER  purl x" ≡ "PACKAGE-MANAGER" ∷ "purl" ∷ "x" ∷ []
unfolding words
words_example = refl

partition_example : partition_on b':' "Tag: a:b" ≡ ("Tag", " a:b")
unfolding partition_on
partition_example = refl

-- ===== src/Text.antt =====
-- Text as a list of code points, with what the daemon uses of Rust's `str`: `trim`, `lines`,
-- `split_whitespace`, `contains`, `join`, `parse::<u64>`, `parse::<i32>` and printing of numbers.
pub mod Numbers
use Prim.Native.Char.{code}
use Prim.Native.String
use fundroid.Prelude.{
  ◌≡◌, refl, ℕ, String, Bool, true, false, ◌&&◌, ◌||◌, List, [], ◌∷◌, ◌++◌, Option, none, some, leb,
  ◌==◌, if◌then◌else◌, is_empty,
}

abbrev pub Text : Type 0
Text = List ℕ

-- The code points of a literal.
abbrev pub codes : String → Text
codes String.[] = []
codes (String.◌∷◌ c s) = code c ∷ codes s

abbrev pub newline : ℕ
newline = 10

unfoldable pub text_eq : Text → Text → Bool
text_eq [] [] = true
text_eq [] (d ∷ t) = false
text_eq (c ∷ s) [] = false
text_eq (c ∷ s) (d ∷ t) = c == d && text_eq s t

-- `char::is_whitespace`: the Unicode property White_Space.
unfoldable pub is_whitespace : ℕ → Bool
is_whitespace c =
    (leb 9 c && leb c 13)
    || c == 0x20
    || c == 0x85
    || c == 0xa0
    || c == 0x1680
    || (leb 0x2000 c && leb c 0x200a)
    || c == 0x2028
    || c == 0x2029
    || c == 0x202f
    || c == 0x205f
    || c == 0x3000

unfoldable pub trim_start : Text → Text
trim_start [] = []
trim_start (c ∷ s) = if is_whitespace c then trim_start s else c ∷ s

-- Drops the blanks behind the last other character.
unfoldable pub trim_end : Text → Text
trim_end [] = []
trim_end (c ∷ s) =
    let rest = trim_end s in if is_whitespace c && is_empty rest then [] else c ∷ rest

unfoldable pub trim : Text → Text
unfolding trim_start trim_end is_whitespace
trim s = trim_end (trim_start s)

-- Adds a character to the first line.
abbrev pub onto_first : ℕ → List Text → List Text
onto_first c [] = (c ∷ []) ∷ []
onto_first c (l ∷ ls) = (c ∷ l) ∷ ls

-- A carriage return just before the newline is part of the line's end.
abbrev pub is_crlf : ℕ → Text → Bool
is_crlf c [] = false
is_crlf c (d ∷ s) = c == 13 && d == newline

-- `str::lines`: the pieces between newlines, with no empty piece after the last one.
unfoldable pub lines : Text → List Text
lines [] = []
lines (c ∷ s) =
    let rest = lines s in
    if c == newline then [] ∷ rest else if is_crlf c s then rest else onto_first c rest

-- `lines.join("\n")`.
unfoldable pub join : List Text → Text
join [] = []
join (l ∷ []) = l
join (l ∷ m ∷ ls) = l ++ (newline ∷ join (m ∷ ls))

-- `str::starts_with`.
unfoldable pub starts_with : Text → Text → Bool
starts_with s [] = true
starts_with [] (d ∷ t) = false
starts_with (c ∷ s) (d ∷ t) = c == d && starts_with s t

-- `str::contains`.
unfoldable pub contains : Text → Text → Bool
unfolding starts_with
contains [] t = starts_with [] t
contains (c ∷ s) t = starts_with (c ∷ s) t || contains s t

-- `str::split_whitespace`: the runs of other characters. The flag says that a run is open.
split_from : Bool → Text → List Text
split_from inside [] = if inside then [] ∷ [] else []
split_from inside (c ∷ s) =
    let blank = split_from false s in
    let run = onto_first c (split_from true s) in
    if is_whitespace c then (if inside then [] ∷ blank else blank) else run

unfoldable pub split_whitespace : Text → List Text
unfolding split_from is_whitespace
split_whitespace s = split_from false s

lines_test : lines (codes "a\r\n\nbc\n") ≡ codes "a" ∷ [] ∷ codes "bc" ∷ []
unfolding lines
lines_test = refl

split_test : split_whitespace (codes " ab  c d ") ≡ codes "ab" ∷ codes "c" ∷ codes "d" ∷ []
unfolding split_whitespace
split_test = refl

trim_test : trim (codes " 1 2\n") ≡ codes "1 2"
unfolding trim
trim_test = refl

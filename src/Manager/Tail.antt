-- ===== src/Manager/Tail.antt =====
-- cuttlefish/cfctl/src/daemon/util.rs: `tail_file`. Text is its UTF-8 bytes here.
use fundroid.Prelude.{
  ℕ, zero, suc, ◌-◌, ◌*◌, ◌≡◌, refl, Bool, true, false, ◌&&◌, ◌||◌, Option, none, some, List, [],
  ◌∷◌, ltb, leb, ◌==◌, if◌then◌else◌, length, drop,
}
use fundroid.Text.{Text, codes, newline, lines, join}

-- `char` boundaries and ranges as `str::from_utf8` checks them: a byte that may begin a character,
-- the bytes that must follow it, and the range of the first of those.
abbrev is_lead : ℕ → Bool
is_lead c = ltb c 0x80 || (leb 0xc2 c && leb c 0xf4)

abbrev wanted : ℕ → ℕ
wanted c = if ltb c 0xc2 then 0 else if ltb c 0xe0 then 1 else if ltb c 0xf0 then 2 else 3

abbrev low : ℕ → ℕ
low c = if c == 0xe0 then 0xa0 else if c == 0xf0 then 0x90 else 0x80

abbrev high : ℕ → ℕ
high c = if c == 0xed then 0x9f else if c == 0xf4 then 0x8f else 0xbf

unfoldable pub utf8_from : ℕ → ℕ → ℕ → Text → Bool
utf8_from zero lo hi [] = true
utf8_from (suc k) lo hi [] = false
utf8_from zero lo hi (c ∷ s) = is_lead c && utf8_from (wanted c) (low c) (high c) s
utf8_from (suc k) lo hi (c ∷ s) = (leb lo c && leb c hi) && utf8_from k 0x80 0xbf s

unfoldable pub valid_utf8 : Text → Bool
valid_utf8 s = utf8_from 0 0 0 s

abbrev pub max_tail_bytes : ℕ
max_tail_bytes = 1 * 1024 * 1024

-- What stands behind the first newline; nothing if there is none.
unfoldable pub after_newline : Text → Text
after_newline [] = []
after_newline (c ∷ s) = if c == newline then s else after_newline s

-- The last `n` of a list.
unfoldable pub last_lines : ℕ → List Text → List Text
last_lines n ls = if ltb n (length ls) then drop (length ls - n) ls else ls

-- The bytes from the seek position on.
unfoldable pub window : ℕ → Text → Text
window max content =
    if ltb max (length content) then drop (length content - max) content else content

-- The tail of a file with these bytes, or `none` where `read_to_string` finds no UTF-8.
unfoldable pub tail_of : ℕ → ℕ → Text → Option Text
unfolding window last_lines valid_utf8 after_newline
tail_of max n content =
    let buf = window max content in
    if valid_utf8 buf
    then some
        (join (last_lines n (lines (if ltb max (length content) then after_newline buf else buf))))
    else none

tail_of_test : tail_of 100 2 (codes "a\nb\nc\n") ≡ some (codes "b\nc")
unfolding tail_of lines join utf8_from
tail_of_test = refl

cut_test : tail_of 4 2 (codes "abc\nde\n") ≡ some (codes "de")
unfolding tail_of lines join utf8_from
cut_test = refl

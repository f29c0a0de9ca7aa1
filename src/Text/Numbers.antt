-- ===== src/Text/Numbers.antt =====
-- Decimal numbers: `to_string`, `parse::<u64>` and `parse::<i32>` of Rust's standard library.
pub mod RoundTrip
use fundroid.Prelude.{
  ℕ, zero, suc, ◌+◌, ◌-◌, ◌*◌, ◌/◌, ◌%◌, ◌^◌, ◌≡◌, refl, Bool, ◌&&◌, [], ◌∷◌, Option, none, some,
  ltb, leb, ◌==◌, if◌then◌else◌,
}
use fundroid.Text.{Text, codes}

-- The digits of `n`, in front of `out`. Fuel above `n` is enough.
unfoldable pub emit : ℕ → ℕ → Text → Text
emit zero n out = out
emit (suc fuel) n out =
    let more = emit fuel (n / 10) ((b'0' + n % 10) ∷ out) in
    if ltb n 10 then (b'0' + n) ∷ out else more

-- `n.to_string()`.
unfoldable pub show : ℕ → Text
unfolding emit
show n = emit (suc n) n []

unfoldable pub is_digit : ℕ → Bool
is_digit c = leb b'0' c && leb c b'9'

-- The value of digits behind the value `n`, if it is at most `limit`.
unfoldable pub scan : ℕ → ℕ → Text → Option ℕ
scan limit n [] = some n
scan limit n (c ∷ s) =
    let next = n * 10 + (c - b'0') in
    let rest = scan limit next s in
    if is_digit c then (if leb next limit then rest else none) else none

abbrev pub max_u64 : ℕ
max_u64 = 2 ^ 64 - 1

-- At least one digit is wanted.
abbrev pub digits_of : ℕ → Text → Option ℕ
digits_of limit [] = none
digits_of limit (c ∷ s) = scan limit 0 (c ∷ s)

-- `str::parse::<u64>`: one leading `+` is allowed.
unfoldable pub parse_u64 : Text → Option ℕ
unfolding scan is_digit
parse_u64 [] = none
parse_u64 (c ∷ s) = if c == b'+' then digits_of max_u64 s else digits_of max_u64 (c ∷ s)

-- An `i32`: `negative n` is -(n + 1).
pub data Pid : Type 0 where
  plain : ℕ → Pid
  negative : ℕ → Pid

abbrev pub negated : Option ℕ → Option Pid
negated none = none
negated (some zero) = some (plain 0)
negated (some (suc n)) = some (negative n)

abbrev pub not_negated : Option ℕ → Option Pid
not_negated none = none
not_negated (some n) = some (plain n)

-- `str::parse::<i32>`: one leading `+` or `-` is allowed.
unfoldable pub parse_i32 : Text → Option Pid
unfolding scan is_digit
parse_i32 [] = none
parse_i32 (c ∷ s) =
    if c == b'-'
    then negated (digits_of (2 ^ 31) s)
    else if c == b'+'
    then not_negated (digits_of (2 ^ 31 - 1) s)
    else not_negated (digits_of (2 ^ 31 - 1) (c ∷ s))

show_test : show 6520 ≡ codes "6520"
unfolding show
show_test = refl

parse_u64_test : parse_u64 (codes "18446744073709551616") ≡ none
unfolding parse_u64
parse_u64_test = refl

parse_i32_test : parse_i32 (codes "-12") ≡ some (negative 11)
unfolding parse_i32
parse_i32_test = refl

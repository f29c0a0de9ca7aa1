-- ===== src/Text/Numbers/RoundTrip.antt =====
-- Writing a number in decimal and reading it.
use fundroid.Prelude.{
  ℕ, zero, suc, ◌+◌, ◌-◌, ◌*◌, ◌/◌, ◌%◌, ◌≤◌, ◌<◌, ◌≡◌, refl, true, false, [], ◌∷◌, some, arith,
  ltb, ◌==◌, inl, inr, Bool-cases, ◌∙◌, ◌++◌,
}
use fundroid.Text.{Text}
use fundroid.Text.Numbers.{emit, show, scan, is_digit, parse_u64, max_u64}

digit-is_digit : (d : ℕ) → d < 10 → is_digit (b'0' + d) ≡ true
unfolding is_digit
digit-is_digit d h = ground arith

-- Reading one digit more.
scan-digit :
    (limit n d m : ℕ) (out : Text)
    → d < 10
    → n * 10 + d ≡ m
    → m ≤ limit
    → scan limit n ((b'0' + d) ∷ out) ≡ scan limit m out
unfolding scan
scan-digit limit n d m out h same fits = rw (digit-is_digit d h) (rw value (ground arith))
  where
    value : n * 10 + (b'0' + d - b'0') ≡ m
    value = omega arith

-- The text that `emit` writes is read as the number, in front of what follows.
scan-emit :
    (fuel limit n : ℕ) (out : Text)
    → n < fuel
    → n ≤ limit
    → scan limit 0 (emit fuel n out) ≡ scan limit n out
unfolding emit
scan-emit zero limit n out h fits = absurd (omega arith)
scan-emit (suc fuel) limit n out h fits = elim (Bool-cases (ltb n 10)) [
  | inl small ↦ rw small (scan-digit limit 0 n n out (ground arith) (omega arith) fits)
  | inr large ↦ rw large (
      scan-emit fuel limit (n / 10) ((b'0' + n % 10) ∷ out) (ground arith) (omega arith)
      ∙ scan-digit limit (n / 10) (n % 10) n out (omega arith) (omega arith) fits)
]

-- The text starts with a digit.
emit-head :
    (fuel n : ℕ) (out : Text)
    → n < fuel
    → (c : ℕ) × (s : Text) × (emit fuel n out ≡ c ∷ s) × ((c == b'+') ≡ false)
unfolding emit
emit-head zero n out h = absurd (omega arith)
emit-head (suc fuel) n out h = elim (Bool-cases (ltb n 10)) [
  | inl small ↦ (b'0' + n, out, rw small refl, ground arith)
  | inr large ↦
      let (c, s, e, digit) = emit-head fuel (n / 10) ((b'0' + n % 10) ∷ out) (ground arith) in
      (c, s, rw large e, digit)
]

parse-digits :
    (t : Text) (c : ℕ) (s : Text) → t ≡ c ∷ s → (c == b'+') ≡ false → parse_u64 t ≡ scan max_u64 0 t
unfolding parse_u64
parse-digits t c s e digit = rw e (rw digit refl)

-- Reading the decimal text of a number as a `u64` gives the number back, for every number that a
-- `u64` can be.
pub parse_u64-show : (n : ℕ) → n ≤ max_u64 → parse_u64 (show n) ≡ some n
unfolding show scan
parse_u64-show n fits =
    let (c, s, e, digit) = emit-head (suc n) n [] (omega arith) in
    parse-digits (emit (suc n) n []) c s e digit ∙ scan-emit (suc n) max_u64 n [] (omega arith) fits

-- The digits stand in front of what was there, and more fuel changes nothing.
emit-append :
    (fuel fuel' n : ℕ) (out rest : Text)
    → n < fuel
    → n < fuel'
    → emit fuel n (out ++ rest) ≡ emit fuel' n out ++ rest
unfolding emit
emit-append zero fuel' n out rest h h' = absurd (omega arith)
emit-append (suc fuel) zero n out rest h h' = absurd (omega arith)
emit-append (suc fuel) (suc fuel') n out rest h h' = elim (Bool-cases (ltb n 10)) [
  | inl small ↦ rw small refl
  | inr large ↦
      rw large
        (emit-append fuel fuel' (n / 10) ((b'0' + n % 10) ∷ out) rest (ground arith) (ground arith))
]

-- One digit more at the end of a number's text is ten times the number, and the digit.
pub show-digit :
    (n d m : ℕ) → 1 ≤ n → d < 10 → n * 10 + d ≡ m → show m ≡ show n ++ ((b'0' + d) ∷ [])
unfolding show emit
show-digit n d m positive h same =
    rw large
      (rw tens (rw ones (emit-append m (suc n) n [] ((b'0' + d) ∷ []) (omega arith) (omega arith))))
  where
    large : ltb m 10 ≡ false
    large = ground arith

    tens : m / 10 ≡ n
    tens = omega arith

    ones : m % 10 ≡ d
    ones = omega arith

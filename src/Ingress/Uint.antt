-- ===== src/Ingress/Uint.antt =====
-- strconv.FormatUint and strconv.ParseUint in base 10 and 64 bits, as the version file uses them,
-- and that a version that is written is read back.
use arazu.Prelude.{
  ℕ, zero, suc, ◌+◌, ◌*◌, ◌/◌, ◌%◌, ◌-◌, ◌^◌, ◌<◌, Bool, true, false, ◌&&◌, ltb, ltb→lt, leb,
  lt→ltb, if◌then◌else◌, All, ◌≢◌, Bool-cases, inl, inr, ◌≡◌, refl, ap, ◌∙◌, arith, [], ◌∷◌, ◌++◌,
  Option, none, some, Text, is_space, trim_space, trim_space-line, All-weaken, newline,
}

is_digit : ℕ → Bool
is_digit c = leb 48 c && leb c 57

-- The digits of a number, before `rest`. The fuel exceeds their number.
format_from : ℕ → ℕ → Text → Text
format_from zero n rest = rest
format_from (suc fuel) n rest =
    let more = format_from fuel (n / 10) ((48 + n % 10) ∷ rest) in
    if ltb n 10 then (48 + n) ∷ rest else more

unfoldable pub format_uint : ℕ → Text
unfolding format_from
format_uint n = format_from (suc n) n []

-- The value of the digits after `acc`, when all are digits.
parse_from : ℕ → Text → Option ℕ
unfolding is_digit
parse_from acc [] = some acc
parse_from acc (c ∷ t) =
    let more = parse_from (acc * 10 + (c - 48)) t in if is_digit c then more else none

in_range : Option ℕ → Option ℕ
in_range none = none
in_range (some n) = if ltb n (2 ^ 64) then some n else none

unfoldable pub parse_uint : Text → Option ℕ
unfolding parse_from in_range
parse_uint [] = none
parse_uint (c ∷ t) = in_range (parse_from 0 (c ∷ t))

digit-is_digit : (d : ℕ) → d < 10 → is_digit (48 + d) ≡ true
unfolding is_digit
digit-is_digit d h = ground arith

parse-digit :
    (acc d : ℕ) (rest : Text)
    → d < 10
    → parse_from acc ((48 + d) ∷ rest) ≡ parse_from (acc * 10 + d) rest
unfolding parse_from
parse-digit acc d rest h =
    let same : 48 + d - 48 ≡ d = omega arith in rw (digit-is_digit d h, same) refl

-- What was printed of `n` is read as `n`.
parse-format :
    (fuel n : ℕ) (rest : Text)
    → n < fuel
    → parse_from 0 (format_from fuel n rest) ≡ parse_from n rest
unfolding format_from
parse-format zero n rest h = absurd (omega arith)
parse-format (suc fuel) n rest h = elim (Bool-cases (ltb n 10)) [
  | inl b ↦ rw b (parse-digit 0 n rest (ltb→lt n 10 b) ∙ ap (λ k. parse_from k rest) (omega arith))
  | inr b ↦ rw b (
      parse-format fuel (n / 10) ((48 + n % 10) ∷ rest) (ground arith)
      ∙ (parse-digit (n / 10) (n % 10) rest (omega arith)
          ∙ ap (λ k. parse_from k rest) (omega arith)))
]

format-digits :
    (fuel n : ℕ) (rest : Text)
    → All (λ c. is_digit c ≡ true) rest
    → All (λ c. is_digit c ≡ true) (format_from fuel n rest)
unfolding format_from is_digit
format-digits zero n rest h = h
format-digits (suc fuel) n rest h = elim (Bool-cases (ltb n 10)) [
  | inl b ↦ rw b (ground arith, h)
  | inr b ↦ rw b (format-digits fuel (n / 10) ((48 + n % 10) ∷ rest) (ground arith, h))
]

digit-not_space : (c : ℕ) → is_digit c ≡ true → is_space c ≡ false
unfolding is_digit is_space
digit-not_space c h = ground arith

in_range-parse :
    (t : Text) (n : ℕ) → parse_from 0 t ≡ some n → n < 2 ^ 64 → t ≢ [] → parse_uint t ≡ some n
unfolding parse_uint in_range
in_range-parse [] n h l q = absurd (q refl)
in_range-parse (c ∷ t) n h l q = rw (h, lt→ltb n (2 ^ 64) l) refl

format_from-ne-nil : (fuel n c : ℕ) (rest : Text) → format_from fuel n (c ∷ rest) ≢ []
unfolding format_from
format_from-ne-nil zero n c rest = λ h. cc
format_from-ne-nil (suc fuel) n c rest = elim (Bool-cases (ltb n 10)) [
  | inl b ↦ rw b (λ h. cc)
  | inr b ↦ rw b (format_from-ne-nil fuel (n / 10) (48 + n % 10) (c ∷ rest))
]

format_uint-ne-nil : (n : ℕ) → format_uint n ≢ []
unfolding format_uint format_from
format_uint-ne-nil n = elim (Bool-cases (ltb n 10)) [
  | inl b ↦ rw b (λ h. cc)
  | inr b ↦ rw b (format_from-ne-nil n (n / 10) (48 + n % 10) [])
]

pub trim_space-format : (n : ℕ) → trim_space (format_uint n ++ newline ∷ []) ≡ format_uint n
unfolding format_uint
trim_space-format n =
    trim_space-line (format_uint n)
      (All-weaken (format_uint n) digit-not_space (format-digits (suc n) n [] tt))

-- A version of 64 bits that is written with a newline after it is read back.
pub parse_uint-format_uint :
    (n : ℕ) → n < 2 ^ 64 → parse_uint (trim_space (format_uint n ++ newline ∷ [])) ≡ some n
unfolding format_uint parse_from
parse_uint-format_uint n h =
    ap parse_uint (trim_space-format n)
    ∙ in_range-parse (format_uint n) n (parse-format (suc n) n [] (omega arith)) h
        (format_uint-ne-nil n)

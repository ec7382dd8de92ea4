-- ===== src/Prelude/Strings.antt =====
-- The parts of Go's `strings`, `fmt` and `bufio` that the program uses. A text that the program
-- takes apart is the list of its code points; one that it only compares and prints is a `String`.
use Prim.Native.Nat.{ℕ, zero, suc, ◌+◌, ◌/◌, ◌%◌}
use Prim.Native.Char.{code}
use Prim.Native.String
use Prim.Native.String.{String}
use mathlib.Core.Path.{◌≡◌, refl, ap, sym, subst, ◌∙◌}
use mathlib.Core.Option.{Option, none, some}
use text.Mathlib.TextLemmas.{nil-append, cons-append}
use mathlib.Core.Bool.{Bool, true, false, ◌&&◌, ◌||◌}
use mathlib.Core.List.{List, [], ◌∷◌, ◌++◌}
use mathlib.Core.Logic.{◌↔◌, inl, inr}
use native.Mathlib.Omega.{arith}
use arazu.Prelude.Lists.{All, All-append}
use arazu.Prelude.Tests.{ltb, leb, nat_eq, if◌then◌else◌, Bool-cases}

abbrev pub Text : Type 0
Text = List ℕ

abbrev pub codes : String → Text
codes String.[] = []
codes (String.◌∷◌ c s) = code c ∷ codes s

abbrev pub newline : ℕ
newline = 10

abbrev pub slash : ℕ
slash = b'/'

unfoldable pub text_eq : Text → Text → Bool
text_eq [] [] = true
text_eq (c ∷ s) (d ∷ t) = nat_eq c d && text_eq s t
text_eq _ _ = false

pub text_eq_iff : (s t : Text) → (text_eq s t ≡ true) ↔ (s ≡ t)
unfolding text_eq
text_eq_iff [] [] = ((λ _. refl), (λ _. refl))
text_eq_iff [] (d ∷ t) = (cc, cc)
text_eq_iff (c ∷ s) [] = (cc, cc)
text_eq_iff (c ∷ s) (d ∷ t) =
    ((λ h. ground (arith, (text_eq_iff s t).0)), (λ h. ground (arith, (text_eq_iff s t).1)))

-- strings.HasPrefix
unfoldable pub has_prefix : Text → Text → Bool
has_prefix s [] = true
has_prefix [] (d ∷ p) = false
has_prefix (c ∷ s) (d ∷ p) = nat_eq c d && has_prefix s p

-- strings.Contains
unfoldable pub contains : Text → Text → Bool
unfolding has_prefix
contains [] p = has_prefix [] p
contains (c ∷ s) p = has_prefix (c ∷ s) p || contains s p

-- unicode.IsSpace
unfoldable pub is_space : ℕ → Bool
is_space c =
    leb 9 c && leb c 13
    || nat_eq c 32
    || nat_eq c 0x85
    || nat_eq c 0xa0
    || nat_eq c 0x1680
    || leb 0x2000 c && leb c 0x200a
    || nat_eq c 0x2028
    || nat_eq c 0x2029
    || nat_eq c 0x202f
    || nat_eq c 0x205f
    || nat_eq c 0x3000

-- strings.TrimSpace(s) == ""
unfoldable pub blank : Text → Bool
unfolding is_space
blank [] = true
blank (c ∷ s) = is_space c && blank s

trim_left : Text → Text
trim_left [] = []
trim_left (c ∷ s) = let rest = trim_left s in if is_space c then rest else c ∷ s

trim_right : Text → Text
trim_right [] = []
trim_right (c ∷ s) = if blank (c ∷ s) then [] else c ∷ trim_right s

-- strings.TrimSpace
unfoldable pub trim_space : Text → Text
unfolding trim_left trim_right blank is_space
trim_space s = trim_right (trim_left s)

unfoldable pub push : ℕ → List Text → List Text
push c [] = (c ∷ []) ∷ []
push c (w ∷ ws) = (c ∷ w) ∷ ws

-- strings.Split at one character: always at least one part.
unfoldable pub split : ℕ → Text → List Text
unfolding push
split sep [] = [] ∷ []
split sep (c ∷ s) = let rest = split sep s in if nat_eq c sep then [] ∷ rest else push c rest

non_empty : List Text → List Text
non_empty [] = []
non_empty ([] ∷ ws) = non_empty ws
non_empty ((c ∷ w) ∷ ws) = (c ∷ w) ∷ non_empty ws

words : Text → List Text
unfolding push
words [] = [] ∷ []
words (c ∷ s) = let rest = words s in if is_space c then [] ∷ rest else push c rest

-- strings.Fields
unfoldable pub fields : Text → List Text
unfolding non_empty words is_space
fields s = non_empty (words s)

-- The lines of a file as `bufio.ScanLines` cuts them: no line after a final newline, and one
-- carriage return before a newline or the end is dropped.
unfoldable pub drop_cr : Text → Text
drop_cr [] = []
drop_cr (c ∷ []) = if nat_eq c 13 then [] else c ∷ []
drop_cr (c ∷ d ∷ s) = c ∷ drop_cr (d ∷ s)

unfoldable pub raw_lines : Text → List Text
unfolding push
raw_lines [] = []
raw_lines (c ∷ s) = let rest = raw_lines s in if nat_eq c newline then [] ∷ rest else push c rest

drop_crs : List Text → List Text
drop_crs [] = []
drop_crs (l ∷ ls) = drop_cr l ∷ drop_crs ls

unfoldable pub scan_lines : Text → List Text
unfolding raw_lines drop_cr drop_crs
scan_lines s = drop_crs (raw_lines s)

-- The bytes of a text in UTF-8.
unfoldable pub byte_length : Text → ℕ
byte_length [] = 0
byte_length (c ∷ t) =
    let rest = byte_length t in
    if ltb c 0x80
    then 1 + rest
    else if ltb c 0x800
    then 2 + rest
    else if ltb c 0x10000
    then 3 + rest
    else 4 + rest

-- A line fits a scanner's buffer of `size` bytes with its newline.
unfoldable pub fits_in : ℕ → Text → Bool
unfolding byte_length
fits_in size line = ltb (byte_length line) size

-- The names of a set that is kept as a list.
unfoldable pub member : Text → List Text → Bool
unfolding text_eq
member t [] = false
member t (s ∷ ss) = text_eq t s || member t ss

-- m[t]
unfoldable pub lookup : {A : Type 0} → Text → List (Text × A) → Option A
unfolding text_eq
lookup t [] = none
lookup t ((s, a) ∷ rest) = let found = lookup t rest in if text_eq s t then some a else found

-- m[t] = a
unfoldable pub insert : {A : Type 0} → Text → A → List (Text × A) → List (Text × A)
unfolding text_eq
insert t a [] = (t, a) ∷ []
insert t a ((s, b) ∷ rest) =
    let later = insert t a rest in if text_eq s t then (s, a) ∷ rest else (s, b) ∷ later

pub text_eq_refl : (t : Text) → text_eq t t ≡ true
text_eq_refl t = (text_eq_iff t t).1 refl

-- What was put at a name is found there, and the other names keep theirs.
pub lookup-insert_same :
    {A : Type 0} (t : Text) (a : A) (m : List (Text × A)) → lookup t (insert t a m) ≡ some a
unfolding lookup insert
lookup-insert_same t a [] = rw (text_eq_refl t) refl
lookup-insert_same t a ((s, b) ∷ rest) = elim (Bool-cases (text_eq s t)) [
  | inl e ↦ rw (e, e) refl
  | inr e ↦ rw (e, e) (lookup-insert_same t a rest)
]

pub lookup-insert_other :
    {A : Type 0} (u t : Text) (a : A) (m : List (Text × A))
    → text_eq t u ≡ false
    → lookup u (insert t a m) ≡ lookup u m
unfolding lookup insert
lookup-insert_other u t a [] h = rw h refl
lookup-insert_other u t a ((s, b) ∷ rest) h = elim (Bool-cases (text_eq s t)) [
  | inl e ↦ rw (e, subst (λ x. text_eq x u ≡ false) (sym ((text_eq_iff s t).0 e)) h) refl
  | inr e ↦ rw e (ap (λ o. if text_eq s u then some b else o) (lookup-insert_other u t a rest h))
]

-- The pieces of a message, put together: `+` on strings and `fmt.Sprintf`.
unfoldable pub concat : List String → String
concat [] = ""
concat (s ∷ ss) = String.◌++◌ s (concat ss)

digit : ℕ → String
digit n =
    if nat_eq n 0
    then "0"
    else if nat_eq n 1
    then "1"
    else if nat_eq n 2
    then "2"
    else if nat_eq n 3
    then "3"
    else if nat_eq n 4
    then "4"
    else if nat_eq n 5
    then "5"
    else if nat_eq n 6
    then "6"
    else if nat_eq n 7
    then "7"
    else if nat_eq n 8
    then "8"
    else "9"

-- `%d`. The fuel exceeds the number of digits.
decimal_from : ℕ → ℕ → String → String
decimal_from zero n rest = rest
decimal_from (suc fuel) n rest = elim (ltb n 10) [
  | true ↦ String.◌++◌ (digit n) rest
  | false ↦ decimal_from fuel (n / 10) (String.◌++◌ (digit (n % 10)) rest)
]

unfoldable pub decimal : ℕ → String
unfolding decimal_from digit
decimal n = decimal_from (suc n) n ""

-- `%t`
unfoldable pub show_bool : Bool → String
show_bool true = "true"
show_bool false = "false"

-- strings.TrimSpace(s) == "" on a `String`.
abbrev pub is_blank : String → Bool
is_blank s = blank (codes s)

codes-append : (s t : String) → codes (String.◌++◌ s t) ≡ codes s ++ codes t
codes-append String.[] t = ap codes (nil-append t)
codes-append (String.◌∷◌ c s) t =
    ap codes (cons-append c s t) ∙ ap (λ r. code c ∷ r) (codes-append s t)

blank-append : (s t : Text) → blank s ≡ false → blank (s ++ t) ≡ false
unfolding blank
blank-append [] t h = cc
blank-append (c ∷ s) t h = ground (arith, blank-append s t)

-- A message with a first piece that says something says something.
pub is_blank-concat :
    (s : String) (ss : List String) → is_blank s ≡ false → is_blank (concat (s ∷ ss)) ≡ false
unfolding concat
is_blank-concat s ss h = rw (codes-append s (concat ss)) (blank-append (codes s) _ h)

pub decimal_example : decimal 305 ≡ "305"
unfolding decimal
decimal_example = refl

pub trim_example : trim_space (codes " a b \t") ≡ codes "a b"
unfolding trim_space
trim_example = refl

pub fields_example : fields (codes " a  bc ") ≡ codes "a" ∷ codes "bc" ∷ []
unfolding fields
fields_example = refl

pub lines_example : scan_lines (codes "a\n\nb\n") ≡ codes "a" ∷ [] ∷ codes "b" ∷ []
unfolding scan_lines
lines_example = refl

trim_right-line : (t : Text) → All (λ c. is_space c ≡ false) t → trim_right (t ++ newline ∷ []) ≡ t
unfolding trim_right blank is_space
trim_right-line [] h = refl
trim_right-line (c ∷ t) (s, h) = rw s (ap (λ u. c ∷ u) (trim_right-line t h))

-- A word without spaces is what is left of the line that it is.
pub trim_space-line :
    (t : Text) → All (λ c. is_space c ≡ false) t → trim_space (t ++ newline ∷ []) ≡ t
unfolding trim_space trim_left trim_right is_space
trim_space-line [] h = refl
trim_space-line (c ∷ t) (s, h) = rw s (trim_right-line (c ∷ t) (s, h))

-- The digits of a number are no newlines.
abbrev pub NoNewline : Text → Type 0
NoNewline t = All (λ c. nat_eq c newline ≡ false) t

NoNewline-if :
    (b : Bool) (s t : String)
    → NoNewline (codes s)
    → NoNewline (codes t)
    → NoNewline (codes (if b then s else t))
NoNewline-if true s t h k = h
NoNewline-if false s t h k = k

digit-NoNewline : (n : ℕ) → NoNewline (codes (digit n))
unfolding digit
digit-NoNewline n =
    NoNewline-if (nat_eq n 0) _ _ (refl, tt)
      (NoNewline-if (nat_eq n 1) _ _ (refl, tt)
        (NoNewline-if (nat_eq n 2) _ _ (refl, tt)
          (NoNewline-if (nat_eq n 3) _ _ (refl, tt)
            (NoNewline-if (nat_eq n 4) _ _ (refl, tt)
              (NoNewline-if (nat_eq n 5) _ _ (refl, tt)
                (NoNewline-if (nat_eq n 6) _ _ (refl, tt)
                  (NoNewline-if (nat_eq n 7) _ _ (refl, tt)
                    (NoNewline-if (nat_eq n 8) _ _ (refl, tt) (refl, tt)))))))))

NoNewline-append :
    (s t : String) → NoNewline (codes s) → NoNewline (codes t) → NoNewline (codes (String.◌++◌ s t))
NoNewline-append s t h k =
    subst NoNewline (sym (codes-append s t))
      (All-append (λ c. nat_eq c newline ≡ false) (codes s) (codes t) h k)

NoNewline-elim :
    (b : Bool) (s t : String)
    → NoNewline (codes s)
    → NoNewline (codes t)
    → NoNewline (codes (elim b [ true ↦ s | false ↦ t ]))
NoNewline-elim true s t h k = h
NoNewline-elim false s t h k = k

decimal_from-NoNewline :
    (fuel n : ℕ) (rest : String)
    → NoNewline (codes rest)
    → NoNewline (codes (decimal_from fuel n rest))
unfolding decimal_from
decimal_from-NoNewline zero n rest h = h
decimal_from-NoNewline (suc fuel) n rest h =
    NoNewline-elim (ltb n 10) _ _ (NoNewline-append (digit n) rest (digit-NoNewline n) h) (
      decimal_from-NoNewline fuel (n / 10) (String.◌++◌ (digit (n % 10)) rest)
        (NoNewline-append (digit (n % 10)) rest (digit-NoNewline (n % 10)) h))

pub decimal-NoNewline : (n : ℕ) → NoNewline (codes (decimal n))
unfolding decimal
decimal-NoNewline n = decimal_from-NoNewline (suc n) n "" tt

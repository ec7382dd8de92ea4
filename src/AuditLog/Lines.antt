-- ===== src/AuditLog/Lines.antt =====
-- The lines of a file to which whole lines are added.
use arazu.Prelude.{
  ℕ, ◌≡◌, refl, ap, true, false, Bool-cases, inl, inr, nat_eq, List, [], ◌∷◌, ◌++◌, Text, newline,
  raw_lines, push, All, sym, ◌∙◌,
}

-- The file is empty, or its last character is a newline.
abbrev pub Ended : Text → Type 0
Ended [] = Unit
Ended (c ∷ []) = c ≡ newline
Ended (c ∷ d ∷ s) = Ended (d ∷ s)

abbrev pub OneLine : Text → Type 0
OneLine = All (λ c. nat_eq c newline ≡ false)

push-append :
    (c : ℕ) (x : Text) (xs ys : List Text) → push c ((x ∷ xs) ++ ys) ≡ push c (x ∷ xs) ++ ys
unfolding push
push-append c x xs ys = refl

push-cons : (c : ℕ) (xs : List Text) → (y : Text) × (ys : List Text) × (push c xs ≡ y ∷ ys)
unfolding push
push-cons c [] = (c ∷ [], [], refl)
push-cons c (x ∷ xs) = (c ∷ x, xs, refl)

raw_lines-newline :
    (c : ℕ) (s : Text) → nat_eq c newline ≡ true → raw_lines (c ∷ s) ≡ [] ∷ raw_lines s
unfolding raw_lines
raw_lines-newline c s b = rw b refl

raw_lines-other :
    (c : ℕ) (s : Text) → nat_eq c newline ≡ false → raw_lines (c ∷ s) ≡ push c (raw_lines s)
unfolding raw_lines
raw_lines-other c s b = rw b refl

raw_lines-cons : (c : ℕ) (s : Text) → (x : Text) × (xs : List Text) × (raw_lines (c ∷ s) ≡ x ∷ xs)
raw_lines-cons c s = elim (Bool-cases (nat_eq c newline)) [
  | inl b ↦ ([], raw_lines s, raw_lines-newline c s b)
  | inr b ↦ let (y, ys, e) = push-cons c (raw_lines s) in (y, ys, raw_lines-other c s b ∙ e)
]

-- One more character in front, when there is a line behind it.
step-append :
    (c : ℕ) (s t : Text) (xs : List Text) (x : Text)
    → raw_lines s ≡ x ∷ xs
    → raw_lines (s ++ t) ≡ raw_lines s ++ raw_lines t
    → raw_lines (c ∷ (s ++ t)) ≡ raw_lines (c ∷ s) ++ raw_lines t
step-append c s t xs x e ih = elim (Bool-cases (nat_eq c newline)) [
  | inl b ↦
      raw_lines-newline c (s ++ t) b
      ∙ (ap (λ r. [] ∷ r) ih ∙ ap (λ r. r ++ raw_lines t) (sym (raw_lines-newline c s b)))
  | inr b ↦
      raw_lines-other c (s ++ t) b
      ∙ (ap (push c) (ih ∙ ap (λ r. r ++ raw_lines t) e)
          ∙ (push-append c x xs (raw_lines t)
              ∙ (ap (λ r. push c r ++ raw_lines t) (sym e)
                  ∙ ap (λ r. r ++ raw_lines t) (sym (raw_lines-other c s b)))))
]

pub raw_lines-append : (s t : Text) → Ended s → raw_lines (s ++ t) ≡ raw_lines s ++ raw_lines t
raw_lines-append [] t h = unfold raw_lines in refl
raw_lines-append (c ∷ []) t h = rw h (unfold raw_lines in refl)
raw_lines-append (c ∷ d ∷ s) t h =
    let (x, xs, e) = raw_lines-cons d s in
    step-append c (d ∷ s) t xs x e (raw_lines-append (d ∷ s) t h)

-- A line with its newline is one line.
pub raw_lines-line : (m : Text) → OneLine m → raw_lines (m ++ newline ∷ []) ≡ m ∷ []
unfolding raw_lines push
raw_lines-line [] h = refl
raw_lines-line (c ∷ m) (b, h) = rw (b, raw_lines-line m h) refl

pub Ended-append : (s m : Text) → Ended (s ++ (m ++ newline ∷ []))
Ended-append [] [] = refl
Ended-append [] (c ∷ []) = refl
Ended-append [] (c ∷ d ∷ m) = Ended-append [] (d ∷ m)
Ended-append (c ∷ []) [] = refl
Ended-append (c ∷ []) (d ∷ m) = Ended-append [] (d ∷ m)
Ended-append (c ∷ d ∷ s) m = Ended-append (d ∷ s) m

-- ===== src/Corpus/Validity/Fields.antt =====
-- What the tests of one field of a case say.
use arazu.Prelude.{
  ℕ, zero, suc, String, ◌==◌, true, false, Bool-cases, Option-cases, inl, inr, ◌⊎◌, eq_iff, ap, ◌≡◌,
  ◌≢◌, ◌↔◌, refl, List, [], ◌∷◌, Option, none, some, All, ℤ, pos, negsuc, if◌then◌else◌,
  not_positive, is_blank, arith,
}
use arazu.Corpus.Case.{
  Kind, oracle, captured, other_kind, Label, good, nonfunctional, boundary_wrong, incomplete_fix,
  regression, wrong_branch, unclassified, other_label, FalsifyingClass,
}
use arazu.Corpus.Validity.{
  known, is_captured, seen_before, is_root, needs_reason, reason_given, class_given,
}

-- A field with something in it that is not space.
abbrev pub Filled : String → Type 0
Filled s = is_blank s ≡ false

-- The roots that a path can be under; an empty one is the challenge's.
abbrev pub Rooted : String → Type 0
Rooted r = (r ≡ "") ⊎ (r ≡ "challenge") ⊎ (r ≡ "repo")

pub only_uncaptured_iff :
    (k : Kind) (name value : String)
    → All
        (λ (field : String × String). is_blank field.1 ≡ false)
        (if is_captured k then [] else (name, value) ∷ [])
      ↔ (k ≢ captured → Filled value)
unfolding is_captured
only_uncaptured_iff captured name value = ((λ h n. absurd (n refl)), (λ h. tt))
only_uncaptured_iff oracle name value = ((λ h n. h.0), (λ h. (h (λ e. cc), tt)))
only_uncaptured_iff (other_kind k) name value = ((λ h n. h.0), (λ h. (h (λ e. cc), tt)))

pub known_iff : (l : Label) → (known l ≡ true) ↔ ((s : String) → l ≢ other_label s)
unfolding known
known_iff (other_label l) = ((λ h. cc), (λ h. absurd (h l refl)))
known_iff good = ((λ h s e. cc), (λ h. refl))
known_iff nonfunctional = ((λ h s e. cc), (λ h. refl))
known_iff boundary_wrong = ((λ h s e. cc), (λ h. refl))
known_iff incomplete_fix = ((λ h s e. cc), (λ h. refl))
known_iff regression = ((λ h s e. cc), (λ h. refl))
known_iff wrong_branch = ((λ h s e. cc), (λ h. refl))
known_iff unclassified = ((λ h s e. cc), (λ h. refl))

pub is_root_iff : (r : String) → (is_root r ≡ true) ↔ Rooted r
unfolding is_root
is_root_iff r = (
  (λ h. elim (Bool-cases (r == "")) [
    | inl b ↦ inl ((eq_iff r "").0 b)
    | inr b ↦ elim (Bool-cases (r == "challenge")) [
      | inl d ↦ inr (inl ((eq_iff r "challenge").0 d))
      | inr d ↦ inr (inr ((eq_iff r "repo").0 (rw (b, d) at h)))
    ]
  ]),
  (λ h. elim h [ inl e ↦ rw e refl | inr (inl e) ↦ rw e refl | inr (inr e) ↦ rw e refl ]),
)

-- A label that asks for a reason.
needs_reason-cases :
    (l : Label)
    → ((needs_reason l ≡ true) × (l ≢ good) × (l ≢ unclassified))
      ⊎ ((needs_reason l ≡ false) × ((l ≡ good) ⊎ (l ≡ unclassified)))
unfolding needs_reason
needs_reason-cases good = inr (refl, inl refl)
needs_reason-cases unclassified = inr (refl, inr refl)
needs_reason-cases nonfunctional = inl (refl, (λ e. cc), (λ e. cc))
needs_reason-cases boundary_wrong = inl (refl, (λ e. cc), (λ e. cc))
needs_reason-cases incomplete_fix = inl (refl, (λ e. cc), (λ e. cc))
needs_reason-cases regression = inl (refl, (λ e. cc), (λ e. cc))
needs_reason-cases wrong_branch = inl (refl, (λ e. cc), (λ e. cc))
needs_reason-cases (other_label l) = inl (refl, (λ e. cc), (λ e. cc))

pub reason_given_iff :
    (l : Label) (o : Option String)
    → (reason_given l o ≡ true) ↔ (l ≢ good → l ≢ unclassified → (r : String) × (o ≡ some r))
unfolding reason_given
reason_given_iff l (some r) = ((λ h n m. (r, refl)), (λ h. refl))
reason_given_iff l none = elim (needs_reason-cases l) [
  | inl (b, n, m) ↦ rw b ((λ h. cc), (λ h. let (r, e) = h n m in cc))
  | inr (b, e) ↦
      rw b ((λ h n m. elim e [ inl g ↦ absurd (n g) | inr u ↦ absurd (m u) ]), (λ h. refl))
]

pub class_given_iff :
    (o : Option String) (f : Option FalsifyingClass)
    → (class_given o f ≡ true)
      ↔ (o ≡ some "class-replay-fail" → (x : FalsifyingClass) × (f ≡ some x))
unfolding class_given
class_given_iff o (some f) = elim (Option-cases o) [
  | inl e ↦ rw e ((λ h q. (f, refl)), (λ h. refl))
  | inr (r, e) ↦ rw e ((λ h q. (f, refl)), (λ h. refl))
]
class_given_iff none none = ((λ h e. cc), (λ h. refl))
class_given_iff (some r) none = elim (Bool-cases (r == "class-replay-fail")) [
  | inl b ↦
      rw b ((λ h. cc), (λ h. let (x, q) = h (ap some ((eq_iff r "class-replay-fail").0 b)) in cc))
  | inr b ↦ rw b (
    (λ h e. let q : r ≡ "class-replay-fail" = cc e in cc ((eq_iff r "class-replay-fail").1 q, b)),
    (λ h. refl),
  )
]

pub seen_before_iff :
    (id : String) (seen : List String) → (seen_before id seen ≡ false) ↔ All (λ x. x ≢ id) seen
unfolding seen_before
seen_before_iff id [] = ((λ h. tt), (λ h. refl))
seen_before_iff id (x ∷ xs) = elim (Bool-cases (x == id)) [
  | inl b ↦ rw b ((λ h. cc), (λ (n, h). absurd (n ((eq_iff x id).0 b))))
  | inr b ↦ rw b (
    (λ h. ((λ e. cc ((eq_iff x id).1 e, b)), (seen_before_iff id xs).0 h)),
    (λ (n, h). (seen_before_iff id xs).1 h),
  )
]

pub not_empty_iff : (s : String) → ((s == "") ≡ false) ↔ (s ≢ "")
not_empty_iff s = elim (Bool-cases (s == "")) [
  | inl b ↦ ((λ h. cc), (λ n. absurd (n ((eq_iff s "").0 b))))
  | inr b ↦ ((λ h e. cc ((eq_iff s "").1 e, h)), (λ n. b))
]

pub not_positive_iff : (z : ℤ) → (not_positive z ≡ false) ↔ ((n : ℕ) × (z ≡ pos (suc n)))
not_positive_iff (pos zero) = ((λ h. ground arith), (λ (n, e). cc))
not_positive_iff (pos (suc n)) = ((λ h. (n, refl)), (λ h. ground arith))
not_positive_iff (negsuc n) = ((λ h. cc), (λ (n, e). cc))

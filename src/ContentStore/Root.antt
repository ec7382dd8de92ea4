-- ===== src/ContentStore/Root.antt =====
-- The content root is over a text that tells different file lists apart.
use arazu.Prelude.{
  ℕ, suc, nat_eq, true, false, ◌≡◌, refl, ap, sym, subst, ◌∙◌, arith, List, [], ◌∷◌, ◌++◌,
  append_assoc, All, Text, codes, newline, decimal-NoNewline, ℤ, pos, negsuc,
}
use arazu.ContentStore.Accepts.{All-sort_files}
use arazu.ContentStore.{
  FileEntry, sort_files, content_root_domain, signed_digits, root_line, root_lines, root_text,
}

-- A text without a character.
abbrev pub Without : ℕ → Text → Type 0
Without c t = All (λ d. nat_eq d c ≡ false) t

nat_eq_refl : (n : ℕ) → nat_eq n n ≡ true
nat_eq_refl n = ground arith

-- Where a character first stands cuts a text in one way.
cut :
    (c : ℕ) (s s' t t' : Text)
    → Without c s
    → Without c s'
    → (s ++ c ∷ t) ≡ (s' ++ c ∷ t')
    → (s ≡ s') × (t ≡ t')
cut c [] [] t t' h h' e = (refl, cc)
cut c [] (d ∷ s') t t' h (n, h') e =
    let same : c ≡ d = cc in cc (n, subst (λ x. nat_eq d x ≡ true) (sym same) (nat_eq_refl d))
cut c (d ∷ s) [] t t' (n, h) h' e =
    let same : d ≡ c = cc in cc (n, subst (λ x. nat_eq d x ≡ true) same (nat_eq_refl d))
cut c (d ∷ s) (d' ∷ s') t t' (n, h) (n', h') e =
    let same : d ≡ d' = cc in let (p, q) = cut c s s' t t' h h' cc in ((λ i. same i ∷ p i), q)

-- What the root says of a file: its path, its digest and its size, as they are printed.
abbrev pub Fields : Type 0
Fields = Text × Text × Text

pub fields_of : FileEntry → Fields
fields_of f = (codes f.path, codes f.sha256, signed_digits f.size)

pub all_fields : List FileEntry → List Fields
unfolding fields_of
all_fields [] = []
all_fields (f ∷ fs) = fields_of f ∷ all_fields fs

-- A file whose path and digest have no NUL.
abbrev pub NoNul : FileEntry → Type 0
NoNul f = Without 0 (codes f.path) × Without 0 (codes f.sha256)

signed_digits-Without : (z : ℤ) → Without newline (signed_digits z)
unfolding signed_digits
signed_digits-Without (pos n) = decimal-NoNewline n
signed_digits-Without (negsuc n) = (refl, decimal-NoNewline (suc n))

-- What follows the path, and what follows the digest.
abbrev after_digest : FileEntry → Text → Text
after_digest f rest = signed_digits f.size ++ newline ∷ rest

abbrev after_path : FileEntry → Text → Text
after_path f rest = codes f.sha256 ++ 0 ∷ after_digest f rest

line-split :
    (f : FileEntry) (rest : Text) → (root_line f ++ rest) ≡ (codes f.path ++ 0 ∷ after_path f rest)
unfolding root_line
line-split f rest =
    let size = signed_digits f.size ++ newline ∷ [] in
    append_assoc (codes f.path) (0 ∷ (codes f.sha256 ++ 0 ∷ size)) rest
    ∙ ap (λ t. codes f.path ++ 0 ∷ t)
        (append_assoc (codes f.sha256) (0 ∷ size) rest
          ∙ ap (λ t. codes f.sha256 ++ 0 ∷ t)
              (append_assoc (signed_digits f.size) (newline ∷ []) rest))

not-nil : (c : ℕ) (s t : Text) → [] ≡ (s ++ c ∷ t) → ⊥
not-nil c [] t e = cc
not-nil c (d ∷ s) t e = cc

root_lines-injective :
    (fs gs : List FileEntry)
    → All NoNul fs
    → All NoNul gs
    → root_lines fs ≡ root_lines gs
    → all_fields fs ≡ all_fields gs
unfolding root_lines all_fields fields_of
root_lines-injective [] [] h k e = refl
root_lines-injective [] (g ∷ gs) h k e =
    absurd
      (not-nil 0 (codes g.path) (after_path g (root_lines gs)) (e ∙ line-split g (root_lines gs)))
root_lines-injective (f ∷ fs) [] h k e =
    absurd (
      not-nil 0 (codes f.path) (after_path f (root_lines fs))
        (sym e ∙ line-split f (root_lines fs)))
root_lines-injective (f ∷ fs) (g ∷ gs) ((hp, hs), h) ((kp, ks), k) e =
    let e' = sym (line-split f (root_lines fs)) ∙ e ∙ line-split g (root_lines gs) in
    let (p, e1) =
      cut 0 (codes f.path) (codes g.path) (after_path f (root_lines fs))
        (after_path g (root_lines gs)) hp kp e' in
    let (q, e2) =
      cut 0 (codes f.sha256) (codes g.sha256) (after_digest f (root_lines fs))
        (after_digest g (root_lines gs)) hs ks e1 in
    let (r, e3) =
      cut newline (signed_digits f.size) (signed_digits g.size) (root_lines fs) (root_lines gs)
        (signed_digits-Without f.size) (signed_digits-Without g.size) e2 in
    λ i. (p i, q i, r i) ∷ root_lines-injective fs gs h k e3 i

prefix-injective : (p s t : Text) → (p ++ s) ≡ (p ++ t) → s ≡ t
prefix-injective [] s t e = e
prefix-injective (c ∷ p) s t e = prefix-injective p s t cc

-- The texts that two file lists are digested as are equal only if the lists have, in the order of
-- their paths, the same paths, digests and sizes, when no path and no digest has a NUL.
pub root_text-injective :
    (fs gs : List FileEntry)
    → All NoNul fs
    → All NoNul gs
    → root_text fs ≡ root_text gs
    → all_fields (sort_files fs) ≡ all_fields (sort_files gs)
unfolding root_text
root_text-injective fs gs h k e =
    root_lines-injective (sort_files fs) (sort_files gs) ((All-sort_files NoNul fs).1 h)
      ((All-sort_files NoNul gs).1 k)
      (prefix-injective content_root_domain (root_lines (sort_files fs))
        (root_lines (sort_files gs)) e)

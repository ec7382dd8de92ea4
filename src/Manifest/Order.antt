-- ===== src/Manifest/Order.antt =====
-- The order of a manifest's files: sorting them by their paths a second time changes nothing, nor
-- does trimming a second time.
use Prim.Native.Nat.{Ordering, compare as compare_ℕ}
use Prim.Native.String
use Prim.Native.String.{then as and_then_by, compare as compare_text}
use Prim.Native.Char.{code}
use arazu.Prelude.{
  ℕ, String, ◌≡◌, refl, ap, sym, ◌∙◌, Bool, Bool-cases, inl, inr, true, false, arith, List, [], ◌∷◌,
  Text, newline, nat_eq, if◌then◌else◌,
}
use arazu.ContentStore.{FileEntry, before, insert_file, sort_files}
use arazu.Manifest.{trim_newlines}

flip : Ordering → Ordering
flip Ordering.lt = Ordering.gt
flip Ordering.eq = Ordering.eq
flip Ordering.gt = Ordering.lt

flip-then : (o p : Ordering) → flip (and_then_by o p) ≡ and_then_by (flip o) (flip p)
unfolding flip
flip-then Ordering.lt p = refl
flip-then Ordering.eq p = refl
flip-then Ordering.gt p = refl

compare-flip_ℕ : (a b : ℕ) → compare_ℕ b a ≡ flip (compare_ℕ a b)
unfolding flip
compare-flip_ℕ a b = ground arith

compare-flip : (s t : String) → compare_text t s ≡ flip (compare_text s t)
unfolding flip
compare-flip String.[] String.[] = refl
compare-flip String.[] (String.◌∷◌ d t) =
    String.compare.cons-nil d t ∙ sym (ap flip (String.compare.nil-cons d t))
compare-flip (String.◌∷◌ c s) String.[] =
    String.compare.nil-cons c s ∙ sym (ap flip (String.compare.cons-nil c s))
compare-flip (String.◌∷◌ c s) (String.◌∷◌ d t) =
    String.compare.cons-cons d c t s
    ∙ (λ i. and_then_by (compare-flip_ℕ (code c) (code d) i) (compare-flip s t i))
    ∙ sym (flip-then (compare_ℕ (code c) (code d)) (compare_text s t))
    ∙ sym (ap flip (String.compare.cons-cons c d s t))

is_lt : Ordering → Bool
is_lt Ordering.lt = true
is_lt _ = false

is_lt-flip : (o : Ordering) → is_lt o ≡ true → is_lt (flip o) ≡ false
unfolding is_lt flip
is_lt-flip Ordering.lt h = refl
is_lt-flip Ordering.eq h = cc
is_lt-flip Ordering.gt h = cc

before-is_lt : (s t : String) → before s t ≡ is_lt (compare_text s t)
unfolding before is_lt
before-is_lt s t = elim (compare_text s t) [
  | Ordering.lt ↦ refl
  | Ordering.eq ↦ refl
  | Ordering.gt ↦ refl
]

before-asym : (s t : String) → before s t ≡ true → before t s ≡ false
before-asym s t h =
    before-is_lt t s
    ∙ ap is_lt (compare-flip s t)
    ∙ is_lt-flip (compare_text s t) (sym (before-is_lt s t) ∙ h)

-- Entries in the order of their paths: none comes before the one to its left.
abbrev Above : FileEntry → List FileEntry → Type 0
Above f [] = Unit {0}
Above f (g ∷ gs) = before g.path f.path ≡ false

abbrev Sorted : List FileEntry → Type 0
Sorted [] = Unit {0}
Sorted (f ∷ fs) = Above f fs × Sorted fs

insert_file-Above :
    (g f : FileEntry) (gs : List FileEntry)
    → before f.path g.path ≡ false
    → Above g gs
    → Above g (insert_file f gs)
unfolding insert_file
insert_file-Above g f [] b h = b
insert_file-Above g f (k ∷ gs) b h = elim (Bool-cases (before k.path f.path)) [
  | inl e ↦ rw e h
  | inr e ↦ rw e b
]

insert_file-Sorted : (f : FileEntry) (fs : List FileEntry) → Sorted fs → Sorted (insert_file f fs)
unfolding insert_file
insert_file-Sorted f [] h = (tt, tt)
insert_file-Sorted f (g ∷ gs) h = elim (Bool-cases (before g.path f.path)) [
  | inl b ↦
      rw b (insert_file-Above g f gs (before-asym g.path f.path b) h.0, insert_file-Sorted f gs h.1)
  | inr b ↦ rw b (b, h)
]

sort_files-Sorted : (fs : List FileEntry) → Sorted (sort_files fs)
unfolding sort_files
sort_files-Sorted [] = tt
sort_files-Sorted (f ∷ fs) = insert_file-Sorted f (sort_files fs) (sort_files-Sorted fs)

insert_file-first : (f : FileEntry) (fs : List FileEntry) → Above f fs → insert_file f fs ≡ f ∷ fs
unfolding insert_file
insert_file-first f [] h = refl
insert_file-first f (g ∷ gs) h = rw h refl

sort_files-of_Sorted : (fs : List FileEntry) → Sorted fs → sort_files fs ≡ fs
unfolding sort_files
sort_files-of_Sorted [] h = refl
sort_files-of_Sorted (f ∷ fs) (a, h) =
    ap (insert_file f) (sort_files-of_Sorted fs h) ∙ insert_file-first f fs a

pub sort_files_idem : (fs : List FileEntry) → sort_files (sort_files fs) ≡ sort_files fs
sort_files_idem fs = sort_files-of_Sorted (sort_files fs) (sort_files-Sorted fs)

-- A text that does not end in a newline.
add : ℕ → Text → Text
add c [] = if nat_eq c newline then [] else c ∷ []
add c (d ∷ u) = c ∷ d ∷ u

trim_newlines-add : (c : ℕ) (t : Text) → trim_newlines (c ∷ t) ≡ add c (trim_newlines t)
unfolding trim_newlines add
trim_newlines-add c t = elim (trim_newlines t) [ [] ↦ refl | d ∷ u ↦ refl ]

add-nil : (c : ℕ) → nat_eq c newline ≡ false → add c [] ≡ c ∷ []
unfolding add
add-nil c e = rw e refl

trim_newlines-add_idem :
    (c : ℕ) (t : Text) → trim_newlines t ≡ t → trim_newlines (add c t) ≡ add c t
unfolding add trim_newlines
trim_newlines-add_idem c [] h = elim (Bool-cases (nat_eq c newline)) [
  | inl e ↦ rw e h
  | inr e ↦ rw e (trim_newlines-add c [] ∙ add-nil c e)
]
trim_newlines-add_idem c (d ∷ u) h = trim_newlines-add c (d ∷ u) ∙ ap (add c) h

pub trim_newlines_idem : (t : Text) → trim_newlines (trim_newlines t) ≡ trim_newlines t
unfolding trim_newlines
trim_newlines_idem [] = refl
trim_newlines_idem (c ∷ t) =
    ap trim_newlines (trim_newlines-add c t)
    ∙ trim_newlines-add_idem c (trim_newlines t) (trim_newlines_idem t)
    ∙ sym (trim_newlines-add c t)

-- ===== src/ContentStore/Safe.antt =====
-- Which paths `checkPath` lets through.
use arazu.Prelude.{
  ◌≡◌, ◌≢◌, ◌↔◌, ◌==◌, ◌⊎◌, ◌++◌, refl, ap, inl, inr, arith, String, eq_iff, true, false,
  Bool-cases, List, [], ◌∷◌, All, ok, Text, codes, slash, split, text_eq, text_eq_iff, has_prefix,
  has_prefix_iff, nat_eq, nat_eq→path,
}
use arazu.Corpus.Paths.{is_abs, clean}
use arazu.ContentStore.{traverses, allowed, check_path}

-- One of the prefixes starts the path.
abbrev pub Under : List Text → Text → Type 0
Under [] p = ⊥
Under (prefix ∷ rest) p = ((more : Text) × (p ≡ prefix ++ more)) ⊎ Under rest p

-- A path that stays in the directory: it is relative, in the form that filepath.Clean leaves, and
-- none of its segments leads upwards; and it is under one of the allowed prefixes.
pub record Safe (allow : List Text) (p : String) : Type 0 where
  pub some_path : p ≢ ""
  pub relative : (rest : Text) → codes p ≢ b'/' ∷ rest
  pub tidy : clean (codes p) ≡ codes p
  pub no_way_up : All (λ seg. seg ≢ codes "..") (split b'/' (codes p))
  pub under : Under allow (codes p)

is_abs_iff : (p : Text) → (is_abs p ≡ false) ↔ ((rest : Text) → p ≢ b'/' ∷ rest)
unfolding is_abs
is_abs_iff [] = ((λ h r e. cc), (λ h. refl))
is_abs_iff (c ∷ p) = (
  (λ h r e. let d : c ≡ b'/' = cc e in ground (arith, d)),
  (λ h. elim (Bool-cases (nat_eq c b'/')) [
    | inl b ↦ absurd (h p (ap (λ x. x ∷ p) (nat_eq→path c b'/' b)))
    | inr b ↦ b
  ]),
)

traverses_iff : (segs : List Text) → (traverses segs ≡ false) ↔ All (λ seg. seg ≢ codes "..") segs
unfolding traverses
traverses_iff [] = ((λ h. tt), (λ h. refl))
traverses_iff (seg ∷ segs) = elim (Bool-cases (text_eq seg (codes ".."))) [
  | inl b ↦ rw b ((λ h. cc), (λ (n, h). absurd (n ((text_eq_iff seg (codes "..")).0 b))))
  | inr b ↦ rw b (
    (λ h. ((λ e. cc ((text_eq_iff seg (codes "..")).1 e, b)), (traverses_iff segs).0 h)),
    (λ (n, h). (traverses_iff segs).1 h),
  )
]

allowed_iff : (p : Text) (allow : List Text) → (allowed p allow ≡ true) ↔ Under allow p
unfolding allowed
allowed_iff p [] = ((λ h. cc), (λ h. absurd h))
allowed_iff p (prefix ∷ rest) = elim (Bool-cases (has_prefix p prefix)) [
  | inl b ↦ rw b ((λ h. inl ((has_prefix_iff p prefix).0 b)), (λ h. refl))
  | inr b ↦ rw b (
    (λ h. inr ((allowed_iff p rest).0 h)),
    (λ h. elim h [
      | inl m ↦ cc ((has_prefix_iff p prefix).1 m, b)
      | inr u ↦ (allowed_iff p rest).1 u
    ]),
  )
]

check_path-guards :
    (allow : List Text) (p : String)
    → check_path allow p ≡ ok tt
    → ((p == "") ≡ false)
      × (is_abs (codes p) ≡ false)
      × (text_eq (clean (codes p)) (codes p) ≡ true)
      × (traverses (split slash (codes p)) ≡ false)
      × (allowed (codes p) allow ≡ true)
unfolding check_path
check_path-guards allow p h = (ground arith, ground arith, ground arith, ground arith, ground arith)

guards-check_path :
    (allow : List Text) (p : String)
    → (p == "") ≡ false
    → is_abs (codes p) ≡ false
    → text_eq (clean (codes p)) (codes p) ≡ true
    → traverses (split slash (codes p)) ≡ false
    → allowed (codes p) allow ≡ true
    → check_path allow p ≡ ok tt
unfolding check_path
guards-check_path allow p a b c d e = ground (arith, a, b, c, d, e)

pub check_path_iff : (allow : List Text) (p : String) → (check_path allow p ≡ ok tt) ↔ Safe allow p
check_path_iff allow p =
    let e = eq_iff p "" in
    let a = is_abs_iff (codes p) in
    let t = text_eq_iff (clean (codes p)) (codes p) in
    let u = traverses_iff (split b'/' (codes p)) in
    let w = allowed_iff (codes p) allow in
    (
      (λ h.
          let (q, r, s, v, x) = check_path-guards allow p h in
          record {
            some_path = λ z. cc (e.1 z, q);
            relative = a.0 r;
            tidy = t.0 s;
            no_way_up = u.0 v;
            under = w.0 x;
          }),
      (λ s.
          guards-check_path allow p
            (elim (Bool-cases (p == "")) [ inl b ↦ absurd (s.some_path (e.0 b)) | inr b ↦ b ])
            (a.1 s.relative) (t.1 s.tidy) (u.1 s.no_way_up) (w.1 s.under)),
    )

-- ===== src/CrsOut/Paired.antt =====
-- The names of artifacts, and the pair of a patch and a reproducer.
use arazu.Prelude.{
  ℕ, zero, suc, ◌-◌, String, Bool, true, false, not, ◌&&◌, Bool-cases, Option-cases, inl, inr, ◌⊎◌,
  ◌≡◌, ◌≢◌, ◌↔◌, refl, sym, ap, ◌∙◌, arith, List, [], ◌∷◌, ◌++◌, All, length, length-append, take,
  drop, Option, none, some, Result, ok, err, ok-injective, Text, codes, text_eq, text_eq_iff,
}
use arazu.CrsOut.{
  Bundle, Listing, not_there, unlisted, entries, Task, sort_names, without_suffix, keep_stem, stems,
  artifacts, is_empty, ties, tied, only_ones, or_only, pair,
}

-- The stems of the files with the suffix, in the order of the names; directories are passed over.
abbrev pub Stems : Text → List (Text × Bool) → List Text → Type 0
Stems ext [] ids = ids ≡ []
Stems ext ((name, true) ∷ more) ids = Stems ext more ids
Stems ext ((name, false) ∷ more) ids =
    ((stem : Text) × (rest : List Text) × (name ≡ stem ++ ext)
      × (ids ≡ stem ∷ rest)
      × Stems ext more rest)
    ⊎ (((stem : Text) → name ≢ stem ++ ext) × Stems ext more ids)

-- What artifacts finds: nothing where there is no directory, and the sorted stems.
abbrev pub Listed : Text → Listing → List Text → Type 0
Listed ext not_there ids = ids ≡ []
Listed ext (unlisted e) ids = ⊥
Listed ext (entries names) ids =
    (found : List Text) × Stems ext names found × (ids ≡ sort_names found)

-- A bundle that can be read names the patch and the reproducer, and neither name is empty.
abbrev pub Ties : Option Bundle → Text × Text → Type 0
Ties read (patch, pov) =
    (b : Bundle) × (read ≡ some b)
    × (b.patch_id ≡ patch)
    × (b.pov_id ≡ pov)
    × (patch ≢ [])
    × (pov ≢ [])

abbrev pub NoTie : Option Bundle → Type 0
NoTie read = (p : Text × Text) → ¬ Ties read p

-- The first bundle that ties a patch to a reproducer ties these.
abbrev pub FirstTies : (Text → Option Bundle) → List Text → Text × Text → Type 0
FirstTies read [] p = ⊥
FirstTies read (id ∷ ids) p = Ties (read id) p ⊎ (NoTie (read id) × FirstTies read ids p)

-- The pair is that of the first bundle that ties one; or no bundle does, and it is the only patch
-- with the only reproducer.
pub record Paired (task : Task) (patches povs : List Text) (p : Text × Text) : Type 0 where
  pub bundles : List Text
  pub bundles_listed : Listed (codes ".json") task.bundles bundles
  pub chosen :
      FirstTies task.read_bundle bundles p
      ⊎ (All (λ id. NoTie (task.read_bundle id)) bundles × (patches ≡ p.0 ∷ []) × (povs ≡ p.1 ∷ []))

take-drop : (n : ℕ) (t : Text) → t ≡ take n t ++ drop n t
unfolding take drop
take-drop zero t = refl
take-drop (suc n) [] = refl
take-drop (suc n) (c ∷ t) = ap (λ u. c ∷ u) (take-drop n t)

take-length : (s t : Text) → take (length s) (s ++ t) ≡ s
unfolding take
take-length [] t = refl
take-length (c ∷ s) t = ap (λ u. c ∷ u) (take-length s t)

drop-length : (s t : Text) → drop (length s) (s ++ t) ≡ t
unfolding drop
drop-length [] t = refl
drop-length (c ∷ s) t = drop-length s t

without_suffix-append : (stem ext : Text) → without_suffix ext (stem ++ ext) ≡ some stem
unfolding without_suffix
without_suffix-append stem ext =
    let n : length (stem ++ ext) - length ext ≡ length stem =
      omega (arith, length-append stem ext) in
    rw (n, drop-length stem ext, (text_eq_iff ext ext).1 refl, take-length stem ext) refl

without_suffix-some :
    (ext name stem : Text) → without_suffix ext name ≡ some stem → name ≡ stem ++ ext
unfolding without_suffix
without_suffix-some ext name stem h =
    let n = length name - length ext in
    elim (Bool-cases (text_eq (drop n name) ext)) [
      | inl b ↦
          let q : take n name ≡ stem = cc (rw b at h) in
          take-drop n name
          ∙ (ap (λ u. take n name ++ u) ((text_eq_iff (drop n name) ext).0 b)
              ∙ ap (λ u. u ++ ext) q)
      | inr b ↦ cc (rw b at h)
    ]

stems-Stems : (ext : Text) (names : List (Text × Bool)) → Stems ext names (stems ext names)
unfolding stems keep_stem
stems-Stems ext [] = refl
stems-Stems ext ((name, true) ∷ more) = stems-Stems ext more
stems-Stems ext ((name, false) ∷ more) = elim (Option-cases (without_suffix ext name)) [
  | inl e ↦ rw e (
      inr (
        (λ stem q. cc (ap (without_suffix ext) q ∙ without_suffix-append stem ext, e)),
        stems-Stems ext more,
      ))
  | inr (stem, e) ↦
      rw e (
        inl (stem, stems ext more, without_suffix-some ext name stem e, refl, stems-Stems ext more))
]

Stems-stems :
    (ext : Text) (names : List (Text × Bool)) (ids : List Text)
    → Stems ext names ids
    → ids ≡ stems ext names
unfolding stems keep_stem
Stems-stems ext [] ids h = h
Stems-stems ext ((name, true) ∷ more) ids h = Stems-stems ext more ids h
Stems-stems ext ((name, false) ∷ more) ids (inl (stem, rest, e, q, h)) =
    let found = ap (without_suffix ext) e ∙ without_suffix-append stem ext in
    rw found (q ∙ ap (λ u. stem ∷ u) (Stems-stems ext more rest h))
Stems-stems ext ((name, false) ∷ more) ids (inr (n, h)) =
    elim (Option-cases (without_suffix ext name)) [
      | inl e ↦ rw e (Stems-stems ext more ids h)
      | inr (stem, e) ↦ absurd (n stem (without_suffix-some ext name stem e))
    ]

pub artifacts-Listed_iff :
    (ext : Text) (l : Listing) (ids : List Text) → (artifacts ext l ≡ ok ids) ↔ Listed ext l ids
unfolding artifacts
artifacts-Listed_iff ext not_there ids = ((λ h. sym (ok-injective h)), (λ e. ap ok (sym e)))
artifacts-Listed_iff ext (unlisted e) ids = ((λ h. cc), (λ h. absurd h))
artifacts-Listed_iff ext (entries names) ids = (
  (λ h. (stems ext names, stems-Stems ext names, sym (ok-injective h))),
  (λ (found, s, e). ap ok (ap sort_names (sym (Stems-stems ext names found s)) ∙ sym e)),
)

is_empty_iff : (t : Text) → (is_empty t ≡ false) ↔ (t ≢ [])
unfolding is_empty
is_empty_iff [] = ((λ h. cc), (λ n. absurd (n refl)))
is_empty_iff (c ∷ t) = ((λ h e. cc), (λ n. refl))

both_named : (a b : Bool) → (not a && not b) ≡ true → (a ≡ false) × (b ≡ false)
both_named a b h = ground arith

some-injective : {p q : Text × Text} → Path (Option (Text × Text)) (some p) (some q) → p ≡ q
some-injective h = cc

ties-Ties : (read : Option Bundle) (p : Text × Text) → ties read ≡ some p → Ties read p
unfolding ties
ties-Ties none p h = cc
ties-Ties (some b) (x, y) h =
    elim (Bool-cases (not (is_empty b.patch_id) && not (is_empty b.pov_id))) [
      | inl c ↦
          let (n, m) = both_named _ _ c in
          let same : some (b.patch_id, b.pov_id) ≡ some (x, y) = rw c at h in
          let q = some-injective same in
          let e : b.patch_id ≡ x = ap (λ u. u.0) q in
          let f : b.pov_id ≡ y = ap (λ u. u.1) q in
          (
            b,
            refl,
            e,
            f,
            (λ z. (is_empty_iff b.patch_id).0 n (e ∙ z)),
            (λ z. (is_empty_iff b.pov_id).0 m (f ∙ z)),
          )
      | inr c ↦ cc (rw c at h)
    ]

Ties-ties : (read : Option Bundle) (p : Text × Text) → Ties read p → ties read ≡ some p
unfolding ties
Ties-ties read (x, y) (b, r, e, f, n, m) =
    let s = (is_empty_iff b.patch_id).1 (λ z. n (sym e ∙ z)) in
    let t = (is_empty_iff b.pov_id).1 (λ z. m (sym f ∙ z)) in
    ap ties r ∙ (unfold ties in rw (s, t) (λ i. some (e i, f i)))

ties-NoTie : (read : Option Bundle) → ties read ≡ none → NoTie read
ties-NoTie read h p t = cc (Ties-ties read p t, h)

NoTie-ties : (read : Option Bundle) → NoTie read → ties read ≡ none
NoTie-ties read n = elim (Option-cases (ties read)) [
  | inl e ↦ e
  | inr (p, e) ↦ absurd (n p (ties-Ties read p e))
]

module _ (read : Text → Option Bundle) where
  tied-FirstTies :
      (ids : List Text) (p : Text × Text) → tied read ids ≡ some p → FirstTies read ids p
  unfolding tied
  tied-FirstTies [] p h = cc
  tied-FirstTies (id ∷ ids) p h = elim (Option-cases (ties (read id))) [
    | inl e ↦ inr (ties-NoTie (read id) e, tied-FirstTies ids p (rw e at h))
    | inr (q, e) ↦ let same : some q ≡ some p = rw e at h in inl (ties-Ties (read id) p (e ∙ same))
  ]

  FirstTies-tied :
      (ids : List Text) (p : Text × Text) → FirstTies read ids p → tied read ids ≡ some p
  unfolding tied
  FirstTies-tied [] p h = absurd h
  FirstTies-tied (id ∷ ids) p (inl t) = rw (Ties-ties (read id) p t) refl
  FirstTies-tied (id ∷ ids) p (inr (n, h)) = rw (NoTie-ties (read id) n) (FirstTies-tied ids p h)

  tied-none : (ids : List Text) → (tied read ids ≡ none) ↔ All (λ id. NoTie (read id)) ids
  unfolding tied
  tied-none [] = ((λ h. tt), (λ h. refl))
  tied-none (id ∷ ids) = elim (Option-cases (ties (read id))) [
    | inl e ↦
        rw e ((λ h. (ties-NoTie (read id) e, (tied-none ids).0 h)), (λ (n, h). (tied-none ids).1 h))
    | inr (q, e) ↦ rw e ((λ h. cc), (λ (n, h). absurd (n q (ties-Ties (read id) q e))))
  ]

only_ones-some :
    (patches povs : List Text) (p : Text × Text)
    → only_ones patches povs ≡ some p
    → (patches ≡ p.0 ∷ []) × (povs ≡ p.1 ∷ [])
unfolding only_ones
only_ones-some (patch ∷ []) (pov ∷ []) p h =
    let q : (patch, pov) ≡ p = cc h in (ap (λ u. u.0 ∷ []) q, ap (λ u. u.1 ∷ []) q)
only_ones-some [] povs p h = cc
only_ones-some (patch ∷ []) [] p h = cc
only_ones-some (patch ∷ []) (pov ∷ more ∷ rest) p h = cc
only_ones-some (patch ∷ more ∷ rest) povs p h = cc

module _ (task : Task) (patches povs : List Text) (p : Text × Text) where
  choose :
      (ids : List Text)
      → (or_only (tied task.read_bundle ids) patches povs ≡ some p) ↔ (
          FirstTies task.read_bundle ids p
          ⊎ (All (λ id. NoTie (task.read_bundle id)) ids
              × (patches ≡ p.0 ∷ [])
              × (povs ≡ p.1 ∷ [])))
  unfolding or_only only_ones
  choose ids = (
    (λ h. elim (Option-cases (tied task.read_bundle ids)) [
      | inl e ↦
          let (a, b) = only_ones-some patches povs p (rw e at h) in
          inr ((tied-none task.read_bundle ids).0 e, a, b)
      | inr (q, e) ↦
          let same : some q ≡ some p = rw e at h in
          inl (tied-FirstTies task.read_bundle ids p (e ∙ same))
    ]),
    (λ h. elim h [
      | inl f ↦ rw (FirstTies-tied task.read_bundle ids p f) refl
      | inr (n, a, b) ↦ rw ((tied-none task.read_bundle ids).1 n, a, b) refl
    ]),
  )

  pair-listed :
      (r : Result String (List Text))
      → pair task patches povs r ≡ some p
      → (ids : List Text) × (r ≡ ok ids)
        × (or_only (tied task.read_bundle ids) patches povs ≡ some p)
  unfolding pair
  pair-listed (ok ids) h = (ids, refl, h)
  pair-listed (err e) h = cc

  pub pair-Paired_iff :
      (pair task patches povs (artifacts (codes ".json") task.bundles) ≡ some p)
      ↔ Paired task patches povs p
  pair-Paired_iff = (
    (λ h.
        let (ids, l, c) = pair-listed (artifacts (codes ".json") task.bundles) h in
        record {
          bundles = ids;
          bundles_listed = (artifacts-Listed_iff (codes ".json") task.bundles ids).0 l;
          chosen = (choose ids).0 c;
        }),
    (λ c.
        ap (pair task patches povs)
          ((artifacts-Listed_iff (codes ".json") task.bundles c.bundles).1 c.bundles_listed)
        ∙ (unfold pair in (choose c.bundles).1 c.chosen)),
  )

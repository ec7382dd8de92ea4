-- ===== src/ContentStore/Accepts.antt =====
-- What `VerifyAgainst` accepts.
use arazu.Prelude.{
  and_then_iff, each_iff, ℕ, String, ◌==◌, eq_iff, ◌≡◌, ◌↔◌, refl, ap, subst, sym, ◌∙◌, Bool-cases,
  inl, inr, ◌⊎◌, arith, List, [], ◌∷◌, Option, none, some, Result, ok, err, ok-injective, Text,
  true, All, All-weaken, ℤ, pos, negsuc, nat_eq→path,
}
use arazu.ContentStore.{
  FileEntry, Node, directory, regular, locked, special, Tree, StoreError, found, walk, before,
  insert_file, sort_files, sorted, scan_dir, node_at, exists_as, size_is, hashes_to, listed,
  is_bundle_metadata, check_listed, after_scan, verify_against,
}
use arazu.ContentStore.Safe.{Safe, check_path_iff}

module _ (P : FileEntry → Type 0) where
  All-insert_file :
      (f : FileEntry) (fs : List FileEntry) → All P (insert_file f fs) ↔ All P (f ∷ fs)
  unfolding insert_file
  All-insert_file f [] = ((λ h. h), (λ h. h))
  All-insert_file f (g ∷ gs) = elim (Bool-cases (before g.path f.path)) [
    | inl b ↦ rw b (
      (λ h. let (a, r) = (All-insert_file f gs).0 h.1 in (a, (h.0, r))),
      (λ h. (h.1.0, (All-insert_file f gs).1 (h.0, h.1.1))),
    )
    | inr b ↦ rw b ((λ h. h), (λ h. h))
  ]

  pub All-sort_files : (fs : List FileEntry) → All P (sort_files fs) ↔ All P fs
  unfolding sort_files
  All-sort_files [] = ((λ h. h), (λ h. h))
  All-sort_files (f ∷ fs) = (
    (λ h. let (a, r) = (All-insert_file f (sort_files fs)).0 h in (a, (All-sort_files fs).0 r)),
    (λ h. (All-insert_file f (sort_files fs)).1 (h.0, (All-sort_files fs).1 h.1)),
  )

-- An entry of the directory that a store may hold, where `ok_at` says which files it may hold.
abbrev pub Plain : (String → Type 0) → String × Node → Type 0
Plain ok_at (p, directory) = Unit
Plain ok_at (p, regular sum size) = ok_at p
Plain ok_at (p, locked m) = ⊥
Plain ok_at (p, special) = ⊥

-- Some file of the manifest is at the path.
abbrev pub Names : List FileEntry → String → Type 0
Names [] p = ⊥
Names (f ∷ fs) p = (f.path ≡ p) ⊎ Names fs p

-- A file that the manifest lists, or the manifest or its signature.
abbrev pub Expected : List FileEntry → String → Type 0
Expected files p = (p ≡ "manifest.json") ⊎ (p ≡ "manifest.sig") ⊎ Names files p

-- A file of the manifest is at its path, with its digest and its size.
abbrev pub Pinned : Tree → FileEntry → Type 0
Pinned tree f = (n : ℕ) × (node_at f.path tree ≡ some (regular f.sha256 n)) × (f.size ≡ pos n)

pub record Matches (tree : Tree) (files : List FileEntry) (allow : List Text) : Type 0 where
  pub safe : All (λ f. Safe allow f.path) files
  pub pinned : All (Pinned tree) files
  pub covered : All (Plain (Expected files)) tree

listed_iff : (p : String) (files : List FileEntry) → (listed p files ≡ true) ↔ Names files p
unfolding listed
listed_iff p [] = ((λ h. cc), (λ h. absurd h))
listed_iff p (f ∷ fs) = elim (Bool-cases (f.path == p)) [
  | inl b ↦ rw b ((λ h. inl ((eq_iff f.path p).0 b)), (λ h. refl))
  | inr b ↦ rw b (
    (λ h. inr ((listed_iff p fs).0 h)),
    (λ h. elim h [ inl e ↦ cc ((eq_iff f.path p).1 e, b) | inr n ↦ (listed_iff p fs).1 n ]),
  )
]

is_bundle_metadata_iff :
    (p : String) → (is_bundle_metadata p ≡ true) ↔ ((p ≡ "manifest.json") ⊎ (p ≡ "manifest.sig"))
unfolding is_bundle_metadata
is_bundle_metadata_iff p = elim (Bool-cases (p == "manifest.json")) [
  | inl b ↦ rw b ((λ h. inl ((eq_iff p "manifest.json").0 b)), (λ h. refl))
  | inr b ↦ rw b (
    (λ h. inr ((eq_iff p "manifest.sig").0 h)),
    (λ h. elim h [
      | inl e ↦ cc ((eq_iff p "manifest.json").1 e, b)
      | inr e ↦ (eq_iff p "manifest.sig").1 e
    ]),
  )
]

check_listed_iff :
    (files : List FileEntry) (f : FileEntry)
    → (check_listed files f ≡ ok tt) ↔ Expected files f.path
unfolding check_listed
check_listed_iff files f = elim (Bool-cases (is_bundle_metadata f.path)) [
  | inl b ↦ rw b (
    (λ h. elim ((is_bundle_metadata_iff f.path).0 b) [ inl e ↦ inl e | inr e ↦ inr (inl e) ]),
    (λ h. refl),
  )
  | inr b ↦ elim (Bool-cases (listed f.path files)) [
    | inl c ↦ rw (b, c) ((λ h. inr (inr ((listed_iff f.path files).0 c))), (λ h. refl))
    | inr c ↦
        rw (b, c)
          (
            (λ h. cc),
            (λ h. elim h [
              | inl e ↦ cc ((is_bundle_metadata_iff f.path).1 (inl e), b)
              | inr (inl e) ↦ cc ((is_bundle_metadata_iff f.path).1 (inr e), b)
              | inr (inr n) ↦ cc ((listed_iff f.path files).1 n, c)
            ]),
          )
  ]
]

found-ok :
    (f : FileEntry) (r : Result StoreError (List FileEntry)) (fs : List FileEntry)
    → found f r ≡ ok fs
    → (gs : List FileEntry) × (r ≡ ok gs) × (f ∷ gs ≡ fs)
unfolding found
found-ok f (ok gs) fs h = (gs, refl, ok-injective h)
found-ok f (err e) fs h = cc

walk-Plain :
    (ok_at : String → Type 0) (tree : Tree) (fs : List FileEntry)
    → walk tree ≡ ok fs
    → All (λ f. ok_at f.path) fs
    → All (Plain ok_at) tree
unfolding walk
walk-Plain ok_at [] fs h a = tt
walk-Plain ok_at ((p, directory) ∷ rest) fs h a = (tt, walk-Plain ok_at rest fs h a)
walk-Plain ok_at ((p, regular sum size) ∷ rest) fs h a =
    let (gs, e, q) =
      found-ok (record { path = p; sha256 = sum; size = pos size }) (walk rest) fs h in
    let (here, later) = subst (All (λ f. ok_at f.path)) (sym q) a in
    (here, walk-Plain ok_at rest gs e later)
walk-Plain ok_at ((p, locked m) ∷ rest) fs h a = cc
walk-Plain ok_at ((p, special) ∷ rest) fs h a = cc

Plain-walk :
    (ok_at : String → Type 0) (tree : Tree)
    → All (Plain ok_at) tree
    → (fs : List FileEntry) × (walk tree ≡ ok fs) × All (λ f. ok_at f.path) fs
unfolding walk found
Plain-walk ok_at [] h = ([], refl, tt)
Plain-walk ok_at ((p, directory) ∷ rest) (_, h) = Plain-walk ok_at rest h
Plain-walk ok_at ((p, regular sum size) ∷ rest) (here, h) =
    let (fs, e, a) = Plain-walk ok_at rest h in
    (
      record { path = p; sha256 = sum; size = pos size } ∷ fs,
      ap (found (record { path = p; sha256 = sum; size = pos size })) e,
      (here, a),
    )
Plain-walk ok_at ((p, locked m) ∷ rest) (h, _) = absurd h
Plain-walk ok_at ((p, special) ∷ rest) (h, _) = absurd h

size_is-pos : (n : ℕ) (z : ℤ) → size_is n z ≡ true → z ≡ pos n
unfolding size_is
size_is-pos n (pos k) h = ap pos (sym (nat_eq→path n k h))
size_is-pos n (negsuc k) h = cc

pos-size_is : (n : ℕ) (z : ℤ) → z ≡ pos n → size_is n z ≡ true
unfolding size_is
pos-size_is n (pos k) h = ground arith
pos-size_is n (negsuc k) h = cc

hashes_to-Pinned :
    (tree : Tree) (f : FileEntry) (o : Option Node)
    → node_at f.path tree ≡ o
    → hashes_to f o ≡ ok tt
    → Pinned tree f
unfolding hashes_to
hashes_to-Pinned tree f none e h = cc
hashes_to-Pinned tree f (some directory) e h = cc
hashes_to-Pinned tree f (some special) e h = cc
hashes_to-Pinned tree f (some (locked m)) e h = cc
hashes_to-Pinned tree f (some (regular sum size)) e h = elim (Bool-cases (sum == f.sha256)) [
  | inl b ↦ elim (Bool-cases (size_is size f.size)) [
    | inl c ↦ (
      size,
      e ∙ ap (λ s. some (regular s size)) ((eq_iff sum f.sha256).0 b),
      size_is-pos size f.size c,
    )
    | inr c ↦ cc (rw (b, c) at h)
  ]
  | inr b ↦ cc (rw b at h)
]

Pinned-hashes_to :
    (tree : Tree) (f : FileEntry)
    → Pinned tree f
    → (exists_as f.path (node_at f.path tree) ≡ ok tt) × (hashes_to f (node_at f.path tree) ≡ ok tt)
unfolding exists_as hashes_to
Pinned-hashes_to tree f (n, e, z) = (
  ap (exists_as f.path) e,
  ap (hashes_to f) e ∙ rw ((eq_iff f.sha256 f.sha256).1 refl, pos-size_is n f.size z) refl,
)

-- The three loops behind the scan.
after_scan-ok :
    (tree : Tree) (files : List FileEntry) (r : Result StoreError (List FileEntry))
    → after_scan tree files (sorted r) ≡ ok tt
    → (present : List FileEntry) × (r ≡ ok present)
      × All (λ f. hashes_to f (node_at f.path tree) ≡ ok tt) files
      × All (λ f. Expected files f.path) present
unfolding after_scan sorted
after_scan-ok tree files (err e) h = cc
after_scan-ok tree files (ok present) h =
    let (_, later) = (and_then_iff _ _).0 h in
    let (hashes, lists) = (and_then_iff _ _).0 later in
    let in_order = (each_iff (check_listed files) (sort_files present)).0 lists in
    (
      present,
      refl,
      (each_iff _ files).0 hashes,
      All-weaken present (λ f c. (check_listed_iff files f).0 c)
          ((All-sort_files (λ f. check_listed files f ≡ ok tt) present).0 in_order),
    )

ok-after_scan :
    (tree : Tree) (files present : List FileEntry) (r : Result StoreError (List FileEntry))
    → r ≡ ok present
    → All (Pinned tree) files
    → All (λ f. Expected files f.path) present
    → after_scan tree files (sorted r) ≡ ok tt
unfolding after_scan sorted
ok-after_scan tree files present (err e) h pinned lists = cc
ok-after_scan tree files present (ok fs) h pinned lists = (and_then_iff _ _).1 (
  (each_iff _ files).1 (All-weaken files (λ f c. (Pinned-hashes_to tree f c).0) pinned),
  (and_then_iff _ _).1 (
    (each_iff _ files).1 (All-weaken files (λ f c. (Pinned-hashes_to tree f c).1) pinned),
    (each_iff (check_listed files) (sort_files fs)).1 (
        (All-sort_files (λ f. check_listed files f ≡ ok tt) fs).1 (
          All-weaken fs (λ f c. (check_listed_iff files f).1 c)
            (subst (All (λ f. Expected files f.path)) (sym (ok-injective h)) lists))),
  ),
)

-- `VerifyAgainst` accepts a directory exactly when every path of the manifest is relative, clean,
-- without a segment `..` and under one of the allowed prefixes, every file of the manifest is there with its digest and its size, and nothing is in the directory
-- but directories and regular files that can be read, each of which the manifest lists or is the
-- manifest or its signature.
pub verify_against-iff-Matches :
    (tree : Tree) (files : List FileEntry) (allow : List Text)
    → (verify_against tree files allow ≡ ok tt) ↔ Matches tree files allow
unfolding verify_against scan_dir
verify_against-iff-Matches tree files allow = (
  (λ h.
      let (safe, scanned) = (and_then_iff _ _).0 h in
      let (present, e, hashes, lists) = after_scan-ok tree files (walk tree) scanned in
      record {
        safe =
            All-weaken files (λ f c. (check_path_iff allow f.path).0 c) ((each_iff _ files).0 safe);
        pinned =
            All-weaken files (λ f c. hashes_to-Pinned tree f (node_at f.path tree) refl c) hashes;
        covered = walk-Plain (Expected files) tree present e lists;
      }),
  (λ m.
      let (present, e, lists) = Plain-walk (Expected files) tree m.covered in
      (and_then_iff _ _).1 (
        (each_iff _ files).1 (All-weaken files (λ f c. (check_path_iff allow f.path).1 c) m.safe),
        ok-after_scan tree files present (walk tree) e m.pinned lists,
      )),
)

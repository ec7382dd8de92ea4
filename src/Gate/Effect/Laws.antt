-- ===== src/Gate/Effect/Laws.antt =====
-- Which patches `EffectStage` passes.
use arazu.Prelude.{
  ℕ, suc, ◌+◌, String, true, false, ◌≡◌, ◌≢◌, refl, List, [], ◌∷◌, ◌++◌, ok, Text, codes,
  has_prefix, scan_lines, nat_eq, ◌↔◌, arith, ◌⊎◌, inl, inr, Bool-cases, ap, ok-injective,
  zero-cases, has_prefix_iff, blank, is_blank-concat,
}
use arazu.Corpus.Reasons.{reason_empty_patch}
use arazu.Corpus.Case.{candidate_patch_path}
use arazu.Gate.Decision.{passed, failed, StageResult}
use arazu.Gate.Decision.Support.{IsObserved, Says}
use arazu.Gate.Verify.{Input}
use arazu.Gate.Verify.Total.{Reports, name_result-IsObserved}
use arazu.Gate.Effect.{
  Opened, unopened, torn, content, Counts, is_header, count_line, count_lines, no_counts,
  effect_evidence, effect_result, grade_file, effect_run, effect_stage,
}

-- A line of a file header: three plus or minus signs and a space open it.
abbrev pub Header : Text → Type 0
Header line =
    ((name : Text) × (line ≡ codes "+++ " ++ name))
    ⊎ ((name : Text) × (line ≡ codes "--- " ++ name))

-- A line that adds or removes something: a `+` or a `-` opens it, and it is no file header.
abbrev pub Changes : Text → Type 0
Changes line =
    (¬ Header line)
    × (((text : Text) × (line ≡ b'+' ∷ text)) ⊎ ((text : Text) × (line ≡ b'-' ∷ text)))

abbrev pub SomeChange : List Text → Type 0
SomeChange [] = ⊥
SomeChange (line ∷ lines) = Changes line ⊎ SomeChange lines

abbrev changed : Counts → ℕ
changed n = n.added + n.removed

-- A hunk header is no added and no removed line.
hunk_header_plain :
    (line : Text)
    → has_prefix line (codes "@@") ≡ true
    → (has_prefix line (codes "+") ≡ false) × (has_prefix line (codes "-") ≡ false)
unfolding has_prefix
hunk_header_plain [] h = cc
hunk_header_plain (c ∷ s) h = ground arith

is_header_iff : (line : Text) → (is_header line ≡ true) ↔ Header line
unfolding is_header
is_header_iff line = (
  (λ h. elim (Bool-cases (has_prefix line (codes "+++ "))) [
    | inl b ↦ inl ((has_prefix_iff line (codes "+++ ")).0 b)
    | inr b ↦ inr ((has_prefix_iff line (codes "--- ")).0 (rw b at h))
  ]),
  (λ h. elim h [
    | inl n ↦ rw ((has_prefix_iff line (codes "+++ ")).1 n) refl
    | inr n ↦ let q = (has_prefix_iff line (codes "--- ")).1 n in ground (arith, q)
  ]),
)

-- The same by the tests of the switch.
abbrev Counted : Text → Type 0
Counted line =
    (is_header line ≡ false)
    × ((has_prefix line (codes "+") ≡ true) ⊎ (has_prefix line (codes "-") ≡ true))

Counted-iff-Changes : (line : Text) → Counted line ↔ Changes line
Counted-iff-Changes line = (
  (λ (h, c). (
    (λ q. cc ((is_header_iff line).1 q, h)),
    elim c [
      | inl p ↦ inl ((has_prefix_iff line (codes "+")).0 p)
      | inr p ↦ inr ((has_prefix_iff line (codes "-")).0 p)
    ],
  )),
  (λ (h, c). (
    elim (Bool-cases (is_header line)) [
      | inl b ↦ absurd (h ((is_header_iff line).0 b))
      | inr b ↦ b
    ],
    elim c [
      | inl p ↦ inl ((has_prefix_iff line (codes "+")).1 p)
      | inr p ↦ inr ((has_prefix_iff line (codes "-")).1 p)
    ],
  )),
)

count_line-Changes :
    (line : Text) (n : Counts) → Changes line → changed (count_line line n) ≡ suc (changed n)
unfolding count_line
count_line-Changes line n k =
    let (h, c) = (Counted-iff-Changes line).1 k in ground (arith, hunk_header_plain line, h, c)

count_line_other :
    (line : Text) (n : Counts) → ¬ Counted line → changed (count_line line n) ≡ changed n
unfolding count_line
count_line_other line n h = ground arith

count_line_same :
    (line : Text) (n : Counts) → ¬ Changes line → changed (count_line line n) ≡ changed n
count_line_same line n h = count_line_other line n (λ c. h ((Counted-iff-Changes line).0 c))

Changes-dec : (line : Text) → Changes line ⊎ (¬ Changes line)
Changes-dec line = elim (Bool-cases (is_header line)) [
  | inl h ↦ inr (λ c. c.0 ((is_header_iff line).0 h))
  | inr h ↦ elim (Bool-cases (has_prefix line (codes "+"))) [
    | inl p ↦ inl ((Counted-iff-Changes line).0 (h, inl p))
    | inr p ↦ elim (Bool-cases (has_prefix line (codes "-"))) [
      | inl q ↦ inl ((Counted-iff-Changes line).0 (h, inr q))
      | inr q ↦ inr (λ c. let d = (Counted-iff-Changes line).1 c in ground (arith, d))
    ]
  ]
]

-- The number of lines that change something.
changes : List Text → ℕ
changes [] = 0
changes (line ∷ lines) = elim (Changes-dec line) [
  | inl c ↦ suc (changes lines)
  | inr c ↦ changes lines
]

count_lines-changes :
    (lines : List Text) (n : Counts) → changed (count_lines lines n) ≡ changed n + changes lines
unfolding count_lines changes
count_lines-changes [] n = omega arith
count_lines-changes (line ∷ lines) n =
    elim (Changes-dec line)
      as (λ dec.
        changed (count_lines lines (count_line line n))
        ≡ changed n + (elim dec [ inl c ↦ suc (changes lines) | inr c ↦ changes lines ])) [
          | inl c ↦
              omega
                (arith, count_lines-changes lines (count_line line n), count_line-Changes line n c)
          | inr c ↦
              omega (arith, count_lines-changes lines (count_line line n), count_line_same line n c)
        ]

changes-SomeChange : (lines : List Text) → changes lines ≢ 0 → SomeChange lines
unfolding changes
changes-SomeChange [] h = h refl
changes-SomeChange (line ∷ lines) h = elim (Changes-dec line) [
  | inl c ↦ inl c
  | inr c ↦ inr (changes-SomeChange lines (ground arith))
]

SomeChange-changes : (lines : List Text) → SomeChange lines → changes lines ≢ 0
unfolding changes
SomeChange-changes [] h = absurd h
SomeChange-changes (line ∷ lines) (inl c) = ground arith
SomeChange-changes (line ∷ lines) (inr h) = ground (arith, SomeChange-changes lines h)

evidence-Says :
    (patch : String) (n : Counts) (xs : List String) → Says (effect_evidence patch n ++ xs)
unfolding effect_evidence
evidence-Says patch n xs = inl (is_blank-concat "read " (patch ∷ []) (unfold blank in refl))

effect_result-empty :
    (patch : String) (n : Counts)
    → changed n ≡ 0
    → ((effect_result patch n).outcome ≡ failed)
      × ((effect_result patch n).reason ≡ reason_empty_patch)
unfolding effect_result
effect_result-empty patch n h = ground arith

effect_result-changed :
    (patch : String) (n : Counts) → changed n ≢ 0 → (effect_result patch n).outcome ≡ passed
unfolding effect_result
effect_result-changed patch n h = ground arith

effect_result-IsObserved : (patch : String) (n : Counts) → IsObserved (effect_result patch n)
unfolding effect_result
effect_result-IsObserved patch n = elim (Bool-cases (nat_eq (changed n) 0)) [
  | inl z ↦ rw z (record {
    named = λ e. cc;
    seen =
        evidence-Says patch n ("a patch that changes no line cannot be credited with a fix" ∷ []);
    fits = λ e. cc;
  })
  | inr z ↦ rw z (record {
    named = λ e. cc;
    seen = inl (is_blank-concat "read " (patch ∷ []) (unfold blank in refl));
    fits = refl;
  })
]

grade_file-IsObserved :
    (patch : String) (o : Opened) (res : StageResult) → grade_file patch o ≡ ok res → IsObserved res
unfolding grade_file
grade_file-IsObserved patch (unopened e) res h = cc
grade_file-IsObserved patch (torn e) res h = cc
grade_file-IsObserved patch (content t) res h =
    let p : effect_result patch (count_lines (scan_lines t) no_counts) ≡ res = ok-injective h in
    rw (← p) (effect_result-IsObserved patch (count_lines (scan_lines t) no_counts))

grade_file-content :
    (patch : String) (t : Text)
    → grade_file patch (content t) ≡ ok (effect_result patch (count_lines (scan_lines t) no_counts))
unfolding grade_file
grade_file-content patch t = refl

no_change : (lines : List Text) → ¬ SomeChange lines → changes lines ≡ 0
no_change lines s = elim (zero-cases (changes lines)) [
  | inl z ↦ z
  | inr q ↦ absurd (s (changes-SomeChange lines q))
]

effect_result_iff :
    (patch : String) (lines : List Text)
    → let r = effect_result patch (count_lines lines no_counts) in
      (r.outcome ≡ passed → SomeChange lines)
      × (SomeChange lines → r.outcome ≡ passed)
      × (¬ SomeChange lines → (r.outcome ≡ failed) × (r.reason ≡ reason_empty_patch))
effect_result_iff patch lines =
    let n = count_lines lines no_counts in
    let e = count_lines-changes lines no_counts in
    (
      (λ p. elim (zero-cases (changes lines)) [
        | inl z ↦ cc (p, (effect_result-empty patch n (omega (arith, e, z))).0)
        | inr q ↦ changes-SomeChange lines q
      ]),
      (λ s. effect_result-changed patch n (λ z. SomeChange-changes lines s (omega (arith, e, z)))),
      (λ s. effect_result-empty patch n (omega (arith, e, no_change lines s))),
    )

effect_run-content :
    {W : Type 0} (open_file : W → Text → Opened) (inp : Input) (w : W) (t : Text)
    → open_file w (candidate_patch_path inp.case inp.candidate inp.root inp.repo_root) ≡ content t
    → effect_run open_file inp w
      ≡ (ok (effect_result inp.candidate.patch (count_lines (scan_lines t) no_counts)), w)
unfolding effect_run
effect_run-content open_file inp w t h = rw h

-- On a patch that can be read, the stage passes it exactly when some line of it is opened by `+` or
-- `-` and by neither `+++ ` nor `--- `, wherever it stands, and fails every other patch as empty; it
-- leaves the world as it was.
pub effect_run-iff-SomeChange :
    {W : Type 0} (open_file : W → Text → Opened) (inp : Input) (w : W) (t : Text)
    → open_file w (candidate_patch_path inp.case inp.candidate inp.root inp.repo_root) ≡ content t
    → (res : StageResult) × (effect_run open_file inp w ≡ (ok res, w))
      × ((res.outcome ≡ passed) ↔ SomeChange (scan_lines t))
      × ((res.outcome ≡ failed) ↔ (¬ SomeChange (scan_lines t)))
      × (res.outcome ≡ failed → res.reason ≡ reason_empty_patch)
effect_run-iff-SomeChange open_file inp w t h =
    let (a, b, c) = effect_result_iff inp.candidate.patch (scan_lines t) in
    (
      effect_result inp.candidate.patch (count_lines (scan_lines t) no_counts),
      effect_run-content open_file inp w t h,
      (a, b),
      ((λ p s. cc (p, b s)), (λ s. (c s).0)),
      (λ p. (c (λ s. cc (p, b s))).1),
    )

-- Every report of the stage shows what it read, and gives a reason just when it does not pass.
pub effect_stage-Reports :
    {W : Type 0} (open_file : W → Text → Opened) → Reports (effect_stage open_file)
unfolding effect_run
effect_stage-Reports open_file inp w w' res h =
    name_result-IsObserved (effect_stage open_file) res (
      grade_file-IsObserved inp.candidate.patch
        (open_file w (candidate_patch_path inp.case inp.candidate inp.root inp.repo_root)) res
        (ap (λ p. p.0) h))

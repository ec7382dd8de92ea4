-- ===== src/Corpus/Validity/Gradable.antt =====
-- The cases that the gate can be graded on.
use arazu.Prelude.{
  ℕ, suc, String, ◌==◌, true, false, Bool-cases, inl, inr, ◌≡◌, ◌≢◌, ◌↔◌, refl, List, [], ◌∷◌,
  Option, none, some, ok, All, pos, is_blank, and_then, and_then_iff, arith,
}
use arazu.Corpus.Case.{captured, good, unclassified, other_label, Candidate, FalsifyingClass, Case}
use arazu.Corpus.Validity.{
  known, required, missing, refuse_missing, seen_before, is_root, reason_given, class_given,
  check_candidate, check_candidates, check_class, validate_case,
}
use arazu.Corpus.Validity.Fields.{
  Filled, Rooted, only_uncaptured_iff, known_iff, is_root_iff, reason_given_iff, class_given_iff,
  seen_before_iff, not_empty_iff, not_positive_iff,
}

-- What a case needs has something in it; a captured case has no reference patch to need.
pub record Complete (c : Case) : Type 0 where
  pub id : Filled c.id
  pub language : Filled c.language
  pub target : Filled c.target
  pub harness : Filled c.harness
  pub src_commit : Filled c.source.src_commit
  pub input : Filled c.pov.input
  pub expected_sanitizer : Filled c.pov.expected_sanitizer
  pub reference_patch : c.kind ≢ captured → Filled c.reference_patch

pub record GradableCandidate (c : Case) (cand : Candidate) : Type 0 where
  pub named : cand.id ≢ ""
  pub patched : cand.patch ≢ ""
  pub labelled : (l : String) → cand.label ≢ other_label l
  pub rooted : Rooted c.root
  pub input_rooted : Rooted c.pov.input_root
  pub patch_rooted : Rooted cand.patch_root
  pub answered :
      cand.label ≢ good
      → cand.label ≢ unclassified
      → (r : String) × (cand.expected_gate_reason ≡ some r)
  pub replayable :
      cand.expected_gate_reason ≡ some "class-replay-fail"
      → (f : FalsifyingClass) × (c.falsifying_class ≡ some f)

-- The id of each candidate is none of those before it.
abbrev pub Distinct : List String → List Candidate → Type 0
Distinct seen [] = Unit
Distinct seen (cand ∷ rest) = All (λ x. x ≢ cand.id) seen × Distinct (cand.id ∷ seen) rest

abbrev pub GradableClass : Option FalsifyingClass → Type 0
GradableClass none = Unit
GradableClass (some f) =
    Filled f.generator × Filled f.discriminator × (n : ℕ) × (f.size ≡ pos (suc n))

pub record IsGradable (c : Case) : Type 0 where
  pub complete : Complete c
  pub gradable : All (GradableCandidate c) c.candidates
  pub distinct : Distinct [] c.candidates
  pub class : GradableClass c.falsifying_class

refuse_missing_iff :
    (fields : List (String × String))
    → (refuse_missing (missing fields) ≡ ok tt) ↔ All (λ field. is_blank field.1 ≡ false) fields
unfolding missing refuse_missing
refuse_missing_iff [] = ((λ h. tt), (λ h. refl))
refuse_missing_iff ((name, value) ∷ rest) = elim (Bool-cases (is_blank value)) [
  | inl b ↦ rw b ((λ h. cc), (λ h. cc))
  | inr b ↦
      rw b ((λ h. (refl, (refuse_missing_iff rest).0 h)), (λ h. (refuse_missing_iff rest).1 h.1))
]

required_iff : (c : Case) → All (λ field. is_blank field.1 ≡ false) (required c) ↔ Complete c
unfolding required
required_iff c =
    let last = only_uncaptured_iff c.kind "reference_patch" c.reference_patch in
    (
      (λ (a, (b, (d, (e, (f, (g, (h, i))))))). record {
        id = a;
        language = b;
        target = d;
        harness = e;
        src_commit = f;
        input = g;
        expected_sanitizer = h;
        reference_patch = last.0 i;
      }),
      (λ r. (
        r.id,
        (
          r.language,
          (
            r.target,
            (
              r.harness,
              (r.src_commit, (r.input, (r.expected_sanitizer, last.1 r.reference_patch))),
            ),
          ),
        ),
      )),
    )

-- The guards of one turn.
record Guards (c : Case) (seen : List String) (cand : Candidate) : Type 0 where
  named : (cand.id == "") ≡ false
  patched : (cand.patch == "") ≡ false
  unseen : seen_before cand.id seen ≡ false
  labelled : known cand.label ≡ true
  rooted : is_root c.root ≡ true
  input_rooted : is_root c.pov.input_root ≡ true
  patch_rooted : is_root cand.patch_root ≡ true
  answered : reason_given cand.label cand.expected_gate_reason ≡ true
  replayable : class_given cand.expected_gate_reason c.falsifying_class ≡ true

check_candidate-Guards_iff :
    (c : Case) (seen : List String) (cand : Candidate)
    → (check_candidate c seen cand ≡ ok tt) ↔ Guards c seen cand
unfolding check_candidate and_then
check_candidate-Guards_iff c seen cand = (
  (λ h. record {
    named = ground arith;
    patched = ground arith;
    unseen = ground arith;
    labelled = ground arith;
    rooted = ground arith;
    input_rooted = ground arith;
    patch_rooted = ground arith;
    answered = ground arith;
    replayable = ground arith;
  }),
  (λ g. ground (
    arith, g.named, g.patched, g.unseen, g.labelled, g.rooted, g.input_rooted, g.patch_rooted,
    g.answered, g.replayable,
  )),
)

check_candidate_iff :
    (c : Case) (seen : List String) (cand : Candidate)
    → (check_candidate c seen cand ≡ ok tt)
      ↔ (GradableCandidate c cand × All (λ x. x ≢ cand.id) seen)
check_candidate_iff c seen cand = (
  (λ h.
      let g = (check_candidate-Guards_iff c seen cand).0 h in
      (
        record {
          named = (not_empty_iff cand.id).0 g.named;
          patched = (not_empty_iff cand.patch).0 g.patched;
          labelled = (known_iff cand.label).0 g.labelled;
          rooted = (is_root_iff c.root).0 g.rooted;
          input_rooted = (is_root_iff c.pov.input_root).0 g.input_rooted;
          patch_rooted = (is_root_iff cand.patch_root).0 g.patch_rooted;
          answered = (reason_given_iff cand.label cand.expected_gate_reason).0 g.answered;
          replayable =
              (class_given_iff cand.expected_gate_reason c.falsifying_class).0 g.replayable;
        },
        (seen_before_iff cand.id seen).0 g.unseen,
      )),
  (λ (g, d). (check_candidate-Guards_iff c seen cand).1 (record {
    named = (not_empty_iff cand.id).1 g.named;
    patched = (not_empty_iff cand.patch).1 g.patched;
    unseen = (seen_before_iff cand.id seen).1 d;
    labelled = (known_iff cand.label).1 g.labelled;
    rooted = (is_root_iff c.root).1 g.rooted;
    input_rooted = (is_root_iff c.pov.input_root).1 g.input_rooted;
    patch_rooted = (is_root_iff cand.patch_root).1 g.patch_rooted;
    answered = (reason_given_iff cand.label cand.expected_gate_reason).1 g.answered;
    replayable = (class_given_iff cand.expected_gate_reason c.falsifying_class).1 g.replayable;
  })),
)

check_candidates_iff :
    (c : Case) (seen : List String) (cands : List Candidate)
    → (check_candidates c seen cands ≡ ok tt)
      ↔ (All (GradableCandidate c) cands × Distinct seen cands)
unfolding check_candidates
check_candidates_iff c seen [] = ((λ h. (tt, tt)), (λ h. refl))
check_candidates_iff c seen (cand ∷ rest) =
    let split =
      and_then_iff (check_candidate c seen cand) (check_candidates c (cand.id ∷ seen) rest) in
    let one = check_candidate_iff c seen cand in
    let more = check_candidates_iff c (cand.id ∷ seen) rest in
    (
      (λ h.
          let (a, b) = split.0 h in
          let (g, d) = one.0 a in let (gs, ds) = more.0 b in ((g, gs), (d, ds))),
      (λ h. split.1 (one.1 (h.0.0, h.1.0), more.1 (h.0.1, h.1.1))),
    )

check_class_iff : (o : Option FalsifyingClass) → (check_class o ≡ ok tt) ↔ GradableClass o
unfolding check_class and_then
check_class_iff none = ((λ h. tt), (λ h. refl))
check_class_iff (some f) = (
  (λ h.
      let (n, e) = (not_positive_iff f.size).0 (ground arith) in
      (ground arith, ground arith, n, e)),
  (λ (a, b, n, e). let q = (not_positive_iff f.size).1 (n, e) in ground (arith, a, b, q)),
)

-- `Validate` accepts a case exactly when its id, language, target, harness, source commit, input and
-- expected sanitizer have something in them, and its reference patch unless it is captured; every
-- candidate has an id of its own, a patch, a known label and roots that are empty or known, has a
-- reason when its label is not good or unclassified, and has a class when that reason is
-- class-replay-fail; and the class, if there is one, has a generator, a discriminator and a size
-- above 0.
pub validate_case-iff-IsGradable : (c : Case) → (validate_case c ≡ ok tt) ↔ IsGradable c
unfolding validate_case
validate_case-iff-IsGradable c =
    let whole =
      and_then_iff (refuse_missing (missing (required c)))
        (and_then (check_candidates c [] c.candidates) (check_class c.falsifying_class)) in
    let later =
      and_then_iff (check_candidates c [] c.candidates) (check_class c.falsifying_class) in
    let fields = refuse_missing_iff (required c) in
    let names = required_iff c in
    let cands = check_candidates_iff c [] c.candidates in
    let class = check_class_iff c.falsifying_class in
    (
      (λ h.
          let (a, b) = whole.0 h in
          let (k, l) = later.0 b in
          let (g, d) = cands.0 k in
          record {
            complete = names.0 (fields.0 a);
            gradable = g;
            distinct = d;
            class = class.0 l;
          }),
      (λ g. whole.1 (
        fields.1 (names.1 g.complete),
        later.1 (cands.1 (g.gradable, g.distinct), class.1 g.class),
      )),
    )

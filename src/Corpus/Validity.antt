-- ===== src/Corpus/Validity.antt =====
-- pkg/corpus/case.go: `Validate`, which refuses a case that the gate cannot be graded on. The order
-- in which a report lists the missing fields is not modelled.
pub mod Fields
pub mod Gradable
pub mod Tests
use arazu.Prelude.{
  String, Bool, true, false, ◌==◌, ◌||◌, ◌&&◌, not, List, [], ◌∷◌, ◌++◌, Option, none, some, ℤ,
  not_positive, is_blank, Result, ok, err, Checks, guard, and_then, if◌then◌else◌,
}
use arazu.Corpus.Reasons.{reason_class_replay_fail}
use arazu.Corpus.Case.{
  Kind, captured, Label, good, unclassified, other_label, Candidate, FalsifyingClass, Case,
  patch_root_challenge, patch_root_repo,
}

pub data CaseError : Type 0 where
  missing_fields : List String → CaseError
  no_id_or_patch : CaseError
  listed_twice unknown_label unknown_patch_root no_expected_reason no_class : String → CaseError
  unknown_root unknown_input_root : String → CaseError
  incomplete_class no_class_size : CaseError

-- Label.known
pub known : Label → Bool
known (other_label l) = false
known _ = true

pub is_captured : Kind → Bool
is_captured captured = true
is_captured _ = false

-- The fields that a case needs, each with its name.
pub required : Case → List (String × String)
required c =
    ("id", c.id)
    ∷ ("language", c.language)
    ∷ ("target", c.target)
    ∷ ("harness", c.harness)
    ∷ ("source.src_commit", c.source.src_commit)
    ∷ ("pov.input", c.pov.input)
    ∷ ("pov.expected_sanitizer", c.pov.expected_sanitizer)
    ∷ (if is_captured c.kind then [] else ("reference_patch", c.reference_patch) ∷ [])

missing : List (String × String) → List String
missing [] = []
missing ((name, value) ∷ rest) =
    let names = missing rest in if is_blank value then name ∷ names else names

refuse_missing : List String → Checks CaseError
refuse_missing [] = ok tt
refuse_missing (name ∷ names) = err (missing_fields (name ∷ names))

pub seen_before : String → List String → Bool
seen_before id [] = false
seen_before id (x ∷ xs) = x == id || seen_before id xs

pub is_root : String → Bool
is_root r = r == "" || r == patch_root_challenge || r == patch_root_repo

pub needs_reason : Label → Bool
needs_reason good = false
needs_reason unclassified = false
needs_reason _ = true

-- A candidate that is labelled as faulty says what the gate should conclude.
pub reason_given : Label → Option String → Bool
reason_given l none = not (needs_reason l)
reason_given l (some r) = true

-- A candidate that class replay should catch comes with a class.
pub class_given : Option String → Option FalsifyingClass → Bool
class_given (some r) none = not (r == reason_class_replay_fail)
class_given _ _ = true

-- One turn of the loop over the candidates; `seen` has the ids of the ones before.
pub check_candidate : Case → List String → Candidate → Checks CaseError
check_candidate c seen cand =
    and_then (guard (not (cand.id == "" || cand.patch == "")) no_id_or_patch) (
      and_then (guard (not (seen_before cand.id seen)) (listed_twice cand.id)) (
        and_then (guard (known cand.label) (unknown_label cand.id)) (
          and_then (guard (is_root c.root) (unknown_root c.root)) (
            and_then (guard (is_root c.pov.input_root) (unknown_input_root c.pov.input_root)) (
              and_then (guard (is_root cand.patch_root) (unknown_patch_root cand.id)) (
                and_then
                  (guard (reason_given cand.label cand.expected_gate_reason)
                    (no_expected_reason cand.id))
                  (guard (class_given cand.expected_gate_reason c.falsifying_class)
                    (no_class cand.id))))))))

pub check_candidates : Case → List String → List Candidate → Checks CaseError
check_candidates c seen [] = ok tt
check_candidates c seen (cand ∷ rest) =
    and_then (check_candidate c seen cand) (check_candidates c (cand.id ∷ seen) rest)

pub check_class : Option FalsifyingClass → Checks CaseError
check_class none = ok tt
check_class (some f) =
    and_then (guard (not (is_blank f.generator || is_blank f.discriminator)) incomplete_class)
      (guard (not (not_positive f.size)) no_class_size)

-- Case.Validate
pub validate_case : Case → Checks CaseError
validate_case c =
    and_then (refuse_missing (missing (required c)))
      (and_then (check_candidates c [] c.candidates) (check_class c.falsifying_class))

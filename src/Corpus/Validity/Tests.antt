-- ===== src/Corpus/Validity/Tests.antt =====
-- Cases that can be graded and cases that cannot.
use arazu.Prelude.{◌≡◌, ◌↔◌, refl, [], ◌∷◌, ok, err, and_then, blank}
use arazu.Corpus.Case.{Case, Candidate, wrong_branch}
use arazu.Corpus.Samples.{sample_case, sample_candidate, sample_source}
use arazu.Corpus.Validity.{
  validate_case, required, missing, refuse_missing, is_captured, check_candidates, check_candidate,
  seen_before, known, is_root, reason_given, class_given, needs_reason, check_class, missing_fields,
  listed_twice, no_expected_reason,
}
use arazu.Corpus.Validity.Gradable.{IsGradable, validate_case-iff-IsGradable}

abbrev pub gradable_case : Case
gradable_case = record sample_case { source = record sample_source { src_commit = "4b825dc" } }

abbrev faulty_candidate : Candidate
faulty_candidate = record sample_candidate { label = wrong_branch }

validate_case_examples :
    (validate_case gradable_case ≡ ok tt)
    × (validate_case sample_case ≡ err (missing_fields ("source.src_commit" ∷ [])))
    × (validate_case
          (record gradable_case { candidates = sample_candidate ∷ sample_candidate ∷ [] })
        ≡ err (listed_twice "good-1"))
    × (validate_case (record gradable_case { candidates = faulty_candidate ∷ [] })
        ≡ err (no_expected_reason "good-1"))
unfolding validate_case required missing refuse_missing is_captured check_candidates check_candidate
    seen_before known is_root reason_given class_given needs_reason check_class and_then blank
validate_case_examples = (refl, refl, refl, refl)

pub validate_case-gradable_case : validate_case gradable_case ≡ ok tt
validate_case-gradable_case = validate_case_examples.0

validate_case-iff-IsGradable_example :
    (validate_case gradable_case ≡ ok tt) ↔ IsGradable gradable_case
validate_case-iff-IsGradable_example = validate_case-iff-IsGradable gradable_case

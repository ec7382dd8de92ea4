-- ===== src/Gate/Decision/Tests.antt =====
-- Decisions that `Validate` accepts and refuses.
use arazu.Prelude.{[], ◌∷◌, ok, err, ◌≡◌, refl, ◌↔◌, blank}
use arazu.Gate.Decision.{
  accept, reject, passed, failed, StageResult, Decision, validate, problems, header_problems,
  record_problems, refuse, non_empty, outcome_problems, non_blank, stage_problems,
  all_stage_problems, failed_reasons, undecided_reasons, member, order_problems, verdict_problems,
  accepted_with_failure, recorded_after,
}
use arazu.Gate.Decision.Support.{IsSupported, validate-iff-IsSupported}

abbrev pub effect_passed : StageResult
effect_passed = record {
  stage = "patch-effect";
  outcome = passed;
  reason = "";
  evidence = "2 hunks" ∷ [];
}

abbrev pub replay_passed : StageResult
replay_passed = record {
  stage = "class-replay";
  outcome = passed;
  reason = "";
  evidence = "agrees" ∷ [];
}

abbrev pub effect_failed : StageResult
effect_failed = record {
  stage = "patch-effect";
  outcome = failed;
  reason = "empty-patch";
  evidence = "0 hunks" ∷ [];
}

abbrev pub accepted : Decision
accepted = record {
  case_id = "nginx-1";
  candidate_id = "good-1";
  verdict = accept;
  reason = "";
  stages = effect_passed ∷ replay_passed ∷ [];
  not_proven = "that the class is complete" ∷ [];
  artifacts = [];
  usage = [];
}

abbrev pub rejected : Decision
rejected = record accepted { verdict = reject; reason = "empty-patch"; stages = effect_failed ∷ [] }

abbrev unsupported : Decision
unsupported = record accepted { stages = effect_failed ∷ replay_passed ∷ [] }

pub validate-accepted : validate accepted ≡ ok tt
unfolding validate problems header_problems record_problems refuse non_empty outcome_problems
    non_blank stage_problems all_stage_problems failed_reasons undecided_reasons member
    order_problems verdict_problems blank
validate-accepted = refl

pub validate-rejected : validate rejected ≡ ok tt
unfolding validate problems header_problems record_problems refuse non_empty outcome_problems
    non_blank stage_problems all_stage_problems failed_reasons undecided_reasons member
    order_problems verdict_problems blank
validate-rejected = refl

validate-unsupported :
    validate unsupported ≡ err (recorded_after "patch-effect" 1 ∷ accepted_with_failure ∷ [])
unfolding validate problems header_problems record_problems refuse non_empty outcome_problems
    non_blank stage_problems all_stage_problems failed_reasons undecided_reasons member
    order_problems verdict_problems blank
validate-unsupported = refl

validate-iff-IsSupported_example : (validate accepted ≡ ok tt) ↔ IsSupported accepted
validate-iff-IsSupported_example = validate-iff-IsSupported accepted

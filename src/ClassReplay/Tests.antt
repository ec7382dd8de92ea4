-- ===== src/ClassReplay/Tests.antt =====
-- M2 on a target with a class of two members.
use arazu.Prelude.{
  String, [], ◌∷◌, ok, pos, ◌≡◌, ◌≢◌, refl, ◌==◌, if◌then◌else◌, false, length, length_lt, All,
  List,
}
use arazu.Corpus.Samples.{sample_class}
use arazu.Gate.Decision.{StageResult}
use arazu.Gate.Verify.Tests.{sample_input}
use arazu.Gate.Exec.{Exec, Did, wrap, require, ◌>>=◌}
use arazu.ClassReplay.{
  Outputs, ClassTarget, ClassStage, judge_class, judge_fix, agrees_throughout, compare_all,
  compare_member, prepend, output_of, replay, observe, with_class, class_run, Member,
}
use arazu.ClassReplay.Laws.{Agrees, SomeDiffers}
use arazu.ClassReplay.Verdict.{FromReplay, class_run-passed, class_run-failed}

abbrev quote : String → String
quote t = t

-- The second member of the class tells the incomplete patch from the reference.
abbrev run_members : String → List String → Exec (Unit {0}) Outputs
run_members patch members w =
    (ok (("a", "400") ∷ ("b", if patch == "incomplete" then "200" else "400") ∷ []), w)

abbrev sample_target : ClassTarget (Unit {0})
sample_target = record {
  generate = λ fc w. (ok ("a" ∷ "b" ∷ [], pos 2), w);
  replay_against = run_members;
}

abbrev stage_for_patch : String → ClassStage (Unit {0})
stage_for_patch patch = record {
  target = sample_target;
  candidate_patch = patch;
  reference_patch = "reference";
}

abbrev disagreed : List Member
disagreed = record { name = "b"; reference = "400"; candidate = "200" } ∷ []

abbrev passed_result : StageResult
passed_result =
    judge_class quote false sample_class sample_input.case.pov.expected_sanitizer 2 (pos 2) []

abbrev failed_result : StageResult
failed_result =
    judge_class quote false sample_class sample_input.case.pov.expected_sanitizer 2 (pos 2)
      disagreed

class_run_complete :
    Did (class_run quote (stage_for_patch "complete") sample_input) tt passed_result tt
unfolding class_run with_class observe replay wrap require ◌>>=◌ compare_all compare_member prepend
    output_of
class_run_complete = refl

class_run_incomplete :
    Did (class_run quote (stage_for_patch "incomplete") sample_input) tt failed_result tt
unfolding class_run with_class observe replay wrap require ◌>>=◌ compare_all compare_member prepend
    output_of
class_run_incomplete = refl

class_run-passed_example :
    ((stage_for_patch "complete").reference_patch ≢ "")
    × ((r : FromReplay quote (stage_for_patch "complete") sample_input tt passed_result tt)
        × (r.replayed.members ≢ [])
        × (length_lt (length r.replayed.members) r.replayed.declared ≡ false)
        × All (Agrees r.replayed.ref r.replayed.cand) r.replayed.members)
class_run-passed_example =
    class_run-passed quote (stage_for_patch "complete") sample_input tt tt passed_result
      class_run_complete (unfold judge_class judge_fix agrees_throughout in refl)

class_run-failed_example :
    ((stage_for_patch "incomplete").reference_patch ≢ "")
    × ((r : FromReplay quote (stage_for_patch "incomplete") sample_input tt failed_result tt)
        × SomeDiffers r.replayed.ref r.replayed.cand r.replayed.members)
class_run-failed_example =
    class_run-failed quote (stage_for_patch "incomplete") sample_input tt tt failed_result
      class_run_incomplete (unfold judge_class judge_fix in refl)

-- ===== src/Sanitizer/Tests.antt =====
-- M3 on the target of M1's tests.
use arazu.Prelude.{String, Bool, true, false, [], ◌≡◌, refl, codes, ◌⊎◌, err}
use arazu.Corpus.Reasons.{reason_patch_does_not_apply}
use arazu.Corpus.Site.{same, differ}
use arazu.Gate.Decision.{failed, StageResult}
use arazu.Gate.Verify.Tests.{sample_input}
use arazu.Gate.Exec.{wrap, require, attempt, ◌>>=◌}
use arazu.Revert.{PoVRun}
use arazu.Revert.Tests.{fired_unless, sample_target}
use arazu.Sanitizer.{SanitizerStage, judge, sanitizer_run, after_apply, measure}
use arazu.Sanitizer.Laws.{Verdict, Prepared, Rerun, judge-ignores_before, sanitizer_run-verdict}

abbrev silent_run : PoVRun
silent_run = record { harness_ran = true; sanitizer_fired = false; site = same; evidence = [] }

abbrev other_site : PoVRun
other_site = record { harness_ran = true; sanitizer_fired = true; site = differ; evidence = [] }

abbrev pub sample_stage : SanitizerStage Bool
sample_stage = record {
  target = sample_target;
  blob_path = codes "/src/nginx/blobs/pov.bin";
  patch_path = codes "/src/nginx/patches/good.diff";
  require_recover = true;
}

judge-ignores_before_example :
    ((judge silent_run other_site).outcome ≡ (judge other_site other_site).outcome)
    × ((judge silent_run other_site).reason ≡ (judge other_site other_site).reason)
judge-ignores_before_example = judge-ignores_before silent_run other_site other_site

abbrev sample_result : StageResult
sample_result = judge (fired_unless false) (fired_unless true)

sanitizer_run-verdict_example :
    (sample_stage.require_recover ≡ true)
    × (p : Prepared sample_stage sample_input true) × (((e : String) × (sample_target.apply
              (codes "/src/nginx/patches/good.diff")
              p.repinned
            ≡ (err e, true))
          × (sample_result.outcome ≡ failed)
          × (sample_result.reason ≡ reason_patch_does_not_apply))
        ⊎ ((after : PoVRun) × Rerun sample_stage sample_input p.repinned after true
            × Verdict after.sanitizer_fired after.site sample_result))
sanitizer_run-verdict_example =
    sanitizer_run-verdict sample_stage sample_input true true sample_result
      (unfold sanitizer_run after_apply measure wrap require attempt ◌>>=◌ in refl)

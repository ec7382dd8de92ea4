-- ===== src/Revert/Tests.antt =====
-- M1 on a small target, whose world says whether the patch is on.
use arazu.Prelude.{Bool, true, false, [], ◌∷◌, ok, ◌≡◌, refl, ◌↔◌, codes}
use arazu.Corpus.Site.{same}
use arazu.Gate.Decision.{passed, StageResult}
use arazu.Gate.Verify.Tests.{sample_input}
use arazu.Gate.Exec.{Did}
use arazu.Revert.{PoVRun, Target, RevertStage, revert_run}
use arazu.Revert.Credit.{Attributed, revert_run-passes_iff}

-- The sanitizer fires just when the patch is off.
abbrev pub fired_unless : Bool → PoVRun
fired_unless true = record {
  harness_ran = true;
  sanitizer_fired = false;
  site = same;
  evidence = [];
}
fired_unless false = record {
  harness_ran = true;
  sanitizer_fired = true;
  site = same;
  evidence = "at http_parse" ∷ [];
}

abbrev pub sample_target : Target Bool
sample_target = record {
  reset_to_pin = λ w. (ok tt, false);
  apply = λ p w. (ok tt, true);
  build = λ w. (ok tt, w);
  run_pov = λ blob harness pov w. (ok (fired_unless w), w);
}

abbrev pub sample_stage : RevertStage Bool
sample_stage = record {
  target = sample_target;
  blob_path = codes "/src/nginx/blobs/pov.bin";
  patch_path = codes "/src/nginx/patches/good.diff";
}

revert_run-passes_iff_example :
    ((res : StageResult) × Did (revert_run sample_stage sample_input) true res true
      × (res.outcome ≡ passed))
    ↔ Attributed sample_stage sample_input true true
revert_run-passes_iff_example = revert_run-passes_iff sample_stage sample_input true true

-- The right-hand side holds here, so the stage passes.
sample_stage-credit :
    (res : StageResult) × Did (revert_run sample_stage sample_input) true res true
    × (res.outcome ≡ passed)
sample_stage-credit = (revert_run-passes_iff sample_stage sample_input true true).1 (record {
  pinned = false;
  built = false;
  measured = false;
  patched = true;
  rebuilt = true;
  before = fired_unless false;
  after = fired_unless true;
  did_reset = refl;
  did_build = refl;
  did_run = refl;
  ran = refl;
  fired = refl;
  declared = λ e. cc;
  did_apply = refl;
  did_rebuild = refl;
  did_rerun = refl;
  reran = refl;
  silent = refl;
})

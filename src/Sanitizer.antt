-- ===== src/Sanitizer.antt =====
-- pkg/sanitizer/sanitizer.go: Gate M3, on the target of M1.
pub mod Laws
pub mod Tests
use arazu.Prelude.{
  String, Bool, true, false, List, [], ◌∷◌, ◌++◌, Result, ok, err, Text, concat, show_bool,
  if◌then◌else◌,
}
use arazu.Corpus.Reasons.{
  reason_patch_does_not_apply, reason_new_sanitizer_finding, reason_unadjudicated_behaviour_change,
}
use arazu.Corpus.Site.{SiteMatch, same, differ, undetermined, show_site}
use arazu.Gate.Decision.{passed, failed, Outcome, StageResult}
use arazu.Gate.Verify.{Input, Stage}
use arazu.Gate.Exec.{Exec, pure, wrap, attempt, require, ◌>>=◌, ◌>>◌}
use arazu.Revert.{PoVRun, Target}

pub record SanitizerStage (W : Type 0) : Type 0 where
  pub target : Target W
  pub blob_path : Text
  pub patch_path : Text
  pub require_recover : Bool

abbrev pub sanitizer_name : String
sanitizer_name = "sanitizer-gated-reachability"

abbrev pub result : Outcome → String → List String → StageResult
result o r ev = record { stage = sanitizer_name; outcome = o; reason = r; evidence = ev }

comparison : PoVRun → PoVRun → List String
comparison before after =
    concat (
      "unpatched: sanitizer fired "
      ∷ show_bool before.sanitizer_fired
      ∷ ", site "
      ∷ show_site before.site
      ∷ [])
    ∷ concat (
        "patched:   sanitizer fired "
        ∷ show_bool after.sanitizer_fired
        ∷ ", site "
        ∷ show_site after.site
        ∷ [])
    ∷ "recovering build, so both sites report and no execution-order argument is relied on"
    ∷ []

place : SiteMatch → List String → StageResult
place same ev = result passed "" (
    ev
    ++ "the finding is at the declared site, which is the original vulnerability; whether it still reproduces is M1's question, not this one"
      ∷ [])
place differ ev = result failed reason_new_sanitizer_finding (
    ev
    ++ "the patched build reports a sanitizer finding at a site the case does not declare, so the candidate introduced a defect while addressing the original"
      ∷ [])
place undetermined ev = result failed reason_unadjudicated_behaviour_change (
    ev
    ++ "a sanitizer finding on the patched build could not be placed against the declared site, so it can be neither credited nor refused here"
      ∷ [])

-- By whether the sanitizer fired on the patched build, and where.
judge_fired : Bool → SiteMatch → List String → StageResult
judge_fired false site ev =
    result passed "" (ev ++ "no sanitizer finding on the patched build" ∷ [])
judge_fired true site ev = place site ev

pub judge : PoVRun → PoVRun → StageResult
judge before after = judge_fired after.sanitizer_fired after.site (comparison before after)

does_not_apply : String → StageResult
does_not_apply e =
    result failed reason_patch_does_not_apply
      (concat ("the candidate does not apply at the pin: " ∷ e ∷ []) ∷ [])

module _ {W : Type 0} (s : SanitizerStage W) (inp : Input) where
  -- RunPoV, and the test that the harness ran.
  measure : String → String → Exec W PoVRun
  measure label message = do
    run ← wrap label (s.target.run_pov s.blob_path inp.case.harness inp.case.pov)
    require run.harness_ran message
    pure run

  after_apply : PoVRun → Result String (Unit {0}) → Exec W StageResult
  after_apply before (err e) = pure (does_not_apply e)
  after_apply before (ok _) = do
    wrap "build the patched tree" s.target.build
    after ←
        measure "run the pov on the patched tree"
          "the pov harness did not execute on the patched tree, so nothing was measured"
    pure (judge before after)

  -- Run
  pub sanitizer_run : Exec W StageResult
  sanitizer_run = do
    require s.require_recover
        "refusing to grade on a build that may halt on the first sanitizer error: set RequireRecover once the target builds with -fsanitize-recover=address"
    wrap "reset to pin" s.target.reset_to_pin
    wrap "build the unpatched tree" s.target.build
    before ←
        measure "run the pov on the unpatched tree"
          "the pov harness did not execute on the unpatched tree, so nothing was measured"
    wrap "reset before applying" s.target.reset_to_pin
    applied ← attempt (s.target.apply s.patch_path)
    after_apply before applied

abbrev pub sanitizer_stage : {W : Type 0} → SanitizerStage W → Stage W
sanitizer_stage s = record { name = sanitizer_name; run = λ inp. sanitizer_run s inp }

-- ===== src/Revert.antt =====
-- pkg/revert/revert.go: Gate M1. The tree under test is a `Target`, whose operations change a world.
pub mod Laws
pub mod Credit
pub mod Tests
use arazu.Prelude.{
  String, Bool, true, false, List, [], ◌∷◌, ◌++◌, Result, ok, err, Text, concat, if◌then◌else◌,
}
use arazu.Corpus.Reasons.{
  reason_pov_not_reproduced, reason_patch_does_not_apply, reason_new_sanitizer_finding,
  reason_pov_site_undetermined, reason_revert_attribute_fail,
}
use arazu.Corpus.Case.{PoV}
use arazu.Corpus.Site.{SiteMatch, same, differ, undetermined, is_differ}
use arazu.Gate.Decision.{passed, failed, undecided, Outcome, StageResult}
use arazu.Gate.Verify.{Input, Stage}
use arazu.Gate.Exec.{Exec, pure, wrap, attempt, require, ◌>>=◌, ◌>>◌}

pub record PoVRun : Type 0 where
  pub harness_ran : Bool
  pub sanitizer_fired : Bool
  pub site : SiteMatch
  pub evidence : List String

pub record Target (W : Type 0) : Type 0 where
  pub reset_to_pin : Exec W (Unit {0})
  pub apply : Text → Exec W (Unit {0})
  pub build : Exec W (Unit {0})
  pub run_pov : Text → String → PoV → Exec W PoVRun

pub record RevertStage (W : Type 0) : Type 0 where
  pub target : Target W
  pub blob_path : Text
  pub patch_path : Text

abbrev pub revert_name : String
revert_name = "revert-to-attribute"

verdict_of : PoVRun → String
verdict_of r =
    if r.sanitizer_fired then "harness ran, sanitizer fired" else "harness ran, sanitizer silent"

abbrev pub result : Outcome → String → List String → StageResult
result o r ev = record { stage = revert_name; outcome = o; reason = r; evidence = ev }

before_evidence : PoVRun → List String
before_evidence before =
    concat ("unpatched tree at the pin: " ∷ verdict_of before ∷ []) ∷ before.evidence

not_reproduced : PoV → List String → StageResult
not_reproduced pov evidence = result undecided reason_pov_not_reproduced (
    evidence
    ++ concat ("the harness ran and produced no " ∷ pov.expected_sanitizer ∷ [])
      ∷ "no patch can be credited with fixing a vulnerability the case never demonstrated"
      ∷ [])

elsewhere : List String → StageResult
elsewhere evidence = result undecided reason_pov_not_reproduced (
    evidence
    ++ "the unpatched tree crashes somewhere other than the declared crash site"
      ∷ "the reproduction demonstrates a different defect, so no patch can be attributed to fixing the declared one"
      ∷ [])

does_not_apply : String → List String → StageResult
does_not_apply e evidence = result failed reason_patch_does_not_apply (
    evidence
    ++ concat ("the candidate does not apply to the verified-clean tree at the pin: " ∷ e ∷ [])
      ∷ "a patch that cannot be applied cannot be the thing that stopped the pov"
      ∷ [])

-- The switch on the site of a sanitizer report on the patched tree.
still_firing : SiteMatch → List String → StageResult
still_firing differ evidence = result failed reason_new_sanitizer_finding (
    evidence
    ++ "the declared crash site is silent and a sanitizer fires elsewhere, so the original vulnerability is stopped and a different one is introduced"
      ∷ [])
still_firing undetermined evidence = result undecided reason_pov_site_undetermined (
    evidence
    ++ "a sanitizer fired after the patch but the report cannot be matched to the declared crash site, so whether it is the same vulnerability is undetermined"
      ∷ [])
still_firing same evidence = result failed reason_revert_attribute_fail (
    evidence
    ++ "the pov fires at the declared crash site with the patch applied, so reverting it changes nothing and nothing attributes the fix to this patch"
      ∷ [])

stopped : List String → StageResult
stopped evidence = result passed "" (
    evidence
    ++ "the pov fires without the patch and stops with it, so the patch is what stopped it" ∷ [])

judge_all : PoVRun → List String → StageResult
judge_all after all = if after.sanitizer_fired then still_firing after.site all else stopped all

after_evidence : List String → PoVRun → List String
after_evidence evidence after =
    (evidence ++ concat ("patched tree: " ∷ verdict_of after ∷ []) ∷ []) ++ after.evidence

judge_after : List String → PoVRun → StageResult
judge_after evidence after = judge_all after (after_evidence evidence after)

module _ {W : Type 0} (s : RevertStage W) (inp : Input) where
  -- Question 2, from the result of applying the patch.
  after_apply : List String → Result String (Unit {0}) → Exec W StageResult
  after_apply evidence (err e) = pure (does_not_apply e evidence)
  after_apply evidence (ok _) = do
    wrap "build the patched tree" s.target.build
    after ←
        wrap "run the pov on the patched tree"
          (s.target.run_pov s.blob_path inp.case.harness inp.case.pov)
    require after.harness_ran
        "the pov harness did not execute on the patched tree, so nothing was measured"
    pure (judge_after evidence after)

  attribute : PoVRun → Exec W StageResult
  attribute before = do
    applied ← attempt (s.target.apply s.patch_path)
    after_apply (before_evidence before) applied

  -- Whether the sanitizer fired on the unpatched tree, and whether at another site.
  judge_before : Bool → Bool → PoVRun → Exec W StageResult
  judge_before false elsewhere? before = pure (not_reproduced inp.case.pov (before_evidence before))
  judge_before true true before = pure (elsewhere (before_evidence before))
  judge_before true false before = attribute before

  -- Run
  pub revert_run : Exec W StageResult
  revert_run = do
    wrap "reset to pin" s.target.reset_to_pin
    wrap "build the unpatched tree" s.target.build
    before ←
        wrap "run the pov on the unpatched tree"
          (s.target.run_pov s.blob_path inp.case.harness inp.case.pov)
    require before.harness_ran
        "the pov harness did not execute on the unpatched tree, so nothing was measured"
    judge_before before.sanitizer_fired (is_differ before.site) before

abbrev pub revert_stage : {W : Type 0} → RevertStage W → Stage W
revert_stage s = record { name = revert_name; run = λ inp. revert_run s inp }

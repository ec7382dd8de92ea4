-- ===== src/Command/Total.antt =====
-- The four stages together never give `Verify` a record that it refuses.
use arazu.Prelude.{String, ◌≢◌, List, [], ◌∷◌, err, Text}
use arazu.Gate.Decision.{Problem}
use arazu.Gate.Decision.Support.{Says}
use arazu.Gate.Verify.{Input, Stage, malformed, verify}
use arazu.Gate.Verify.Total.{verify-not-malformed}
use arazu.Gate.Effect.{Opened, effect_stage}
use arazu.Gate.Effect.Laws.{effect_stage-Reports}
use arazu.Revert.{RevertStage, revert_stage}
use arazu.Revert.Laws.{revert_stage-Reports}
use arazu.ClassReplay.{ClassStage, class_stage}
use arazu.ClassReplay.Evidence.{class_stage-Reports}
use arazu.Sanitizer.{SanitizerStage, sanitizer_stage}
use arazu.Sanitizer.Laws.{sanitizer_stage-Reports}

-- M0 to M3 in their order.
abbrev pub all_stages :
    {W : Type 0}
    → (String → String)
    → (W → Text → Opened)
    → RevertStage W
    → ClassStage W
    → SanitizerStage W
    → List (Stage W)
all_stages quote open_file m1 m2 m3 =
    effect_stage open_file ∷ revert_stage m1 ∷ class_stage quote m2 ∷ sanitizer_stage m3 ∷ []

-- A run of M0 to M3 never ends in a decision that `Validate` refuses, whatever their targets do: when
-- the case and the candidate have ids and some limit is stated, `Verify` returns a decision or the
-- error of a stage that could not run.
pub verify-all_stages :
    {W : Type 0} (quote : String → String) (open_file : W → Text → Opened) (m1 : RevertStage W)
    (m2 : ClassStage W) (m3 : SanitizerStage W) (inp : Input) (np : List String) (w : W)
    (ps : List Problem)
    → inp.case.id ≢ ""
    → inp.candidate.id ≢ ""
    → Says np
    → (verify inp (all_stages quote open_file m1 m2 m3) np w).0 ≢ err (malformed ps)
verify-all_stages quote open_file m1 m2 m3 inp np w ps case_named candidate_named says =
    verify-not-malformed inp (all_stages quote open_file m1 m2 m3) np w ps case_named
      candidate_named says (λ e. cc)
      (
        effect_stage-Reports open_file,
        (revert_stage-Reports m1, (class_stage-Reports quote m2, (sanitizer_stage-Reports m3, tt))),
      )

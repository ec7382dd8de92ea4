-- ===== src/Gate/Decision.antt =====
-- pkg/gate/decision.go: the decision, and `Validate`. A problem carries what its message prints;
-- the messages' wording and their sorting are not modelled.
pub mod Support
pub mod Tests
use arazu.Prelude.{
  ℕ, zero, suc, ◌+◌, String, Bool, true, false, ◌==◌, if◌then◌else◌, ◌||◌, List, [], ◌∷◌, ◌++◌,
  Result, ok, err, is_blank, nat_eq, length, Text,
}

pub data Verdict : Type 0 where
  accept reject error : Verdict
  other_verdict : String → Verdict

pub data Outcome : Type 0 where
  passed failed undecided : Outcome
  other_outcome : String → Outcome

pub record StageResult : Type 0 where
  pub stage : String
  pub outcome : Outcome
  pub reason : String
  pub evidence : List String

pub record Artifact : Type 0 where
  pub role : String
  pub path : Text
  pub sha256 : Text

-- model.Usage
pub record Usage : Type 0 where
  pub purpose : String
  pub backend : String
  pub input_tokens : ℕ
  pub output_tokens : ℕ

pub record Decision : Type 0 where
  pub case_id : String
  pub candidate_id : String
  pub verdict : Verdict
  pub reason : String
  pub stages : List StageResult
  pub not_proven : List String
  pub artifacts : List Artifact
  pub usage : List Usage

pub data Problem : Type 0 where
  no_case_id no_candidate_id no_not_proven no_stages : Problem
  passed_with_reason no_reason no_evidence : String → Problem
  unknown_outcome : ℕ → String → Problem
  unnamed : ℕ → Problem
  recorded_after : String → ℕ → Problem
  accepted_with_reason accepted_with_failure accepted_with_undecided : Problem
  rejected_with_undecided rejected_without_reason : Problem
  rejected_for : String → Problem
  errored_without_reason errored_with_failure : Problem
  errored_for : String → Problem
  unknown_verdict : String → Problem

unfoldable pub non_blank : List String → ℕ
non_blank [] = 0
non_blank (x ∷ xs) = if is_blank x then non_blank xs else suc (non_blank xs)

abbrev pub when : Bool → Problem → List Problem
when true p = p ∷ []
when false p = []

non_empty : String → Bool
non_empty r = if r == "" then false else true

outcome_problems : ℕ → StageResult → Outcome → List Problem
unfolding non_empty
outcome_problems i s passed = when (non_empty s.reason) (passed_with_reason s.stage)
outcome_problems i s failed = when (s.reason == "") (no_reason s.stage)
outcome_problems i s undecided = when (s.reason == "") (no_reason s.stage)
outcome_problems i s (other_outcome o) = unknown_outcome i o ∷ []

-- One round of the first loop.
stage_problems : ℕ → StageResult → List Problem
unfolding outcome_problems non_blank
stage_problems i s =
    outcome_problems i s s.outcome
    ++ when (s.stage == "") (unnamed i)
    ++ when (nat_eq (non_blank s.evidence) 0) (no_evidence s.stage)

all_stage_problems : ℕ → List StageResult → List Problem
all_stage_problems i [] = []
all_stage_problems i (s ∷ ss) = stage_problems i s ++ all_stage_problems (i + 1) ss

abbrev is_passed : Outcome → Bool
is_passed passed = true
is_passed _ = false

abbrev failed_of : StageResult → Outcome → List String
failed_of s failed = s.reason ∷ []
failed_of s _ = []

abbrev undecided_of : StageResult → Outcome → List String
undecided_of s undecided = s.reason ∷ []
undecided_of s _ = []

-- The maps `failed` and `undecided`, as the lists of their keys.
failed_reasons : List StageResult → List String
failed_reasons [] = []
failed_reasons (s ∷ ss) = failed_of s s.outcome ++ failed_reasons ss

undecided_reasons : List StageResult → List String
undecided_reasons [] = []
undecided_reasons (s ∷ ss) = undecided_of s s.outcome ++ undecided_reasons ss

member : String → List String → Bool
member r [] = false
member r (x ∷ xs) = x == r || member r xs

abbrev some_key : List String → Bool
some_key [] = false
some_key (x ∷ xs) = true

-- The second loop, which stops at the first stage that is recorded before others and not passed.
order_problems : List StageResult → List Problem
order_problems [] = []
order_problems (s ∷ []) = []
order_problems (s ∷ t ∷ ss) =
    if is_passed s.outcome
    then order_problems (t ∷ ss)
    else recorded_after s.stage (length (t ∷ ss)) ∷ []

-- The switch on the verdict.
verdict_problems : Verdict → String → List String → List String → List Problem
unfolding non_empty member
verdict_problems accept r fs us =
    when (non_empty r) accepted_with_reason
    ++ when (some_key fs) accepted_with_failure
    ++ when (some_key us) accepted_with_undecided
verdict_problems reject r fs us =
    when (some_key us) rejected_with_undecided
    ++ (if r == ""
        then rejected_without_reason ∷ []
        else if member r fs
        then []
        else rejected_for r ∷ [])
verdict_problems error r fs us =
    (if r == ""
      then errored_without_reason ∷ []
      else if member r us
      then []
      else errored_for r ∷ [])
    ++ when (some_key fs) errored_with_failure
verdict_problems (other_verdict v) r fs us = unknown_verdict v ∷ []

abbrev no_items : List StageResult → Bool
no_items [] = true
no_items (s ∷ ss) = false

header_problems : Decision → List Problem
unfolding non_blank
header_problems d =
    when (d.case_id == "") no_case_id
    ++ (when (d.candidate_id == "") no_candidate_id
        ++ when (nat_eq (non_blank d.not_proven) 0) no_not_proven)

record_problems : Verdict → String → List StageResult → List Problem
record_problems v r ss =
    when (no_items ss) no_stages
    ++ (all_stage_problems 0 ss
        ++ (order_problems ss ++ verdict_problems v r (failed_reasons ss) (undecided_reasons ss)))

problems : Decision → List Problem
problems d = header_problems d ++ record_problems d.verdict d.reason d.stages

refuse : List Problem → Result (List Problem) (Unit {0})
refuse [] = ok tt
refuse (p ∷ ps) = err (p ∷ ps)

-- Decision.Validate
pub validate : Decision → Result (List Problem) (Unit {0})
unfolding refuse
validate d = refuse (problems d)

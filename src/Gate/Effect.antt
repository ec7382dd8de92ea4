-- ===== src/Gate/Effect.antt =====
-- pkg/gate/effect.go: `EffectStage`. The file system is a function from paths to the file's text or
-- the error of opening it; a read error in the middle of a file, and a line past the scanner's
-- limit of 8 MiB, are `torn`.
pub mod Laws
pub mod Tests
use arazu.Prelude.{
  ℕ, zero, suc, ◌+◌, String, Bool, ◌||◌, if◌then◌else◌, List, [], ◌∷◌, ◌++◌, Result, ok, err, Text,
  codes, has_prefix, scan_lines, concat, decimal, nat_eq,
}
use arazu.Corpus.Reasons.{reason_empty_patch}
use arazu.Corpus.Case.{candidate_patch_path}
use arazu.Gate.Decision.{passed, failed, StageResult}
use arazu.Gate.Verify.{Input, Stage}

pub data Opened : Type 0 where
  unopened : String → Opened
  torn : String → Opened
  content : Text → Opened

pub record Counts : Type 0 where
  pub added : ℕ
  pub removed : ℕ
  pub hunks : ℕ

-- The cases of the switch on a line, in their order.
unfoldable pub is_header : Text → Bool
is_header line = has_prefix line (codes "+++ ") || has_prefix line (codes "--- ")

unfoldable pub count_line : Text → Counts → Counts
unfolding is_header
count_line line n =
    if is_header line
    then n
    else if has_prefix line (codes "@@")
    then record n { hunks = n.hunks + 1 }
    else if has_prefix line (codes "+")
    then record n { added = n.added + 1 }
    else if has_prefix line (codes "-")
    then record n { removed = n.removed + 1 }
    else n

unfoldable pub count_lines : List Text → Counts → Counts
unfolding count_line
count_lines [] n = n
count_lines (line ∷ lines) n = count_lines lines (count_line line n)

abbrev pub no_counts : Counts
no_counts = record { added = 0; removed = 0; hunks = 0 }

abbrev pub effect_name : String
effect_name = "patch-effect"

unfoldable pub effect_evidence : String → Counts → List String
unfolding concat decimal
effect_evidence patch n =
    concat ("read " ∷ patch ∷ [])
    ∷ concat (
        decimal n.hunks
        ∷ " hunks, "
        ∷ decimal n.added
        ∷ " added lines, "
        ∷ decimal n.removed
        ∷ " removed lines"
        ∷ [])
    ∷ []

unfoldable pub effect_result : String → Counts → StageResult
unfolding effect_evidence
effect_result patch n =
    if nat_eq (n.added + n.removed) 0
    then record {
      stage = effect_name;
      outcome = failed;
      reason = reason_empty_patch;
      evidence =
          effect_evidence patch n
          ++ "a patch that changes no line cannot be credited with a fix" ∷ [];
    }
    else record {
      stage = effect_name;
      outcome = passed;
      reason = "";
      evidence = effect_evidence patch n;
    }

unfoldable pub grade_file : String → Opened → Result String StageResult
unfolding effect_result count_lines scan_lines
grade_file patch (unopened e) = err (concat ("candidate patch " ∷ patch ∷ ": " ∷ e ∷ []))
grade_file patch (torn e) = err (concat ("reading " ∷ patch ∷ ": " ∷ e ∷ []))
grade_file patch (content t) = ok (effect_result patch (count_lines (scan_lines t) no_counts))

-- Run. The stage reads one file and changes nothing.
unfoldable pub effect_run :
    {W : Type 0} → (W → Text → Opened) → Input → W → Result String StageResult × W
unfolding grade_file
effect_run open_file inp w = (
  grade_file inp.candidate.patch
      (open_file w (candidate_patch_path inp.case inp.candidate inp.root inp.repo_root)),
  w,
)

abbrev pub effect_stage : {W : Type 0} → (W → Text → Opened) → Stage W
effect_stage open_file = record { name = effect_name; run = effect_run open_file }

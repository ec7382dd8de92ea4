-- ===== src/Eval/Tests.antt =====
-- A score of two candidates.
use arazu.Prelude.{◌≡◌, refl, List, [], ◌∷◌}
use arazu.Corpus.Reasons.{stage_for}
use arazu.Corpus.Case.{good, incomplete_fix}
use arazu.Gate.Decision.Tests.{accepted, rejected}
use arazu.Eval.{
  Graded, stage_key, stage_runs, score, with_graded, ensure_all, ensure, has_row, score_all,
  score_run, update_row, score_result, score_case, score_good, score_bad, count_reason, responsible,
  sort_rows, insert_row, before,
}

abbrev sample : List Graded
sample =
    record {
      case_id = "nginx-1";
      candidate_id = "good-1";
      label = good;
      expected = "";
      decision = accepted;
    }
    ∷ record {
      case_id = "nginx-1";
      candidate_id = "empty-1";
      label = incomplete_fix;
      expected = "empty-patch";
      decision = rejected;
    }
    ∷ []

score-sample :
    score sample
    ≡ record {
      stage = "m0-patch-effect";
      good_accepted = 1;
      good_rejected = 0;
      bad_rejected = 1;
      bad_accepted = 0;
      reason_matched = 1;
      reason_mismatch = 0;
      undecided_in_scope = 0;
      out_of_scope = 0;
      unassigned = 0;
    }
      ∷ record {
        stage = "m2-class-replay";
        good_accepted = 1;
        good_rejected = 0;
        bad_rejected = 0;
        bad_accepted = 0;
        reason_matched = 0;
        reason_mismatch = 0;
        undecided_in_scope = 0;
        out_of_scope = 0;
        unassigned = 0;
      }
      ∷ []
unfolding score stage_runs stage_key with_graded ensure_all ensure has_row score_all score_run
    update_row score_result score_case score_good score_bad count_reason responsible sort_rows
    insert_row before stage_for
score-sample = refl

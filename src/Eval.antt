-- ===== src/Eval.antt =====
-- pkg/eval/eval.go: the score of the gate against the answer key. The map from stages to their rows
-- is the list of the rows, each under a stage of its own.
pub mod Tally
pub mod Once
pub mod Cells
pub mod Rows
mod Tests
use arazu.Prelude.{
  ℕ, suc, ◌+◌, String, ◌==◌, Bool, true, false, ◌||◌, ◌&&◌, not, ltb, if◌then◌else◌, List, [], ◌∷◌,
  ◌++◌,
}
use Prim.Native.Nat.{Ordering}
use Prim.Native.String.{compare as compare_text}
use arazu.Corpus.Reasons.{stage_m0, stage_m1, stage_m2, stage_unassigned, stage_for}
use arazu.Corpus.Case.{Label, good}
use arazu.Gate.Decision.{Outcome, passed, failed, undecided, other_outcome, StageResult, Decision}

-- Outcome
pub record Graded : Type 0 where
  pub case_id : String
  pub candidate_id : String
  pub label : Label
  pub expected : String
  pub decision : Decision

pub record Matrix : Type 0 where
  pub stage : String
  pub good_accepted : ℕ
  pub good_rejected : ℕ
  pub bad_rejected : ℕ
  pub bad_accepted : ℕ
  pub reason_matched : ℕ
  pub reason_mismatch : ℕ
  pub undecided_in_scope : ℕ
  pub out_of_scope : ℕ
  pub unassigned : ℕ

abbrev pub empty_row : String → Matrix
empty_row s = record {
  stage = s;
  good_accepted = 0;
  good_rejected = 0;
  bad_rejected = 0;
  bad_accepted = 0;
  reason_matched = 0;
  reason_mismatch = 0;
  undecided_in_scope = 0;
  out_of_scope = 0;
  unassigned = 0;
}

-- stageKey
unfoldable pub stage_key : String → String
stage_key name =
    if name == "patch-effect"
    then stage_m0
    else if name == "revert-to-attribute"
    then stage_m1
    else if name == "class-replay"
    then stage_m2
    else name

abbrev is_good : Label → Bool
is_good good = true
is_good _ = false

-- The stage that answers for a candidate; none for a good or an unclassified one.
responsible : Graded → String
responsible o = if o.expected == "" then "" else stage_for o.expected

score_good : Outcome → Matrix → Matrix
score_good passed m = record m { good_accepted = m.good_accepted + 1 }
score_good _ m = record m { good_rejected = m.good_rejected + 1 }

count_reason : Bool → Matrix → Matrix
count_reason true m = record m { reason_matched = m.reason_matched + 1 }
count_reason false m = record m { reason_mismatch = m.reason_mismatch + 1 }

score_bad : Bool → Outcome → Matrix → Matrix
score_bad matched failed m = count_reason matched (record m { bad_rejected = m.bad_rejected + 1 })
score_bad matched undecided m =
    count_reason matched (record m { undecided_in_scope = m.undecided_in_scope + 1 })
score_bad matched _ m = record m { bad_accepted = m.bad_accepted + 1 }

-- The switch: good, answered for by no stage, by another stage, or by this one.
score_case : Bool → Bool → Bool → Bool → Outcome → Matrix → Matrix
score_case true no_stage other matched o m = score_good o m
score_case false true other matched o m = record m { unassigned = m.unassigned + 1 }
score_case false false true matched o m = record m { out_of_scope = m.out_of_scope + 1 }
score_case false false false matched o m = score_bad matched o m

pub score_result : Graded → StageResult → Matrix → Matrix
score_result g r m =
    score_case (is_good g.label) (responsible g == stage_unassigned)
      (not (responsible g == stage_key r.stage)) (r.reason == g.expected) r.outcome m

pub has_row : String → List Matrix → Bool
has_row s [] = false
has_row s (m ∷ ms) = m.stage == s || has_row s ms

-- get: a new row for a stage that has none.
pub ensure : String → List Matrix → List Matrix
ensure s ms = if has_row s ms then ms else ms ++ empty_row s ∷ []

pub update_row : String → (Matrix → Matrix) → List Matrix → List Matrix
update_row s f [] = []
update_row s f (m ∷ ms) = (if m.stage == s then f m else m) ∷ update_row s f ms

with_graded : Graded → List StageResult → List (Graded × StageResult)
with_graded g [] = []
with_graded g (r ∷ rs) = (g, r) ∷ with_graded g rs

-- What both loops run over: the stages of the decisions, in order.
pub stage_runs : List Graded → List (Graded × StageResult)
stage_runs [] = []
stage_runs (g ∷ gs) = with_graded g g.decision.stages ++ stage_runs gs

pub ensure_all : List (Graded × StageResult) → List Matrix → List Matrix
ensure_all [] ms = ms
ensure_all ((g, r) ∷ rest) ms = ensure_all rest (ensure (stage_key r.stage) ms)

pub score_run : Graded → StageResult → List Matrix → List Matrix
score_run g r ms = let key = stage_key r.stage in update_row key (score_result g r) (ensure key ms)

pub score_all : List (Graded × StageResult) → List Matrix → List Matrix
score_all [] ms = ms
score_all ((g, r) ∷ rest) ms = score_all rest (score_run g r ms)

-- Whether a string comes before another, by code points.
before : String → String → Bool
before s t = elim (compare_text s t) [ Ordering.lt ↦ true | _ ↦ false ]

insert_row : Matrix → List Matrix → List Matrix
insert_row m [] = m ∷ []
insert_row m (n ∷ ns) =
    let rest = insert_row m ns in if before n.stage m.stage then n ∷ rest else m ∷ n ∷ ns

pub sort_rows : List Matrix → List Matrix
sort_rows [] = []
sort_rows (m ∷ ms) = insert_row m (sort_rows ms)

-- Score
pub score : List Graded → List Matrix
score gs = let runs = stage_runs gs in sort_rows (score_all runs (ensure_all runs []))

-- Matrix.Sound
pub is_sound : Matrix → Bool
is_sound m = ltb 0 m.good_accepted || (if ltb 0 m.good_rejected then false else true)

-- ===== src/Gate/Verify.antt =====
-- pkg/gate/gate.go: `Verify`. What a stage does outside the program, such as building a tree, is a
-- change of a world `W`.
pub mod Laws
pub mod Order
pub mod Total
pub mod Tests
use arazu.Prelude.{String, ◌==◌, if◌then◌else◌, List, [], ◌∷◌, ◌++◌, Result, ok, err}
use arazu.Corpus.Case.{Case, Candidate}
use arazu.Gate.Decision.{
  accept, reject, error, Outcome, passed, failed, undecided, other_outcome, StageResult, Decision,
  Problem, validate,
}

pub record Input : Type 0 where
  pub case : Case
  pub candidate : Candidate
  pub root : String
  pub repo_root : String

-- The interface `Stage`. An error is the text that it prints.
pub record Stage (W : Type 0) : Type 0 where
  pub name : String
  pub run : Input → W → Result String StageResult × W

pub data GateError : Type 0 where
  could_not_run : String → String → GateError
  malformed : List Problem → GateError

abbrev pub start : Input → List String → Decision
start inp not_proven = record {
  case_id = inp.case.id;
  candidate_id = inp.candidate.id;
  verdict = accept;
  reason = "";
  stages = [];
  not_proven = not_proven;
  artifacts = [];
  usage = [];
}

unfoldable pub validated : Decision → Result (List Problem) (Unit {0}) → Result GateError Decision
validated d (ok _) = ok d
validated d (err ps) = err (malformed ps)

unfoldable pub finish : Result GateError Decision → Result GateError Decision
unfolding validated
finish (ok d) = validated d (validate d)
finish (err e) = err e

module _ {W : Type 0} where
  -- if res.Stage == "" { res.Stage = s.Name() }
  unfoldable pub name_result : Stage W → StageResult → StageResult
  name_result s res = record res { stage = if res.stage == "" then s.name else res.stage }

  -- The switch on the outcome; `k` is the rest of the loop.
  unfoldable pub conclude :
      Outcome
      → String
      → Decision
      → W
      → (Decision → W → Result GateError Decision × W)
      → Result GateError Decision × W
  conclude failed r d w k = (ok (record d { verdict = reject; reason = r }), w)
  conclude undecided r d w k = (ok (record d { verdict = error; reason = r }), w)
  conclude passed r d w k = k d w
  conclude (other_outcome o) r d w k = k d w

  unfoldable pub after_run :
      Stage W
      → Decision
      → (Decision → W → Result GateError Decision × W)
      → Result String StageResult × W
      → Result GateError Decision × W
  unfolding conclude name_result
  after_run s d k (err m, w) = (err (could_not_run s.name m), w)
  after_run s d k (ok res, w) =
      conclude res.outcome res.reason (record d { stages = d.stages ++ name_result s res ∷ [] }) w k

  unfoldable pub run_stages : Input → List (Stage W) → Decision → W → Result GateError Decision × W
  unfolding after_run
  run_stages inp [] d w = (ok d, w)
  run_stages inp (s ∷ ss) d w = after_run s d (λ d' w'. run_stages inp ss d' w') (s.run inp w)

  unfoldable pub verify : Input → List (Stage W) → List String → W → Result GateError Decision × W
  unfolding finish
  verify inp stages not_proven w =
      let (r, w') = run_stages inp stages (start inp not_proven) w in (finish r, w')

-- ===== src/Eval/Rows.antt =====
-- The rows of a score.
use arazu.Prelude.{List, [], ◌∷◌}
use arazu.Gate.Decision.{StageResult}
use arazu.Eval.{Graded}

-- The runs counted so far, the last one first.
behind : List (Graded × StageResult) → List (Graded × StageResult) → List (Graded × StageResult)
behind [] counted = counted
behind (x ∷ xs) counted = behind xs (x ∷ counted)

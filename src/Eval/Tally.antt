-- ===== src/Eval/Tally.antt =====
-- What each cell of a row counts, by the label, the expected reason and the outcome of a run.
use arazu.Prelude.{
  ℕ, suc, String, ◌==◌, ◌≡◌, refl, ◌∙◌, arith, Bool, true, false, not, ◌&&◌, ◌||◌, Bool-cases, inl,
  inr, if◌then◌else◌, List, [], ◌∷◌,
}
use arazu.Corpus.Case.{good}
use arazu.Corpus.Reasons.{stage_unassigned, stage_for}
use arazu.Gate.Decision.{Outcome, passed, failed, undecided, StageResult}
use arazu.Eval.{
  Graded, Matrix, empty_row, stage_key, responsible, score_good, count_reason, score_bad,
  score_case, score_result,
}

-- The numbers of a row.
pub data Cell : Type 0 where
  good_passes good_fails bad_fails bad_passes bad_undecided elsewhere nowhere : Cell
  right_reason other_reason : Cell

abbrev pub cell : Cell → Matrix → ℕ
cell good_passes m = m.good_accepted
cell good_fails m = m.good_rejected
cell bad_fails m = m.bad_rejected
cell bad_passes m = m.bad_accepted
cell bad_undecided m = m.undecided_in_scope
cell elsewhere m = m.out_of_scope
cell nowhere m = m.unassigned
cell right_reason m = m.reason_matched
cell other_reason m = m.reason_mismatch

abbrev is_passed : Outcome → Bool
is_passed passed = true
is_passed _ = false

abbrev is_failed : Outcome → Bool
is_failed failed = true
is_failed _ = false

abbrev is_undecided : Outcome → Bool
is_undecided undecided = true
is_undecided _ = false

-- By whether the candidate is good, no stage answers for its reason, another stage than this one
-- does, and the stage gave that reason.
abbrev counts : Cell → Bool → Bool → Bool → Bool → Outcome → Bool
counts good_passes g n x r o = g && is_passed o
counts good_fails g n x r o = g && not (is_passed o)
counts nowhere g n x r o = not g && n
counts elsewhere g n x r o = not g && (not n && x)
counts bad_fails g n x r o = not g && (not n && (not x && is_failed o))
counts bad_undecided g n x r o = not g && (not n && (not x && is_undecided o))
counts bad_passes g n x r o = not g && (not n && (not x && not (is_failed o || is_undecided o)))
counts right_reason g n x r o =
    not g && (not n && (not x && ((is_failed o || is_undecided o) && r)))
counts other_reason g n x r o =
    not g && (not n && (not x && ((is_failed o || is_undecided o) && not r)))

-- Whether a cell counts a run.
abbrev pub belongs : Cell → Graded → StageResult → Bool
belongs c g r =
    let stage = if g.expected == "" then "" else stage_for g.expected in
    counts c (elim g.label [ good ↦ true | _ ↦ false ]) (stage == stage_unassigned)
      (not (stage == stage_key r.stage)) (r.reason == g.expected) r.outcome

abbrev pub bump : Bool → ℕ → ℕ
bump true n = suc n
bump false n = n

-- The runs of the stage with that key that a test holds of.
unfoldable pub tally : (Graded → StageResult → Bool) → String → List (Graded × StageResult) → ℕ
tally p k [] = 0
tally p k ((g, r) ∷ rest) =
    let n = tally p k rest in if stage_key r.stage == k then bump (p g r) n else n

score_case-cell :
    (c : Cell) (g n x q : Bool) (o : Outcome) (m : Matrix)
    → cell c (score_case g n x q o m) ≡ bump (counts c g n x q o) (cell c m)
unfolding score_case score_good score_bad count_reason
score_case-cell c g n x q o m = ground arith

pub score_result-cell :
    (c : Cell) (g : Graded) (r : StageResult) (m : Matrix)
    → cell c (score_result g r m) ≡ bump (belongs c g r) (cell c m)
unfolding score_result responsible
score_result-cell c g r m = score_case-cell c _ _ _ _ r.outcome m

pub empty_row-cell : (c : Cell) (s : String) → cell c (empty_row s) ≡ 0
empty_row-cell c s = ground arith

module _ (p : Graded → StageResult → Bool) (k : String) where
  pub tally-same :
      (g : Graded) (r : StageResult) (runs : List (Graded × StageResult))
      → (stage_key r.stage == k) ≡ true
      → tally p k ((g, r) ∷ runs) ≡ bump (p g r) (tally p k runs)
  unfolding tally
  tally-same g r runs e = rw e refl

  pub tally-other :
      (g : Graded) (r : StageResult) (runs : List (Graded × StageResult))
      → (stage_key r.stage == k) ≡ false
      → tally p k ((g, r) ∷ runs) ≡ tally p k runs
  unfolding tally
  tally-other g r runs e = rw e refl

abbrev pub every_run : Graded → StageResult → Bool
every_run g r = true

-- A stage that has no run has none that a test holds of.
pub tally_none :
    (p : Graded → StageResult → Bool) (k : String) (runs : List (Graded × StageResult))
    → tally every_run k runs ≡ 0
    → tally p k runs ≡ 0
tally_none p k [] h = unfold tally in refl
tally_none p k ((g, r) ∷ runs) h = elim (Bool-cases (stage_key r.stage == k)) [
  | inl b ↦ absurd (omega (arith, h, tally-same every_run k g r runs b))
  | inr b ↦
      tally-other p k g r runs b
      ∙ tally_none p k runs (omega (arith, h, tally-other every_run k g r runs b))
]

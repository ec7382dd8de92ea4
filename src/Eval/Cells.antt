-- ===== src/Eval/Cells.antt =====
-- Every run of a stage is counted in one cell of that stage's row.
use arazu.Prelude.{
  ℕ, suc, ◌+◌, String, ◌==◌, eq_iff, ◌≡◌, ◌≤◌, refl, ap, sym, ◌∙◌, Bool, true, false, Bool-cases,
  ◌||◌, inl, inr, arith, if◌then◌else◌, List, [], ◌∷◌, ◌++◌, All, All-append,
}
use arazu.Gate.Decision.{Outcome, passed, failed, undecided, other_outcome, StageResult}
use arazu.Eval.{
  Graded, Matrix, empty_row, stage_key, score_good, count_reason, score_bad, score_case,
  score_result, has_row, ensure, update_row, score_run,
}
use arazu.Eval.Tally.{
  Cell, cell, belongs, bump, tally, every_run, tally_none, tally-same, tally-other,
  score_result-cell, empty_row-cell,
}
use arazu.Eval.Once.{
  rows_for, has_row-update_row, has_row-append, rows_for-update_row, one_more_row,
}

-- The seven cells that a run of a stage can fall into.
unfoldable pub total : Matrix → ℕ
total m =
    m.good_accepted + m.good_rejected + m.bad_rejected + m.bad_accepted + m.undecided_in_scope
    + m.out_of_scope + m.unassigned

-- What one run adds to its row.
record Adds (m n : Matrix) : Type 0 where
  same_stage : n.stage ≡ m.stage
  one_cell : total n ≡ suc (total m)
  reasons :
      n.reason_matched + n.reason_mismatch + (m.bad_rejected + m.undecided_in_scope)
      ≡ m.reason_matched + m.reason_mismatch + (n.bad_rejected + n.undecided_in_scope)

count_reason-Adds : (b : Bool) (o : Outcome) (m : Matrix) → Adds m (score_bad b o m)
unfolding score_bad count_reason total
count_reason-Adds b passed m = record { same_stage = refl; one_cell = omega arith; reasons = refl }
count_reason-Adds b (other_outcome o) m = record {
  same_stage = refl;
  one_cell = omega arith;
  reasons = refl;
}
count_reason-Adds true failed m = record {
  same_stage = refl;
  one_cell = omega arith;
  reasons = omega arith;
}
count_reason-Adds false failed m = record {
  same_stage = refl;
  one_cell = omega arith;
  reasons = omega arith;
}
count_reason-Adds true undecided m = record {
  same_stage = refl;
  one_cell = omega arith;
  reasons = omega arith;
}
count_reason-Adds false undecided m = record {
  same_stage = refl;
  one_cell = omega arith;
  reasons = omega arith;
}

score_good-Adds : (o : Outcome) (m : Matrix) → Adds m (score_good o m)
unfolding score_good total
score_good-Adds passed m = record { same_stage = refl; one_cell = omega arith; reasons = refl }
score_good-Adds failed m = record { same_stage = refl; one_cell = omega arith; reasons = refl }
score_good-Adds undecided m = record { same_stage = refl; one_cell = omega arith; reasons = refl }
score_good-Adds (other_outcome o) m = record {
  same_stage = refl;
  one_cell = omega arith;
  reasons = refl;
}

score_case-Adds : (a b c d : Bool) (o : Outcome) (m : Matrix) → Adds m (score_case a b c d o m)
unfolding score_case total
score_case-Adds true b c d o m = score_good-Adds o m
score_case-Adds false true c d o m = record {
  same_stage = refl;
  one_cell = omega arith;
  reasons = refl;
}
score_case-Adds false false true d o m = record {
  same_stage = refl;
  one_cell = omega arith;
  reasons = refl;
}
score_case-Adds false false false d o m = count_reason-Adds d o m

score_result-Adds : (g : Graded) (r : StageResult) (m : Matrix) → Adds m (score_result g r m)
unfolding score_result
score_result-Adds g r m = score_case-Adds _ _ _ _ r.outcome m

-- Every number of the row is that of the runs of its stage that it counts; the seven cells are of all
-- runs of the stage, and the reasons of the refusals in scope.
pub record Accounts (runs : List (Graded × StageResult)) (m : Matrix) : Type 0 where
  pub cells : (c : Cell) → cell c m ≡ tally (belongs c) m.stage runs
  pub all_runs : total m ≡ tally every_run m.stage runs
  pub all_reasons : m.reason_matched + m.reason_mismatch ≡ m.bad_rejected + m.undecided_in_scope

-- Rows that account for the runs so far, at most one for a stage, with no run of a stage that has no
-- row.
pub record Scored (runs : List (Graded × StageResult)) (ms : List Matrix) : Type 0 where
  pub rows : All (Accounts runs) ms
  pub once : (k : String) → rows_for k ms ≤ 1
  pub absent : (k : String) → has_row k ms ≡ false → tally every_run k runs ≡ 0

==-sym : (s t : String) (b : Bool) → (s == t) ≡ b → (t == s) ≡ b
==-sym s t true e = (eq_iff t s).1 (sym ((eq_iff s t).0 e))
==-sym s t false e = elim (Bool-cases (t == s)) [
  | inl b ↦ cc ((eq_iff s t).1 (sym ((eq_iff t s).0 b)), e)
  | inr b ↦ b
]

module _ (g : Graded) (r : StageResult) (runs : List (Graded × StageResult)) where
  -- One row, when the run is counted in it and when it is not.
  row-Accounts :
      (m : Matrix) (b : Bool)
      → (m.stage == stage_key r.stage) ≡ b
      → Accounts runs m
      → Accounts ((g, r) ∷ runs) (if b then score_result g r m else m)
  row-Accounts m true e a =
      let d = score_result-Adds g r m in
      let here : (p : Graded → StageResult → Bool)
          → bump (p g r) (tally p m.stage runs)
            ≡ tally p (score_result g r m).stage ((g, r) ∷ runs) =
        λ p.
          sym (tally-same p m.stage g r runs (==-sym m.stage (stage_key r.stage) true e))
          ∙ ap (λ k. tally p k ((g, r) ∷ runs)) (sym d.same_stage) in
      record {
        cells = λ c.
            score_result-cell c g r m ∙ (ap (bump (belongs c g r)) (a.cells c) ∙ here (belongs c));
        all_runs = d.one_cell ∙ (ap suc a.all_runs ∙ here every_run);
        all_reasons = omega (arith, d.reasons, a.all_reasons);
      }
  row-Accounts m false e a =
      let other = ==-sym m.stage (stage_key r.stage) false e in
      record {
        cells = λ c. a.cells c ∙ sym (tally-other (belongs c) m.stage g r runs other);
        all_runs = a.all_runs ∙ sym (tally-other every_run m.stage g r runs other);
        all_reasons = a.all_reasons;
      }

  update_row-Accounts :
      (ms : List Matrix)
      → All (Accounts runs) ms
      → All (Accounts ((g, r) ∷ runs)) (update_row (stage_key r.stage) (score_result g r) ms)
  unfolding update_row
  update_row-Accounts [] h = tt
  update_row-Accounts (m ∷ ms) (a, h) =
      (row-Accounts m (m.stage == stage_key r.stage) refl a, update_row-Accounts ms h)

or-absent : (a b : Bool) → (a || (b || false)) ≡ false → (a ≡ false) × (b ≡ false)
or-absent a b h = ground arith

-- A stage with no row after `ensure` had none before, and is not the one that got one.
ensure-absent :
    (k s : String) (ms : List Matrix)
    → has_row k (ensure s ms) ≡ false
    → (has_row k ms ≡ false) × ((s == k) ≡ false)
unfolding ensure has_row
ensure-absent k s ms h = elim (Bool-cases (has_row s ms)) [
  | inl b ↦
      let absent : has_row k ms ≡ false = rw b at h in
      (
        absent,
        elim (Bool-cases (s == k)) [
          | inl e ↦ cc (ap (λ x. has_row x ms) ((eq_iff s k).0 e), b, absent)
          | inr e ↦ e
        ],
      )
  | inr b ↦
      let kept : has_row k (ms ++ empty_row s ∷ []) ≡ false = rw b at h in
      or-absent (has_row k ms) (s == k) (sym (has_row-append k ms (empty_row s ∷ [])) ∙ kept)
]

pub ensure-Scored :
    (runs : List (Graded × StageResult)) (s : String) (ms : List Matrix)
    → Scored runs ms
    → Scored runs (ensure s ms)
unfolding ensure total
ensure-Scored runs s ms h = elim (Bool-cases (has_row s ms)) [
  | inl b ↦ rw b h
  | inr b ↦ rw b (record {
    rows = All-append (Accounts runs) ms (empty_row s ∷ []) h.rows (
      record {
        cells = λ c. empty_row-cell c s ∙ sym (tally_none (belongs c) s runs (h.absent s b));
        all_runs = sym (h.absent s b);
        all_reasons = refl;
      },
      tt,
    );
    once = λ k. one_more_row k s ms b (h.once k);
    absent = λ k e. h.absent k (ensure-absent k s ms (unfold ensure in rw b e)).0;
  })
]

module _ (runs : List (Graded × StageResult)) where
  pub score_run-Scored :
      (g : Graded) (r : StageResult) (ms : List Matrix)
      → Scored runs ms
      → Scored ((g, r) ∷ runs) (score_run g r ms)
  unfolding score_run
  score_run-Scored g r ms h =
      let e = ensure-Scored runs (stage_key r.stage) ms h in
      record {
        rows = update_row-Accounts g r runs (ensure (stage_key r.stage) ms) e.rows;
        once = λ k. omega (
          arith,
          e.once k,
          rows_for-update_row k (stage_key r.stage) (score_result g r)
              (ensure (stage_key r.stage) ms) (λ m. (score_result-Adds g r m).same_stage),
        );
        absent = λ k none_there.
            let gone = ensure-absent k (stage_key r.stage) ms (
              sym (
                has_row-update_row k (stage_key r.stage) (score_result g r)
                  (ensure (stage_key r.stage) ms) (λ m. (score_result-Adds g r m).same_stage))
              ∙ none_there) in
            tally-other every_run k g r runs gone.1 ∙ h.absent k gone.0;
      }

-- ===== src/Gate/Verify/Order.antt =====
-- The order in which `Verify` runs its stages.
use arazu.Prelude.{String, ◌≡◌, refl, List, [], ◌∷◌, ◌++◌, Result, ok, err, ap, sym, ◌∙◌}
use arazu.Gate.Decision.{Outcome, passed, failed, undecided, other_outcome, StageResult, Decision}
use arazu.Gate.Verify.{
  Input, Stage, GateError, could_not_run, name_result, conclude, after_run, run_stages, start,
  verify,
}
use arazu.Gate.Verify.Laws.{Stops, Runs, conclude-Goes}

module _ {W : Type 0} (inp : Input) where
  -- Stages that let the run go on leave a decision and a world for whatever follows them.
  run_stages-Runs :
      (pre : List (Stage W)) (w w1 : W) (d : Decision)
      → Runs inp w pre w1
      → (d1 : Decision) × ((rest : List (Stage W))
          → run_stages inp (pre ++ rest) d w ≡ run_stages inp rest d1 w1)
  unfolding run_stages after_run
  run_stages-Runs [] w w1 d e = (d, λ rest. ap (run_stages inp rest d) e)
  run_stages-Runs (s ∷ pre) w w1 d (res, u, e, go, rs) =
      let d0 = record d { stages = d.stages ++ name_result s res ∷ [] } in
      let (d1, later) = run_stages-Runs pre u w1 d0 rs in
      (
        d1,
        λ rest.
            ap (after_run s d (λ d' w'. run_stages inp (pre ++ rest) d' w')) e
            ∙ (conclude-Goes inp res.outcome res.reason d0 u
                  (λ d' w'. run_stages inp (pre ++ rest) d' w') go
                ∙ later rest),
      )

  conclude-stop :
      (o : Outcome) (r : String) (d : Decision) (w : W)
      (k l : Decision → W → Result GateError Decision × W)
      → Stops o
      → conclude o r d w k ≡ conclude o r d w l
  unfolding conclude
  conclude-stop failed r d w k l h = refl
  conclude-stop undecided r d w k l h = refl
  conclude-stop passed r d w k l h = absurd h
  conclude-stop (other_outcome o) r d w k l h = absurd h

  run_stages-stop :
      (s : Stage W) (post : List (Stage W)) (d : Decision) (w w1 : W) (res : StageResult)
      → s.run inp w ≡ (ok res, w1)
      → Stops res.outcome
      → run_stages inp (s ∷ post) d w ≡ run_stages inp (s ∷ []) d w
  unfolding run_stages after_run
  run_stages-stop s post d w w1 res e h = rw e (
      conclude-stop res.outcome res.reason
        (record d { stages = d.stages ++ name_result s res ∷ [] }) w1
        (λ d' w'. run_stages inp post d' w') (λ d' w'. run_stages inp [] d' w') h)

  -- When a stage that is reached fails or is undecided, the stages behind it are not run: the
  -- decision and the world are those of the run without them.
  pub verify-Stops :
      (pre post : List (Stage W)) (s : Stage W) (np : List String) (w w1 w2 : W) (res : StageResult)
      → Runs inp w pre w1
      → s.run inp w1 ≡ (ok res, w2)
      → Stops res.outcome
      → verify inp (pre ++ s ∷ post) np w ≡ verify inp (pre ++ s ∷ []) np w
  unfolding verify
  verify-Stops pre post s np w w1 w2 res rs e h =
      let (d1, later) = run_stages-Runs pre w w1 (start inp np) rs in
      let same =
        later (s ∷ post) ∙ (run_stages-stop s post d1 w1 w2 res e h ∙ sym (later (s ∷ []))) in
      rw same

  -- A stage whose check cannot run ends the run with its error, whatever stands behind it.
  pub verify-could_not_run :
      (pre post : List (Stage W)) (s : Stage W) (np : List String) (w w1 w2 : W) (m : String)
      → Runs inp w pre w1
      → s.run inp w1 ≡ (err m, w2)
      → verify inp (pre ++ s ∷ post) np w ≡ (err (could_not_run s.name m), w2)
  unfolding verify
  verify-could_not_run pre post s np w w1 w2 m rs e =
      let (d1, later) = run_stages-Runs pre w w1 (start inp np) rs in
      rw (later (s ∷ post)) (unfold run_stages after_run in rw e)

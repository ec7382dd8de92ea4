-- ===== src/Gate/Verify/Laws.antt =====
-- What `Verify` promises of the stages that it runs.
use arazu.Prelude.{
  ◌+◌, String, ◌≡◌, ◌≢◌, refl, ap, List, [], ◌∷◌, ◌++◌, Result, ok, err, All, length, arith, ◌⊎◌,
  inl, inr, length-append, sym, ◌∙◌,
}
use arazu.Gate.Decision.{
  accept, Outcome, passed, failed, undecided, other_outcome, StageResult, Decision, Problem,
  validate,
}
use arazu.Gate.Decision.Support.{IsSupported, Concludes, validate-iff-IsSupported}
use arazu.Gate.Verify.{
  Input, Stage, GateError, name_result, conclude, after_run, run_stages, start, validated, finish,
  verify,
}

-- The two outcomes that stop a run.
abbrev pub Stops : Outcome → Type 0
Stops failed = Unit
Stops undecided = Unit
Stops _ = ⊥

abbrev pub Goes : Outcome → Type 0
Goes o = ¬ Stops o

stop_or_go : (o : Outcome) → Stops o ⊎ Goes o
stop_or_go failed = inl tt
stop_or_go undecided = inl tt
stop_or_go passed = inr (λ h. h)
stop_or_go (other_outcome o) = inr (λ h. h)

module _ {W : Type 0} (inp : Input) where
  -- The stages run in order from one world to another, and none of them stops the run.
  abbrev pub Runs : W → List (Stage W) → W → Type 0
  Runs w [] w' = w ≡ w'
  Runs w (s ∷ ss) w' =
      (res : StageResult) × (w1 : W) × (s.run inp w ≡ (ok res, w1))
      × Goes res.outcome
      × Runs w1 ss w'

module _ {W : Type 0} (inp : Input) where
  pub conclude-Goes :
      (o : Outcome) (r : String) (d : Decision) (w : W)
      (k : Decision → W → Result GateError Decision × W)
      → Goes o
      → conclude o r d w k ≡ k d w
  unfolding conclude
  conclude-Goes passed r d w k g = refl
  conclude-Goes (other_outcome o) r d w k g = refl
  conclude-Goes failed r d w k g = absurd (g tt)
  conclude-Goes undecided r d w k g = absurd (g tt)

  -- A stage that stops the run decides it: a failure rejects, an undecided stage errs.
  conclude-Stops :
      (o : Outcome) (r : String) (d d' : Decision) (w w' : W)
      (k : Decision → W → Result GateError Decision × W)
      → Stops o
      → conclude o r d w k ≡ (ok d', w')
      → d'.verdict ≢ accept
  unfolding conclude
  conclude-Stops failed r d d' w w' k g h v = ground arith
  conclude-Stops undecided r d d' w w' k g h v = ground arith
  conclude-Stops passed r d d' w w' k g h v = g
  conclude-Stops (other_outcome o) r d d' w w' k g h v = g

  -- One round of an accepted run, given what the later rounds do.
  accept_step :
      (s : Stage W) (ss : List (Stage W)) (d d' : Decision) (w w' : W)
      (r : Result String StageResult) (w1 : W)
      → s.run inp w ≡ (r, w1)
      → after_run s d (λ e u. run_stages inp ss e u) (r, w1) ≡ (ok d', w')
      → d'.verdict ≡ accept
      → ((e : Decision)
          → run_stages inp ss e w1 ≡ (ok d', w')
          → Runs inp w1 ss w' × (length d'.stages ≡ length e.stages + length ss))
      → Runs inp w (s ∷ ss) w' × (length d'.stages ≡ length d.stages + length (s ∷ ss))
  unfolding after_run
  accept_step s ss d d' w w' (err m) w1 e h v ih = cc
  accept_step s ss d d' w w' (ok res) w1 e h v ih = elim (stop_or_go res.outcome) [
    | inl stop ↦ absurd (conclude-Stops res.outcome _ _ d' w1 w' _ stop h v)
    | inr go ↦
        let d1 = record d { stages = d.stages ++ name_result s res ∷ [] } in
        let (rs, len) = ih d1 (
          sym (conclude-Goes res.outcome res.reason d1 w1 (λ e u. run_stages inp ss e u) go) ∙ h) in
        ((res, w1, e, go, rs), omega (arith, len, length-append d.stages (name_result s res ∷ [])))
  ]

  -- An accepted run has run every stage.
  run_stages-accept :
      (ss : List (Stage W)) (d d' : Decision) (w w' : W)
      → run_stages inp ss d w ≡ (ok d', w')
      → d'.verdict ≡ accept
      → Runs inp w ss w' × (length d'.stages ≡ length d.stages + length ss)
  unfolding run_stages
  run_stages-accept [] d d' w w' h v = ground arith
  run_stages-accept (s ∷ ss) d d' w w' h v =
      accept_step s ss d d' w w' (s.run inp w).0 (s.run inp w).1 refl h v
        (λ e p. run_stages-accept ss e d' (s.run inp w).1 w' p v)

pub Concludes-accept :
    (r : String) (ss : List StageResult) → Concludes accept r ss → All (λ s. s.outcome ≡ passed) ss
Concludes-accept r [] c = tt
Concludes-accept r (s ∷ []) c = (c.0, tt)
Concludes-accept r (s ∷ t ∷ ss) c = (c.0, Concludes-accept r (t ∷ ss) c.1)

module _ {W : Type 0} (inp : Input) (ss : List (Stage W)) (np : List String) (w : W) where
  validated-ok :
      (d d' : Decision) (v : Result (List Problem) (Unit {0}))
      → validate d ≡ v
      → validated d v ≡ ok d'
      → (d ≡ d') × IsSupported d'
  unfolding validated
  validated-ok d d' (ok _) e h =
      let p : d ≡ d' = ground arith in (p, rw (← p) ((validate-iff-IsSupported d).0 e))
  validated-ok d d' (err ps) e h = cc

  finish-ok :
      (r : Result GateError Decision) (d : Decision) → finish r ≡ ok d → (r ≡ ok d) × IsSupported d
  unfolding finish
  finish-ok (ok d0) d h = let (p, q) = validated-ok d0 d (validate d0) refl h in (ap ok p, q)
  finish-ok (err e) d h = cc

  -- A decision that `Verify` returns is supported by its stages: `Verify` runs `Validate` last.
  pub verify-IsSupported : (d : Decision) → (verify inp ss np w).0 ≡ ok d → IsSupported d
  unfolding verify
  verify-IsSupported d h = (finish-ok (run_stages inp ss (start inp np) w).0 d h).1

  -- If `Verify` accepts, then every stage that it was given has run, one after the other, each
  -- in the world that the one before left; none failed or was undecided; the decision has a record
  -- for each of them, and each record says that the stage passed.
  pub verify-accept :
      (d : Decision)
      → (verify inp ss np w).0 ≡ ok d
      → d.verdict ≡ accept
      → Runs inp w ss (verify inp ss np w).1
        × (length d.stages ≡ length ss)
        × All (λ s. s.outcome ≡ passed) d.stages
  unfolding verify
  verify-accept d h v =
      let (e, sup) = finish-ok (run_stages inp ss (start inp np) w).0 d h in
      let (rs, len) =
        run_stages-accept inp ss (start inp np) d w (run_stages inp ss (start inp np) w).1
          (λ i. (e i, (run_stages inp ss (start inp np) w).1)) v in
      (rs, omega (arith, len), Concludes-accept d.reason d.stages (rw v at sup.concludes))

-- ===== src/Gate/Verify/Total.antt =====
-- `Verify` gives a verdict whenever its stages report.
use mathlib.Core.List.{append-ne-nil_of_right_ne-nil}
use arazu.Prelude.{
  String, ◌≡◌, ◌≢◌, refl, List, [], ◌∷◌, ◌++◌, Result, ok, err, All, All-append, arith, ◌⊎◌, inl,
  inr, sym, ◌∙◌, eq_iff,
}
use arazu.Gate.Decision.{
  Verdict, accept, reject, error, Outcome, passed, failed, undecided, other_outcome, StageResult,
  Decision, Problem, validate,
}
use arazu.Gate.Decision.Support.{
  IsObserved, IsSupported, Says, Concludes, Final, validate-iff-IsSupported,
}
use arazu.Gate.Verify.{
  Input, Stage, GateError, malformed, name_result, conclude, after_run, run_stages, start,
  validated, finish, verify,
}

-- The records so far, all of passed stages.
record IsOpen (inp : Input) (np : List String) (d : Decision) : Type 0 where
  case_kept : d.case_id ≡ inp.case.id
  candidate_kept : d.candidate_id ≡ inp.candidate.id
  limits_kept : d.not_proven ≡ np
  accepting : d.verdict ≡ accept
  unreasoned : d.reason ≡ ""
  observed : All IsObserved d.stages
  passing : All (λ s. s.outcome ≡ passed) d.stages

Concludes-last :
    (v : Verdict) (r : String) (ss : List StageResult) (s : StageResult)
    → All (λ t. t.outcome ≡ passed) ss
    → Final v r s
    → Concludes v r (ss ++ s ∷ [])
Concludes-last v r [] s h f = f
Concludes-last v r (t ∷ []) s (p, _) f = (p, f)
Concludes-last v r (t ∷ u ∷ ss) s (p, h) f = (p, Concludes-last v r (u ∷ ss) s h f)

Concludes-accept :
    (ss : List StageResult) → ss ≢ [] → All (λ t. t.outcome ≡ passed) ss → Concludes accept "" ss
Concludes-accept [] n h = n refl
Concludes-accept (s ∷ []) n (p, _) = (p, refl)
Concludes-accept (s ∷ t ∷ ss) n (p, h) = (p, Concludes-accept (t ∷ ss) (λ e. cc) h)

module _ {W : Type 0} where
  -- A stage whose every report shows what was seen, and a reason just when it did not pass.
  abbrev pub Reports : Stage W → Type 0
  Reports s =
      (inp : Input) (w w' : W) (res : StageResult)
      → s.run inp w ≡ (ok res, w')
      → IsObserved (name_result s res)

-- A result that names its stage is recorded as it stands.
pub name_result-IsObserved :
    {W : Type 0} (s : Stage W) (r : StageResult) → IsObserved r → IsObserved (name_result s r)
unfolding name_result
name_result-IsObserved s r o = record {
  named = ground (arith, o.named, eq_iff r.stage "");
  seen = o.seen;
  fits = o.fits;
}

module _ (inp : Input) (np : List String) (case_named : inp.case.id ≢ "")
    (candidate_named : inp.candidate.id ≢ "") (says : Says np) where
  close :
      (d d' : Decision) (v : Verdict) (r : String) (s : StageResult)
      → IsOpen inp np d
      → IsObserved s
      → Final v r s
      → d' ≡ record d { stages = d.stages ++ s ∷ []; verdict = v; reason = r }
      → IsSupported d'
  close d d' v r s o seen f e = rw e (record {
    case_named = λ p. case_named (sym o.case_kept ∙ p);
    candidate_named = λ p. candidate_named (sym o.candidate_kept ∙ p);
    limits_stated = rw (o.limits_kept) says;
    observed = All-append IsObserved d.stages (s ∷ []) o.observed (seen, tt);
    concludes = Concludes-last v r d.stages s o.passing f;
  })

  step-IsSupported :
      {W : Type 0} (s : Stage W) (d d' : Decision) (w1 : W) (o : Outcome) (res : StageResult)
      (k : Decision → W → Result GateError Decision × W)
      → IsOpen inp np d
      → IsObserved (name_result s res)
      → res.outcome ≡ o
      → ((e : Decision) → IsOpen inp np e → e.stages ≢ [] → (k e w1).0 ≡ ok d' → IsSupported d')
      → (conclude o res.reason (record d { stages = d.stages ++ name_result s res ∷ [] }) w1 k).0
        ≡ ok d'
      → IsSupported d'
  unfolding conclude name_result
  step-IsSupported s d d' w1 failed res k op seen e ih h =
      close d d' reject res.reason (name_result s res) op seen (e, refl) (ground arith)
  step-IsSupported s d d' w1 undecided res k op seen e ih h =
      close d d' error res.reason (name_result s res) op seen (e, refl) (ground arith)
  step-IsSupported s d d' w1 (other_outcome x) res k op seen e ih h =
      absurd (ground (arith, seen.fits))
  step-IsSupported s d d' w1 passed res k op seen e ih h =
      ih (record d { stages = d.stages ++ name_result s res ∷ [] })
        (record {
          case_kept = op.case_kept;
          candidate_kept = op.candidate_kept;
          limits_kept = op.limits_kept;
          accepting = op.accepting;
          unreasoned = op.unreasoned;
          observed = All-append IsObserved d.stages _ op.observed (seen, tt);
          passing = All-append (λ t. t.outcome ≡ passed) d.stages _ op.passing (e, tt);
        })
        (append-ne-nil_of_right_ne-nil d.stages (λ p. cc)) h

  after-IsSupported :
      {W : Type 0} (s : Stage W) (d d' : Decision) (w w1 : W) (r : Result String StageResult)
      (k : Decision → W → Result GateError Decision × W)
      → Reports s
      → IsOpen inp np d
      → s.run inp w ≡ (r, w1)
      → ((e : Decision) → IsOpen inp np e → e.stages ≢ [] → (k e w1).0 ≡ ok d' → IsSupported d')
      → (after_run s d k (r, w1)).0 ≡ ok d'
      → IsSupported d'
  unfolding after_run
  after-IsSupported s d d' w w1 (err m) k rep op e ih h = cc
  after-IsSupported s d d' w w1 (ok res) k rep op e ih h =
      step-IsSupported s d d' w1 res.outcome res k op (rep inp w w1 res e) refl ih h

  run_stages-IsSupported :
      {W : Type 0} (ss : List (Stage W)) (d d' : Decision) (w : W)
      → All Reports ss
      → IsOpen inp np d
      → (d.stages ≢ []) ⊎ (ss ≢ [])
      → (run_stages inp ss d w).0 ≡ ok d'
      → IsSupported d'
  unfolding run_stages
  run_stages-IsSupported [] d d' w rep op (inr n) h = absurd (n refl)
  run_stages-IsSupported [] d d' w rep op (inl n) h = rw (← some_decision) (record {
    case_named = λ p. case_named (sym op.case_kept ∙ p);
    candidate_named = λ p. candidate_named (sym op.candidate_kept ∙ p);
    limits_stated = rw op.limits_kept says;
    observed = op.observed;
    concludes = rw (op.accepting, op.unreasoned) (Concludes-accept d.stages n op.passing);
  })
    where
      some_decision : d ≡ d'
      some_decision = ground arith
  run_stages-IsSupported (s ∷ ss) d d' w (rep, reps) op n h =
      after-IsSupported s d d' w (s.run inp w).1 (s.run inp w).0 (λ e u. run_stages inp ss e u) rep
        op refl (λ e oe ne he. run_stages-IsSupported ss e d' (s.run inp w).1 reps oe (inl ne) he) h

  validated-not-malformed :
      (d : Decision)
      → IsSupported d
      → (ps : List Problem) → validated d (validate d) ≢ err (malformed ps)
  unfolding validated
  validated-not-malformed d v ps = rw ((validate-iff-IsSupported d).1 v) (λ e. cc)

  finish-not-malformed :
      (r : Result GateError Decision)
      → ((d : Decision) → r ≡ ok d → IsSupported d)
      → ((ps : List Problem) → r ≢ err (malformed ps))
      → (ps : List Problem) → finish r ≢ err (malformed ps)
  unfolding finish
  finish-not-malformed (ok d) sup n ps = validated-not-malformed d (sup d refl) ps
  finish-not-malformed (err e) sup n ps = n ps

  after-not-malformed :
      {W : Type 0} (s : Stage W) (d : Decision) (w1 : W) (r : Result String StageResult)
      (k : Decision → W → Result GateError Decision × W)
      → ((e : Decision) (ps : List Problem) → (k e w1).0 ≢ err (malformed ps))
      → (ps : List Problem) → (after_run s d k (r, w1)).0 ≢ err (malformed ps)
  unfolding after_run conclude
  after-not-malformed s d w1 (err m) k n ps h = ground arith
  after-not-malformed s d w1 (ok res) k n ps h =
      ground (arith, n (record d { stages = d.stages ++ name_result s res ∷ [] }) ps)

  run_stages-not-malformed :
      {W : Type 0} (ss : List (Stage W)) (d : Decision) (w : W) (ps : List Problem)
      → (run_stages inp ss d w).0 ≢ err (malformed ps)
  unfolding run_stages
  run_stages-not-malformed [] d w ps = λ h. cc
  run_stages-not-malformed (s ∷ ss) d w ps =
      after-not-malformed s d (s.run inp w).1 (s.run inp w).0 (λ e u. run_stages inp ss e u)
        (λ e. run_stages-not-malformed ss e (s.run inp w).1) ps

-- For a named case and candidate, a stated limit and at least one stage, if every stage reports
-- what it saw, and a reason just when it did not pass, then `Verify` never ends in a malformed
-- decision: it returns a decision, or the error of a stage that could not run.
pub verify-not-malformed :
    {W : Type 0} (inp : Input) (ss : List (Stage W)) (np : List String) (w : W) (ps : List Problem)
    → inp.case.id ≢ ""
    → inp.candidate.id ≢ ""
    → Says np
    → ss ≢ []
    → All Reports ss
    → (verify inp ss np w).0 ≢ err (malformed ps)
unfolding verify
verify-not-malformed inp ss np w ps cn dn says n reps =
    finish-not-malformed inp np cn dn says (run_stages inp ss (start inp np) w).0
      (λ d h.
        run_stages-IsSupported inp np cn dn says ss (start inp np) d w reps
          (record {
            case_kept = refl;
            candidate_kept = refl;
            limits_kept = refl;
            accepting = refl;
            unreasoned = refl;
            observed = tt;
            passing = tt;
          })
          (inr n) h)
      (run_stages-not-malformed inp np cn dn says ss (start inp np) w) ps

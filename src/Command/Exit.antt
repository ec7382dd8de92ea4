-- ===== src/Command/Exit.antt =====
-- What an exit code of the command stands for.
use arazu.Prelude.{
  ℕ, String, ◌==◌, eq_iff, ◌||◌, subst, ◌≡◌, ◌≢◌, refl, ap, sym, ◌∙◌, Bool, true, false, Bool-cases,
  inl, inr, ◌⊎◌, List, [], ◌∷◌, Result, ok, err, Text, concat, ok-injective,
}
use arazu.Corpus.Case.{Case, Candidate}
use arazu.Gate.Decision.{
  Verdict, accept, reject, error, other_verdict, StageResult, Artifact, Decision,
}
use arazu.Gate.Decision.Support.{IsSupported, Concludes}
use arazu.Gate.Verify.{GateError}
use arazu.Gate.Verify.Laws.{verify-IsSupported}
use arazu.Gate.Exec.{Did, >>=-Did, pure-Did, Did-end}
use arazu.Command.{
  Options, Host, exit_code, fail, from_gate, grade_m0, grade_m1, grade_m2, grade_m3, replay_with,
  grade_stage, grade, write_decision, emit_decision, log_decision, detail_of, event_of, code_of,
  known_stage, start, command,
}

from_gate-ok :
    {W : Type 0} (h : Host W) (r : Result GateError Decision × W) (d : Decision) (w' : W)
    → from_gate h r ≡ (ok d, w')
    → r.0 ≡ ok d
unfolding from_gate
from_gate-ok h (ok e, w) d w' q = ap (λ x. x) (ap ok (ok-injective (ap (λ x. x.0) q)))
from_gate-ok h (err e, w) d w' q = cc

module _ {W : Type 0} (h : Host W) (o : Options) (c : Case) (cand : Candidate) where
  grade_m0-IsSupported :
      (w w' : W) (d : Decision) → Did (grade_m0 h o c cand) w d w' → IsSupported d
  unfolding grade_m0
  grade_m0-IsSupported w w' d q = verify-IsSupported _ _ _ w d (from_gate-ok h _ d w' q)

  grade_m1-IsSupported :
      (w w' : W) (d : Decision) → Did (grade_m1 h o c cand) w d w' → IsSupported d
  unfolding grade_m1
  grade_m1-IsSupported w w' d q =
      let (t, w1, _, q1) = >>=-Did _ _ w w' q in
      verify-IsSupported _ _ _ w1 d (from_gate-ok h _ d w' q1)

  grade_m3-IsSupported :
      (w w' : W) (d : Decision) → Did (grade_m3 h o c cand) w d w' → IsSupported d
  unfolding grade_m3
  grade_m3-IsSupported w w' d q =
      let (t, w1, _, q1) = >>=-Did _ _ w w' q in
      verify-IsSupported _ _ _ w1 d (from_gate-ok h _ d w' q1)

  replay_with-IsSupported :
      (b : Bool) (w w' : W) (d : Decision) → Did (replay_with h o c cand b) w d w' → IsSupported d
  unfolding replay_with fail
  replay_with-IsSupported true w w' d q = cc
  replay_with-IsSupported false w w' d q =
      let (dir, w1, _, q1) = >>=-Did _ _ w w' q in
      let (t, w2, _, q2) = >>=-Did _ _ w1 w' q1 in
      let (patch, w3, _, q3) = >>=-Did _ _ w2 w' q2 in
      let (reference, w4, _, q4) = >>=-Did _ _ w3 w' q3 in
      verify-IsSupported _ _ _ w4 d (from_gate-ok h _ d w' q4)

  grade_stage-IsSupported :
      (stage : String) (w w' : W) (d : Decision)
      → Did (grade_stage h o stage c cand) w d w'
      → IsSupported d
  unfolding grade_stage grade_m2
  grade_stage-IsSupported stage w w' d q = elim (Bool-cases (stage == "m1")) [
    | inl b ↦ grade_m1-IsSupported w w' d (rw b at q)
    | inr b ↦ elim (Bool-cases (stage == "m3")) [
      | inl b3 ↦ grade_m3-IsSupported w w' d (rw (b, b3) at q)
      | inr b3 ↦ elim (Bool-cases (stage == "m2")) [
        | inl b2 ↦ replay_with-IsSupported (c.reference_patch == "") w w' d (rw (b, b3, b2) at q)
        | inr b2 ↦ grade_m0-IsSupported w w' d (rw (b, b3, b2) at q)
      ]
    ]
  ]

no_other : (v : String) (r : String) (ss : List StageResult) → Concludes (other_verdict v) r ss → ⊥
no_other v r [] k = k
no_other v r (s ∷ []) k = k
no_other v r (s ∷ t ∷ ss) (_, k) = no_other v r (t ∷ ss) k

-- A supported verdict and the code it exits with.
code-verdict :
    (v : Verdict) (r : String) (ss : List StageResult)
    → Concludes v r ss
    → exit_code v ≢ 2
    → ((exit_code v ≡ 0) × (v ≡ accept)) ⊎ ((exit_code v ≡ 1) × (v ≡ reject))
unfolding exit_code
code-verdict accept r ss k n = inl (refl, refl)
code-verdict reject r ss k n = inr (refl, refl)
code-verdict error r ss k n = absurd (n refl)
code-verdict (other_verdict v) r ss k n = absurd (no_other v r ss k)

module _ {W : Type 0} (h : Host W) (o : Options) where
  -- With the flag for a dossier, it is written, and its artifacts are those of the decision.
  pub record InDossier (d : Decision) (files : List (String × Text)) (w : W) (d' : Decision)
      (w' : W) : Type 0 where
    pub without : o.bundle ≡ "" → (d' ≡ d) × (w' ≡ w)
    pub written :
        o.bundle ≢ ""
        → (artifacts : List Artifact) × Did (h.write_dossier o.bundle d files) w artifacts w'
          × (d' ≡ record d { artifacts = artifacts })

  -- The case and the candidate, with the reason if there is one.
  pub record Detail (d : Decision) (text : String) : Type 0 where
    pub plain : d.reason ≡ "" → text ≡ concat (d.case_id ∷ "/" ∷ d.candidate_id ∷ [])
    pub with_reason :
        d.reason ≢ ""
        → text ≡ concat (concat (d.case_id ∷ "/" ∷ d.candidate_id ∷ []) ∷ ": " ∷ d.reason ∷ [])

  detail_of-Detail : (d : Decision) → Detail d (detail_of d)
  unfolding detail_of
  detail_of-Detail d = elim (Bool-cases (d.reason == "")) [
    | inl b ↦ record {
      plain = λ e. rw b refl;
      with_reason = λ n. absurd (n ((eq_iff d.reason "").0 b));
    }
    | inr b ↦ record { plain = λ e. cc ((eq_iff d.reason "").1 e, b); with_reason = λ n. rw b refl }
  ]

  -- With the flag for a log, the event of the verdict is appended to it.
  pub record InLog (event : String) (d : Decision) (w w' : W) : Type 0 where
    pub without : o.log ≡ "" → w' ≡ w
    pub appended :
        o.log ≢ "" → (text : String) × Detail d text × Did (h.append_log o.log event text) w tt w'

  write_decision-InDossier :
      (d d' : Decision) (files : List (String × Text)) (w w' : W)
      → Did (write_decision h o d files) w d' w'
      → InDossier d files w d' w' × (d'.verdict ≡ d.verdict)
  unfolding write_decision
  write_decision-InDossier d d' files w w' q = elim (Bool-cases (o.bundle == "")) [
    | inl b ↦
        let (e, v) = pure-Did d w w' (rw b at q) in
        (
          record {
            without = λ z. (sym e, sym v);
            written = λ n. absurd (n ((eq_iff o.bundle "").0 b));
          },
          ap (λ (x : Decision). x.verdict) (sym e),
        )
    | inr b ↦
        let (artifacts, w1, a, q1) = >>=-Did _ _ w w' (rw b at q) in
        let (e, v) = pure-Did _ w1 w' q1 in
        (
          record {
            without = λ z. cc ((eq_iff o.bundle "").1 z, b);
            written = λ n. (artifacts, Did-end (h.write_dossier o.bundle d files) v a, sym e);
          },
          ap (λ (x : Decision). x.verdict) (sym e),
        )
  ]

  log_decision-InLog :
      (d : Decision) (w w' : W)
      → Did (log_decision h o d) w tt w'
      → InLog (event_of d.verdict) d w w'
  unfolding log_decision
  log_decision-InLog d w w' q = elim (Bool-cases (o.log == "")) [
    | inl b ↦ record {
      without = λ z. sym (pure-Did tt w w' (rw b at q)).1;
      appended = λ n. absurd (n ((eq_iff o.log "").0 b));
    }
    | inr b ↦ record {
      without = λ z. cc ((eq_iff o.log "").1 z, b);
      appended = λ n. (detail_of d, detail_of-Detail d, rw b at q);
    }
  ]

  -- What is left of a decision: the dossier, the log and the exit code.
  record Emitted (d : Decision) (files : List (String × Text)) (w : W) (n : ℕ) (w' : W)
      : Type 0 where
    written : Decision
    dossier_in : W
    dossier : InDossier d files w written dossier_in
    log : InLog (event_of d.verdict) written dossier_in w'
    code : n ≡ exit_code d.verdict

  emit_decision-Emitted :
      (d : Decision) (files : List (String × Text)) (w w' : W) (n : ℕ)
      → Did (emit_decision h o (d, files)) w n w'
      → Emitted d files w n w'
  unfolding emit_decision
  emit_decision-Emitted d files w w' n q =
      let (d', w1, a, q1) = >>=-Did _ _ w w' q in
      let (u, w2, l, q2) = >>=-Did _ _ w1 w' q1 in
      let (e, v) = pure-Did _ w2 w' q2 in
      let (dossier, verdict) = write_decision-InDossier d d' files w w1 a in
      record {
        written = d';
        dossier_in = w1;
        dossier = dossier;
        log =
            subst (λ x. InLog (event_of x) d' w1 w') verdict
              (log_decision-InLog d' w1 w' (Did-end (log_decision h o d') v l));
        code = sym e ∙ ap exit_code verdict;
      }

  grade-IsSupported :
      (w w' : W) (d : Decision) (files : List (String × Text))
      → Did (grade h o) w (d, files) w'
      → IsSupported d
  unfolding grade
  grade-IsSupported w w' d files q =
      let (c, w1, _, q1) = >>=-Did _ _ w w' q in
      let (cand, w2, _, q2) = >>=-Did _ _ w1 w' q1 in
      let (e, w3, g, q3) = >>=-Did _ _ w2 w' q2 in
      subst IsSupported (ap (λ x. x.0) (pure-Did _ w3 w' q3).0)
        (grade_stage-IsSupported h o c cand o.stage w2 w3 e g)

  -- A decision that the command has reached, and what is written of it.
  pub record Recorded (w : W) (n : ℕ) (w' : W) : Type 0 where
    pub decision : Decision
    pub files : List (String × Text)
    pub graded_in : W
    pub did_grade : Did (grade h o) w (decision, files) graded_in
    pub supported : IsSupported decision
    pub written : Decision
    pub dossier_in : W
    pub dossier : InDossier decision files graded_in written dossier_in
    pub meaning :
        ((n ≡ 0) × (decision.verdict ≡ accept) × InLog "GATE_ACCEPT" written dossier_in w')
        ⊎ ((n ≡ 1) × (decision.verdict ≡ reject) × InLog "GATE_REJECT" written dossier_in w')

  code_of-ok :
      (r : Result String ℕ × W) (n : ℕ) (w' : W) → code_of h o r ≡ (n, w') → n ≢ 2 → r ≡ (ok n, w')
  unfolding code_of
  code_of-ok (ok k, w) n w' q x = ap (λ y. (ok y.0, y.1)) q
  code_of-ok (err m, w) n w' q x = absurd (x (sym (ap (λ y. y.0) q)))

  -- The event is that of the verdict.
  log_under :
      {v v' : Verdict} {d : Decision} {w w' : W}
      → v ≡ v'
      → InLog (event_of v) d w w'
      → InLog (event_of v') d w w'
  log_under {d = d} {w = w} {w' = w'} e l = subst (λ x. InLog (event_of x) d w w') e l

  start-Recorded :
      (a b : Bool) (w w' : W) (n : ℕ) → start h o a b w ≡ (n, w') → n ≢ 2 → Recorded w n w'
  unfolding start event_of
  start-Recorded true b w w' n q x = absurd (x (sym (ap (λ y. y.0) q)))
  start-Recorded false false w w' n q x = absurd (x (sym (ap (λ y. y.0) q)))
  start-Recorded false true w w' n q x =
      let ((d, files), w1, g, e) = >>=-Did _ _ w w' (code_of-ok _ n w' q x) in
      let s = grade-IsSupported w w1 d files g in
      let m = emit_decision-Emitted d files w1 w' n e in
      record {
        decision = d;
        files = files;
        graded_in = w1;
        did_grade = g;
        supported = s;
        written = m.written;
        dossier_in = m.dossier_in;
        dossier = m.dossier;
        meaning =
            elim (code-verdict d.verdict d.reason d.stages s.concludes (λ z. x (m.code ∙ z))) [
              | inl (k, v) ↦ inl (m.code ∙ k, v, log_under v m.log)
              | inr (k, v) ↦ inr (m.code ∙ k, v, log_under v m.log)
            ];
      }

  -- An exit code other than 2 stands for a decision that the stage reached and that is supported by
  -- what the stage recorded: it is ACCEPT for the code 0 and REJECT for the code 1, and there is no
  -- other code. Where the flags name a dossier, it was written, with the decision carrying its
  -- artifacts, and where they name a log, the event of that verdict was appended to it last, with the
  -- case, the candidate and the reason; without these flags nothing is written.
  pub command-Recorded : (w w' : W) (n : ℕ) → command h o w ≡ (n, w') → n ≢ 2 → Recorded w n w'
  unfolding command
  command-Recorded w w' n q x =
      start-Recorded (o.case_path == "" || o.candidate == "") (known_stage h o) w w' n q x

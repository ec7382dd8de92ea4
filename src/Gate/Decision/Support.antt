-- ===== src/Gate/Decision/Support.antt =====
-- What `Validate` accepts, described without reference to its checks.
use arazu.Prelude.{
  ℕ, ◌+◌, String, false, ◌≡◌, ◌≢◌, ◌↔◌, refl, List, [], ◌∷◌, ◌++◌, ok, is_blank, arith, eq_iff,
  append-eq-nil, nil-append-nil, All, ◌⊎◌, inl, inr, Bool-cases,
}
use arazu.Gate.Decision.{
  Verdict, accept, reject, error, other_verdict, Outcome, passed, failed, undecided, other_outcome,
  StageResult, Decision, Problem, non_blank, stage_problems, all_stage_problems, failed_reasons,
  undecided_reasons, order_problems, verdict_problems, header_problems, record_problems, problems,
  refuse, validate,
}

-- Some line carries something.
abbrev pub Says : List String → Type 0
Says [] = ⊥
Says (x ∷ xs) = (is_blank x ≡ false) ⊎ Says xs

abbrev pub ReasonFits : Outcome → String → Type 0
ReasonFits passed r = r ≡ ""
ReasonFits failed r = r ≢ ""
ReasonFits undecided r = r ≢ ""
ReasonFits (other_outcome o) r = ⊥

-- A stage record that shows that the stage ran.
pub record IsObserved (s : StageResult) : Type 0 where
  pub named : s.stage ≢ ""
  pub seen : Says s.evidence
  pub fits : ReasonFits s.outcome s.reason

abbrev pub Final : Verdict → String → StageResult → Type 0
Final accept r s = (s.outcome ≡ passed) × (r ≡ "")
Final reject r s = (s.outcome ≡ failed) × (s.reason ≡ r)
Final error r s = (s.outcome ≡ undecided) × (s.reason ≡ r)
Final (other_verdict v) r s = ⊥

-- Every stage but the last passed, and the last one gives the verdict and its reason.
abbrev pub Concludes : Verdict → String → List StageResult → Type 0
Concludes v r [] = ⊥
Concludes v r (s ∷ []) = Final v r s
Concludes v r (s ∷ t ∷ ss) = (s.outcome ≡ passed) × Concludes v r (t ∷ ss)

pub record IsSupported (d : Decision) : Type 0 where
  pub case_named : d.case_id ≢ ""
  pub candidate_named : d.candidate_id ≢ ""
  pub limits_stated : Says d.not_proven
  pub observed : All IsObserved d.stages
  pub concludes : Concludes d.verdict d.reason d.stages

non_blank-Says : (xs : List String) → non_blank xs ≢ 0 → Says xs
unfolding non_blank
non_blank-Says [] h = h refl
non_blank-Says (x ∷ xs) h = elim (Bool-cases (is_blank x)) [
  | inl b ↦ inr (non_blank-Says xs (λ e. h (ground arith)))
  | inr b ↦ inl b
]

Says-non_blank : (xs : List String) → Says xs → non_blank xs ≢ 0
unfolding non_blank
Says-non_blank [] h = absurd h
Says-non_blank (x ∷ xs) (inl b) = ground arith
Says-non_blank (x ∷ xs) (inr h) = ground (arith, Says-non_blank xs h)

stage_problems-IsObserved : (i : ℕ) (s : StageResult) → stage_problems i s ≡ [] → IsObserved s
unfolding stage_problems
stage_problems-IsObserved i s h = record {
  named = ground (arith, eq_iff s.stage "");
  seen = non_blank-Says s.evidence (ground arith);
  fits = ground (arith, eq_iff s.reason "");
}

IsObserved-stage_problems : (i : ℕ) (s : StageResult) → IsObserved s → stage_problems i s ≡ []
unfolding stage_problems
IsObserved-stage_problems i s h =
    ground (arith, eq_iff s.stage "", eq_iff s.reason "", Says-non_blank s.evidence h.seen)

all_stage_problems-All :
    (i : ℕ) (ss : List StageResult) → all_stage_problems i ss ≡ [] → All IsObserved ss
unfolding all_stage_problems
all_stage_problems-All i [] h = tt
all_stage_problems-All i (s ∷ ss) h =
    let (p, q) = append-eq-nil (stage_problems i s) _ h in
    (stage_problems-IsObserved i s p, all_stage_problems-All (i + 1) ss q)

All-all_stage_problems :
    (i : ℕ) (ss : List StageResult) → All IsObserved ss → all_stage_problems i ss ≡ []
unfolding all_stage_problems
All-all_stage_problems i [] h = refl
All-all_stage_problems i (s ∷ ss) (p, h) =
    nil-append-nil (IsObserved-stage_problems i s p) (All-all_stage_problems (i + 1) ss h)

-- The checks on the order of the stages and on the verdict, for a list of stages.
abbrev conclusion_problems : Verdict → String → List StageResult → List Problem
conclusion_problems v r ss =
    order_problems ss ++ verdict_problems v r (failed_reasons ss) (undecided_reasons ss)

conclusion_problems-Concludes :
    (v : Verdict) (r : String) (s : StageResult) (ss : List StageResult)
    → All IsObserved (s ∷ ss)
    → conclusion_problems v r (s ∷ ss) ≡ []
    → Concludes v r (s ∷ ss)
unfolding order_problems verdict_problems failed_reasons undecided_reasons
conclusion_problems-Concludes accept r s [] (o, _) h = ground (arith, o.fits, eq_iff r "")
conclusion_problems-Concludes reject r s [] (o, _) h =
    ground (arith, o.fits, eq_iff r "", eq_iff s.reason r)
conclusion_problems-Concludes error r s [] (o, _) h =
    ground (arith, o.fits, eq_iff r "", eq_iff s.reason r)
conclusion_problems-Concludes (other_verdict v) r s [] (o, _) h = ground arith
conclusion_problems-Concludes v r s (t ∷ ss) (o, os) h =
    ground (arith, conclusion_problems-Concludes v r t ss os)

Concludes-conclusion_problems :
    (v : Verdict) (r : String) (s : StageResult) (ss : List StageResult)
    → All IsObserved (s ∷ ss)
    → Concludes v r (s ∷ ss)
    → conclusion_problems v r (s ∷ ss) ≡ []
unfolding order_problems verdict_problems failed_reasons undecided_reasons
Concludes-conclusion_problems accept r s [] (o, _) h = ground (arith, eq_iff r "")
Concludes-conclusion_problems reject r s [] (o, _) h =
    ground (arith, o.fits, eq_iff r "", eq_iff s.reason r)
Concludes-conclusion_problems error r s [] (o, _) h =
    ground (arith, o.fits, eq_iff r "", eq_iff s.reason r)
Concludes-conclusion_problems (other_verdict v) r s [] (o, _) h = absurd h
Concludes-conclusion_problems v r s (t ∷ ss) (o, os) h =
    ground (arith, Concludes-conclusion_problems v r t ss os h.1)

refuse-ok : (ps : List Problem) → refuse ps ≡ ok tt → ps ≡ []
unfolding refuse
refuse-ok [] h = refl
refuse-ok (p ∷ ps) h = cc

record_problems-Concludes :
    (v : Verdict) (r : String) (ss : List StageResult)
    → record_problems v r ss ≡ []
    → All IsObserved ss × Concludes v r ss
unfolding record_problems
record_problems-Concludes v r [] h = cc
record_problems-Concludes v r (s ∷ ss) h =
    let (a, c) = append-eq-nil (all_stage_problems 0 (s ∷ ss)) _ h in
    let o = all_stage_problems-All 0 (s ∷ ss) a in (o, conclusion_problems-Concludes v r s ss o c)

Concludes-record_problems :
    (v : Verdict) (r : String) (ss : List StageResult)
    → All IsObserved ss
    → Concludes v r ss
    → record_problems v r ss ≡ []
unfolding record_problems
Concludes-record_problems v r [] o c = absurd c
Concludes-record_problems v r (s ∷ ss) o c =
    nil-append-nil (All-all_stage_problems 0 (s ∷ ss) o)
      (Concludes-conclusion_problems v r s ss o c)

header_problems-nil :
    (d : Decision)
    → d.case_id ≢ ""
    → d.candidate_id ≢ ""
    → Says d.not_proven
    → header_problems d ≡ []
unfolding header_problems
header_problems-nil d p q says =
    ground (arith, eq_iff d.case_id "", eq_iff d.candidate_id "", Says-non_blank d.not_proven says)

validate-IsSupported : (d : Decision) → validate d ≡ ok tt → IsSupported d
unfolding validate problems
validate-IsSupported d h =
    let p = refuse-ok _ h in
    let (hs, rs) = append-eq-nil (header_problems d) _ p in
    let (o, c) = record_problems-Concludes d.verdict d.reason d.stages rs in
    record {
      case_named = unfold header_problems in ground (arith, eq_iff d.case_id "");
      candidate_named = unfold header_problems in ground (arith, eq_iff d.candidate_id "");
      limits_stated = non_blank-Says d.not_proven (unfold header_problems in ground arith);
      observed = o;
      concludes = c;
    }

IsSupported-validate : (d : Decision) → IsSupported d → validate d ≡ ok tt
unfolding validate problems refuse
IsSupported-validate d v = rw (
  header_problems-nil d v.case_named v.candidate_named v.limits_stated,
  Concludes-record_problems d.verdict d.reason d.stages v.observed v.concludes,
)

-- `Validate` accepts a decision exactly when it is supported: both ids are given, a line says what
-- is not proven, every recorded stage is named, shows evidence and gives a reason just when it did
-- not pass, every stage but the last passed, and the last one yields the verdict and its reason.
pub validate-iff-IsSupported : (d : Decision) → (validate d ≡ ok tt) ↔ IsSupported d
validate-iff-IsSupported d = (validate-IsSupported d, IsSupported-validate d)

pub Says-append_left : (xs ys : List String) → Says xs → Says (xs ++ ys)
Says-append_left [] ys h = absurd h
Says-append_left (x ∷ xs) ys (inl h) = inl h
Says-append_left (x ∷ xs) ys (inr h) = inr (Says-append_left xs ys h)

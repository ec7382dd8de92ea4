-- ===== src/Revert/Laws.antt =====
-- Every report of M1 shows what it saw.
use arazu.Prelude.{
  String, refl, List, [], ◌∷◌, ◌++◌, Result, ok, err, Bool, true, false, inl, inr, is_blank-concat,
  blank, Bool-cases,
}
use arazu.Gate.Decision.{passed, Outcome, StageResult}
use arazu.Gate.Decision.Support.{IsObserved, Says, ReasonFits, Says-append_left}
use arazu.Gate.Verify.{Input}
use arazu.Gate.Verify.Total.{Reports, name_result-IsObserved}
use arazu.Gate.Exec.{Did, >>=-Did, pure-Did}
use arazu.Corpus.Site.{SiteMatch, same, differ, undetermined}
use arazu.Revert.{
  PoVRun, RevertStage, verdict_of, result, before_evidence, not_reproduced, elsewhere,
  does_not_apply, still_firing, stopped, judge_all, after_evidence, judge_after, after_apply,
  attribute, judge_before, revert_run, revert_stage,
}

result-IsObserved :
    (o : Outcome) (r : String) (ev : List String)
    → ReasonFits o r
    → Says ev
    → IsObserved (result o r ev)
result-IsObserved o r ev f s = record { named = λ e. cc; seen = s; fits = f }

before_evidence-Says : (b : PoVRun) (more : List String) → Says (before_evidence b ++ more)
unfolding before_evidence
before_evidence-Says b more =
    inl (is_blank-concat "unpatched tree at the pin: " (verdict_of b ∷ []) (unfold blank in refl))

before-Says : (b : PoVRun) → Says (before_evidence b)
unfolding before_evidence
before-Says b =
    inl (is_blank-concat "unpatched tree at the pin: " (verdict_of b ∷ []) (unfold blank in refl))

still_firing-IsObserved :
    (m : SiteMatch) (ev : List String) → Says ev → IsObserved (still_firing m ev)
unfolding still_firing
still_firing-IsObserved same ev s = result-IsObserved _ _ _ (λ e. cc) (Says-append_left ev _ s)
still_firing-IsObserved differ ev s = result-IsObserved _ _ _ (λ e. cc) (Says-append_left ev _ s)
still_firing-IsObserved undetermined ev s =
    result-IsObserved _ _ _ (λ e. cc) (Says-append_left ev _ s)

judge_all-IsObserved :
    (after : PoVRun) (all : List String) → Says all → IsObserved (judge_all after all)
unfolding judge_all stopped
judge_all-IsObserved after all says = elim (Bool-cases after.sanitizer_fired) [
  | inl f ↦ rw f (still_firing-IsObserved after.site all says)
  | inr f ↦ rw f (result-IsObserved passed "" _ refl (Says-append_left all _ says))
]

judge_after-IsObserved :
    (ev : List String) (after : PoVRun) → Says ev → IsObserved (judge_after ev after)
unfolding judge_after after_evidence
judge_after-IsObserved ev after s =
    judge_all-IsObserved after _
      (Says-append_left (ev ++ _ ∷ []) after.evidence (Says-append_left ev _ s))

module _ {W : Type 0} (s : RevertStage W) (inp : Input) where
  after_apply-IsObserved :
      (ev : List String) (applied : Result String (Unit {0})) (w w' : W) (res : StageResult)
      → Says ev
      → Did (after_apply s inp ev applied) w res w'
      → IsObserved res
  unfolding after_apply does_not_apply
  after_apply-IsObserved ev (err e) w w' res says h =
      rw (← (pure-Did _ w w' h).0) (result-IsObserved _ _ _ (λ e. cc) (Says-append_left ev _ says))
  after_apply-IsObserved ev (ok _) w w' res says h =
      let (u, w1, _, h1) = >>=-Did _ _ w w' h in
      let (after, w2, _, h2) = >>=-Did _ _ w1 w' h1 in
      let (v, w3, _, h3) = >>=-Did _ _ w2 w' h2 in
      rw (← (pure-Did _ w3 w' h3).0) (judge_after-IsObserved ev after says)

  attribute-IsObserved :
      (before : PoVRun) (w w' : W) (res : StageResult)
      → Did (attribute s inp before) w res w'
      → IsObserved res
  unfolding attribute
  attribute-IsObserved before w w' res h =
      let (applied, w1, _, h1) = >>=-Did _ _ w w' h in
      after_apply-IsObserved (before_evidence before) applied w1 w' res (before-Says before) h1

  judge_before-IsObserved :
      (f d : Bool) (before : PoVRun) (w w' : W) (res : StageResult)
      → Did (judge_before s inp f d before) w res w'
      → IsObserved res
  unfolding judge_before not_reproduced elsewhere
  judge_before-IsObserved false d before w w' res h =
      rw (← (pure-Did _ w w' h).0)
        (result-IsObserved _ _ _ (λ e. cc) (before_evidence-Says before _))
  judge_before-IsObserved true true before w w' res h =
      rw (← (pure-Did _ w w' h).0)
        (result-IsObserved _ _ _ (λ e. cc) (before_evidence-Says before _))
  judge_before-IsObserved true false before w w' res h = attribute-IsObserved before w w' res h

-- Whatever the target does, a report of M1 names its stage, shows what was seen, and gives a reason
-- just when the stage does not pass.
pub revert_stage-Reports : {W : Type 0} (s : RevertStage W) → Reports (revert_stage s)
unfolding revert_run
revert_stage-Reports s inp w w' res h =
    let (u, w1, _, h1) = >>=-Did _ _ w w' h in
    let (v, w2, _, h2) = >>=-Did _ _ w1 w' h1 in
    let (before, w3, _, h3) = >>=-Did _ _ w2 w' h2 in
    let (x, w4, _, h4) = >>=-Did _ _ w3 w' h3 in
    name_result-IsObserved (revert_stage s) res
      (judge_before-IsObserved s inp _ _ before w4 w' res h4)
